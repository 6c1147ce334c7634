-- ===== src/Probes/Tls.antt =====
-- internal/probes/tls.go.
pub mod Pins
use dynamic_secret_operator.Api.Pods.{value_of}
use dynamic_secret_operator.Prelude.{
  ℕ, Text, codes, text_eq, is_empty, Bool, true, false, not, ◌&&◌, ◌||◌, Option, none, some, List,
  [], ◌∷◌, map, ltb, ◌==◌, if◌then◌else◌,
}
use dynamic_secret_operator.Api.{ValidationProbe}
use dynamic_secret_operator.Client.{SecretData, Result, ok, err, failed}
use dynamic_secret_operator.Controller.Endpoint.{trim_space}
use dynamic_secret_operator.Probes.JobName.{to_lower}

-- `x509.Certificate`, as far as it is read: its DER bytes and the time for which it is valid.
pub record Certificate : Type 0 where
  pub raw : Text
  pub not_before : ℕ
  pub not_after : ℕ

-- What `tls.Dialer.DialContext` gives: an error, a connection that is none of TLS, or the peer's
-- certificates, the leaf first.
pub data Dialed : Type 0 where
  dial_failed not_tls : Dialed
  connected : List Certificate → Dialed

-- `crypto/tls` and the clock, with the hashes and the PEM reader of Go's library.
pub record TlsNetwork (S : Type 0) : Type 0 where
  -- With `InsecureSkipVerify` and an address.
  pub dial : Bool → Text → S → Dialed × S
  pub close_conn : S → S
  pub now : S → ℕ
  -- The hexadecimal digests of a certificate's bytes.
  pub sha256 : Text → Text
  pub sha1 : Text → Text
  -- The bytes of the first block that `pem.Decode` finds.
  pub pem_decode : Text → Option Text

-- The value of a key, if the map has the key.
unfoldable pub entry_of : Text → SecretData → Option Text
entry_of key [] = none
entry_of key ((k, v) ∷ entries) = if text_eq k key then some v else entry_of key entries

-- Whether the secret has a value to pin the certificate with.
unfoldable pub has_pinned_secret : SecretData → Bool
unfolding value_of
has_pinned_secret entries =
    not (is_empty (value_of (codes "thumbprint") entries))
    || (not (is_empty (value_of (codes "tls.crt") entries))
        || not (is_empty (value_of (codes "cert") entries)))

-- `strings.ReplaceAll` of one character by nothing.
unfoldable pub remove_char : ℕ → Text → Text
remove_char d [] = []
remove_char d (c ∷ s) = if c == d then remove_char d s else c ∷ remove_char d s

-- `cleanHex`.
unfoldable pub clean_hex : Text → Text
unfolding remove_char
clean_hex s = map to_lower (trim_space (remove_char b' ' (remove_char b':' s)))

-- `certPEMBytes`.
unfoldable pub cert_pem : SecretData → Text
unfolding entry_of
cert_pem entries = elim (entry_of (codes "tls.crt") entries) [
  | some b ↦ b
  | none ↦ elim (entry_of (codes "cert") entries) [ some b ↦ b | none ↦ [] ]
]

module _ {S : Type 0} (network : TlsNetwork S) where
  open network use {dial, close_conn, now, sha256, sha1, pem_decode}

  unfoldable pub is_current : Certificate → ℕ → Bool
  is_current c time = not (ltb c.not_after time) && not (ltb time c.not_before)

  -- The test of the thumbprint, if there is one.
  unfoldable pub thumbprint_matches : Certificate → SecretData → Bool
  unfolding value_of clean_hex
  thumbprint_matches c entries =
      let thumbprint = value_of (codes "thumbprint") entries in
      is_empty thumbprint
      || (text_eq (clean_hex thumbprint) (sha256 c.raw)
          || text_eq (clean_hex thumbprint) (sha1 c.raw))

  -- The test of the certificate in the secret, if there is one and it holds a block.
  unfoldable pub payload_matches : Certificate → SecretData → Bool
  unfolding cert_pem
  payload_matches c entries = elim (pem_decode (cert_pem entries)) [
    | none ↦ true
    | some der ↦
        is_empty (cert_pem entries) || (is_empty der || text_eq (sha256 der) (sha256 c.raw))
  ]

  unfoldable pub check_leaf : Certificate → SecretData → ℕ → Result (Unit {0})
  unfolding is_current thumbprint_matches payload_matches
  check_leaf c entries time =
      if not (is_current c time)
      then err (failed (codes "certificate expired or is not yet valid"))
      else if not (thumbprint_matches c entries)
      then err (failed (codes "tls certificate thumbprint mismatch against expected secret value"))
      else if not (payload_matches c entries)
      then err (failed (codes "tls certificate DER hash does not match tls.crt payload"))
      else ok tt

  -- The connection is closed on every path behind the dial.
  abbrev pub after_dial : SecretData → Dialed × S → Result (Unit {0}) × S
  after_dial entries (dial_failed, s) = (err (failed (codes "tls dial failed")), s)
  after_dial entries (not_tls, s) =
      (err (failed (codes "failed to obtain tls connection state")), close_conn s)
  after_dial entries (connected [], s) =
      (err (failed (codes "no peer certificates presented by endpoint")), close_conn s)
  after_dial entries (connected (leaf ∷ chain), s) = (check_leaf leaf entries (now s), close_conn s)

  unfoldable pub tls_execute : ValidationProbe → SecretData → S → Result (Unit {0}) × S
  unfolding check_leaf has_pinned_secret
  tls_execute config entries s =
      if is_empty config.endpoint
      then (err (failed (codes "tls probe endpoint must not be empty")), s)
      else after_dial entries (dial (has_pinned_secret entries) config.endpoint s)
