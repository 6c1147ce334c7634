-- ===== src/Probes/Tls/Pins.antt =====
-- Which certificates internal/probes/tls.go accepts.
use dynamic_secret_operator.Api.Pods.{value_of}
use dynamic_secret_operator.Prelude.{
  ℕ, Text, codes, text_eq, text_eq_iff, is_empty, is_empty_iff, Bool, true, false, not, ◌&&◌, ◌||◌,
  Option, none, some, List, [], ◌∷◌, ltb, ◌≤◌, if◌then◌else◌, ◌≡◌, ◌≢◌, ◌⊎◌, ◌↔◌, refl, ap, sym,
  subst, arith,
}
use dynamic_secret_operator.Api.{ValidationProbe}
use dynamic_secret_operator.Client.Results.{if_ok}
use dynamic_secret_operator.Client.{SecretData, Result, Error, ok, err, failed}
use dynamic_secret_operator.Probes.Tls.{
  Certificate, Dialed, dial_failed, not_tls, connected, TlsNetwork, has_pinned_secret, clean_hex,
  cert_pem, is_current, thumbprint_matches, payload_matches, check_leaf, after_dial, tls_execute,
}

either_lem :
    (t a b c : Text)
    → ((is_empty t || (text_eq a b || text_eq a c)) ≡ true) ↔ (t ≢ [] → (a ≡ b) ⊎ (a ≡ c))
either_lem t a b c = ground (arith, is_empty_iff t, text_eq_iff a b, text_eq_iff a c)

payload_lem :
    (hash : Text → Text) (pem raw : Text) (o : Option Text)
    → ((elim o [
      | none ↦ true
      | some der ↦ is_empty pem || (is_empty der || text_eq (hash der) (hash raw))
    ])
        ≡ true)
      ↔ ((der : Text) → o ≡ some der → pem ≢ [] → der ≢ [] → hash der ≡ hash raw)
payload_lem hash pem raw none = ((λ e der i. cc), λ h. refl)
payload_lem hash pem raw (some d) = (forward, backward)
  where
    forward :
        (is_empty pem || (is_empty d || text_eq (hash d) (hash raw))) ≡ true
        → (der : Text) → some d ≡ some der
        → pem ≢ []
        → der ≢ []
        → hash der ≡ hash raw
    forward e der i n m =
        ground (
          arith,
          is_empty_iff pem,
          is_empty_iff d,
          is_empty_iff der,
          text_eq_iff (hash d) (hash raw),
        )

    backward :
        ((der : Text) → some d ≡ some der → pem ≢ [] → der ≢ [] → hash der ≡ hash raw)
        → (is_empty pem || (is_empty d || text_eq (hash d) (hash raw))) ≡ true
    backward h =
        ground (arith, is_empty_iff pem, is_empty_iff d, text_eq_iff (hash d) (hash raw), h d refl)

three_tests :
    (a b d : Bool) (x y z : Error) (done : Result (Unit {0}))
    → done ≡ ok tt
    → (((if not a then err x else if not b then err y else if not d then err z else done) ≡ ok tt)
        ↔ ((a ≡ true) × (b ≡ true) × (d ≡ true)))
three_tests a b d x y z done e = ground arith

nonempty : (s : Text) → is_empty s ≡ false → s ≢ []
nonempty s e i = ground (arith, is_empty_iff s)

not_empty : (s : Text) → s ≢ [] → is_empty s ≡ false
not_empty s n = ground (arith, is_empty_iff s)

current_lem :
    (before after time : ℕ)
    → ((not (ltb after time) && not (ltb time before)) ≡ true) ↔ ((before ≤ time) × (time ≤ after))
current_lem before after time = ground arith

-- The secret has a value to pin the certificate with.
abbrev pub HasPin : SecretData → Type 0
HasPin entries =
    (value_of (codes "thumbprint") entries ≢ [])
    ⊎ ((value_of (codes "tls.crt") entries ≢ []) ⊎ (value_of (codes "cert") entries ≢ []))

has_pinned_secret-HasPin :
    (entries : SecretData) → (has_pinned_secret entries ≡ true) ↔ HasPin entries
unfolding has_pinned_secret
has_pinned_secret-HasPin entries = ground (
  arith,
  is_empty_iff (value_of (codes "thumbprint") entries),
  is_empty_iff (value_of (codes "tls.crt") entries),
  is_empty_iff (value_of (codes "cert") entries),
)

bool_eq_of_iff : (a b : Bool) (P : Type 0) → ((a ≡ true) ↔ P) → ((b ≡ true) ↔ P) → a ≡ b
bool_eq_of_iff true b P f g = sym (g.1 (f.0 refl))
bool_eq_of_iff false true P f g = f.1 (g.0 refl)
bool_eq_of_iff false false P f g = refl

module _ {S : Type 0} (network : TlsNetwork S) where
  open network use {dial, close_conn, now, sha256, sha1, pem_decode}

  -- What is known of a certificate at a time: it is valid, its digest is the secret's thumbprint, if
  -- there is one, and the secret's certificate, if there is one and it decodes, has its digest.
  pub record IsTrusted (c : Certificate) (entries : SecretData) (time : ℕ) : Type 0 where
    pub begun : c.not_before ≤ time
    pub not_over : time ≤ c.not_after
    pub thumbprint :
        value_of (codes "thumbprint") entries ≢ []
        → (clean_hex (value_of (codes "thumbprint") entries) ≡ sha256 c.raw)
          ⊎ (clean_hex (value_of (codes "thumbprint") entries) ≡ sha1 c.raw)
    pub payload :
        (der : Text)
        → pem_decode (cert_pem entries) ≡ some der
        → cert_pem entries ≢ []
        → der ≢ []
        → sha256 der ≡ sha256 c.raw

  module _ (c : Certificate) (entries : SecretData) (time : ℕ) where
    abbrev thumbprint : Text
    thumbprint = value_of (codes "thumbprint") entries

    check_leaf-IsTrusted : check_leaf network c entries time ≡ ok tt → IsTrusted c entries time
    unfolding check_leaf is_current thumbprint_matches payload_matches
    check_leaf-IsTrusted e =
        let (current, thumb, cert) =
          (three_tests (is_current network c time) (thumbprint_matches network c entries)
              (payload_matches network c entries) _ _ _ (ok tt) refl).0
            e in
        let (begun, not_over) = (current_lem c.not_before c.not_after time).0 current in
        record {
          begun = begun;
          not_over = not_over;
          thumbprint =
              (either_lem thumbprint (clean_hex thumbprint) (sha256 c.raw) (sha1 c.raw)).0 thumb;
          payload =
              (payload_lem sha256 (cert_pem entries) c.raw (pem_decode (cert_pem entries))).0 cert;
        }

    IsTrusted-check_leaf : IsTrusted c entries time → check_leaf network c entries time ≡ ok tt
    unfolding check_leaf is_current thumbprint_matches payload_matches
    IsTrusted-check_leaf h =
        (three_tests (is_current network c time) (thumbprint_matches network c entries)
            (payload_matches network c entries) _ _ _ (ok tt) refl).1
          (
            (current_lem c.not_before c.not_after time).1 (h.begun, h.not_over),
            (either_lem thumbprint (clean_hex thumbprint) (sha256 c.raw) (sha1 c.raw)).1
                h.thumbprint,
            (payload_lem sha256 (cert_pem entries) c.raw (pem_decode (cert_pem entries))).1
                h.payload,
          )

  -- The dial gave a certificate that is trusted at that time, and then closed the connection.
  abbrev pub Trusts : SecretData → Dialed × S → S → Type 0
  Trusts entries dialed t =
      (leaf : Certificate) × (chain : List Certificate) × (u : S) × (dialed
        ≡ (connected (leaf ∷ chain), u))
      × IsTrusted leaf entries (now u)
      × (t ≡ close_conn u)

  after_dial-Trusts :
      (entries : SecretData) (r : Dialed × S) (t : S)
      → after_dial network entries r ≡ (ok tt, t)
      → Trusts entries r t
  after_dial-Trusts entries (dial_failed, u) t e = cc
  after_dial-Trusts entries (not_tls, u) t e = cc
  after_dial-Trusts entries (connected [], u) t e = cc
  after_dial-Trusts entries (connected (leaf ∷ chain), u) t e = (
    leaf,
    chain,
    u,
    refl,
    check_leaf-IsTrusted leaf entries (now u) (ap (λ r. r.0) e),
    sym (ap (λ r. r.1) e),
  )

  Trusts-after_dial :
      (entries : SecretData) (r : Dialed × S) (t : S)
      → Trusts entries r t
      → after_dial network entries r ≡ (ok tt, t)
  Trusts-after_dial entries r t (leaf, chain, u, d, h, e) =
      rw (d, IsTrusted-check_leaf leaf entries (now u) h, e) refl

  passes_lem :
      (config : ValidationProbe) (entries : SecretData) (s t : S)
      → (tls_execute network config entries s ≡ (ok tt, t)) ↔ (
          (config.endpoint ≢ [])
          × Trusts entries (dial (has_pinned_secret entries) config.endpoint s) t)
  unfolding tls_execute
  passes_lem config entries s t = (
    λ e.
        let (i, j) =
          if_ok (is_empty config.endpoint) (failed (codes "tls probe endpoint must not be empty")) s
            t _ e in
        (nonempty config.endpoint i, after_dial-Trusts entries _ t j),
    λ (n, h). rw (tls_execute, not_empty config.endpoint n) (Trusts-after_dial entries _ t h),
  )

  -- A TLS probe passes, with the state `t` left, exactly if its endpoint is not empty and the dial to
  -- it gave a certificate that is trusted at that time, after which the connection is closed. The
  -- dial skips the verification by root certificates exactly if the secret has a value to pin: one
  -- of its entries thumbprint, tls.crt and cert is there and not empty.
  pub tls_execute_iff :
      (config : ValidationProbe) (entries : SecretData) (s t : S)
      → (tls_execute network config entries s ≡ (ok tt, t)) ↔ (
          (config.endpoint ≢ [])
          × ((insecure : Bool) × ((insecure ≡ true) ↔ HasPin entries)
              × Trusts entries (dial insecure config.endpoint s) t))
  tls_execute_iff config entries s t = (
    λ e.
        let (n, h) = (passes_lem config entries s t).0 e in
        (n, (has_pinned_secret entries, has_pinned_secret-HasPin entries, h)),
    λ (n, (insecure, pin, h)).
        let same =
          bool_eq_of_iff insecure (has_pinned_secret entries) _ pin
            (has_pinned_secret-HasPin entries) in
        (passes_lem config entries s t).1
          (n, subst (λ b. Trusts entries (dial b config.endpoint s) t) same h),
  )

  -- The probe can skip the verification of a certificate and put none in its place: where the secret
  -- has no thumbprint, and has a certificate that is not empty but holds no PEM block, the dial is
  -- made without verification, and the probe passes with every certificate that is valid at the time.
  pub tls_execute_unverified :
      (config : ValidationProbe) (entries : SecretData) (s u : S) (leaf : Certificate)
      (chain : List Certificate)
      → config.endpoint ≢ []
      → value_of (codes "thumbprint") entries ≡ []
      → value_of (codes "tls.crt") entries ≢ []
      → pem_decode (cert_pem entries) ≡ none
      → dial true config.endpoint s ≡ (connected (leaf ∷ chain), u)
      → leaf.not_before ≤ now u
      → now u ≤ leaf.not_after
      → tls_execute network config entries s ≡ (ok tt, close_conn u)
  unfolding has_pinned_secret
  tls_execute_unverified config entries s u leaf chain n t c p d begun not_over =
      (passes_lem config entries s (close_conn u)).1 (
        n,
        (
          leaf,
          chain,
          u,
          rw (t, not_empty (value_of (codes "tls.crt") entries) c) d,
          record {
            begun = begun;
            not_over = not_over;
            thumbprint = λ m. absurd (m t);
            payload = λ der e. cc;
          },
          refl,
        ),
      )
