-- ===== src/Azure/KeyVault/Fetch.antt =====
-- What a fetch from a key vault returns.
use dynamic_secret_operator.Prelude.{
  Text, codes, is_empty, split, IsPart, split_part, split-append, Option, none, some, List, [], ◌∷◌,
  ◌++◌, ◌≡◌, ◌≢◌, ◌⊎◌, inl, inr, refl, ap, ◌∙◌, ℕ, ◌==◌, Bool-cases, true, false,
}
use dynamic_secret_operator.Api.{SecretSource, AzureKeyVaultSource}
use dynamic_secret_operator.Source.Provider.{fetch_azure, vault_payload}
use dynamic_secret_operator.Client.{Client, ◌>>=◌, continue, lift, Result, ok, err, Error, failed}
use dynamic_secret_operator.Azure.KeyVault.{
  SecretPayload, SecretResponse, success, error, Sdk, last_part, version_of, id_of, Fetched,
  read_response, after_response, fetch, get_secret,
}

last_part-append :
    (p : Text) (ps : List Text) (last : Text) → last_part (p ∷ (ps ++ (last ∷ []))) ≡ last
unfolding last_part
last_part-append p [] last = refl
last_part-append p (q ∷ ps) last = last_part-append q ps last

split-append_last :
    (sep : ℕ) (before part : Text)
    → IsPart sep part
    → (p : Text) × (ps : List Text) × (split sep (before ++ (sep ∷ part)) ≡ p ∷ (ps ++ (part ∷ [])))
unfolding split
split-append_last sep [] part h =
    ([], [], split-append sep [] part tt ∙ ap (λ r. [] ∷ r) (split_part sep part h))
split-append_last sep (c ∷ before) part h =
    let (p, ps, e) = split-append_last sep before part h in
    elim (Bool-cases (c == sep)) [
      | inl b ↦ ([], p ∷ ps, rw (split, b, e) refl)
      | inr b ↦ (c ∷ p, ps, rw (split, b, e) refl)
    ]

is_empty-cases : (t : Text) → ((is_empty t ≡ true) × (t ≡ [])) ⊎ ((is_empty t ≡ false) × (t ≢ []))
is_empty-cases [] = inl (refl, refl)
is_empty-cases (c ∷ t) = inr (refl, λ e. cc)

-- The part behind the last separator, whatever stands in front.
last_part-split :
    (sep : ℕ) (before part : Text)
    → IsPart sep part
    → last_part (split sep (before ++ (sep ∷ part))) ≡ part
last_part-split sep before part h =
    let (p, ps, e) = split-append_last sep before part h in rw e (last_part-append p ps part)

module _ {S : Type 0} (sdk : Sdk S) (vault_uri secret_name version : Text) (s : S) where
  -- Why a fetch fails, and the state in which it does: the vault is called only with an address, a
  -- name and a client.
  pub data Refused : S → Type 0 where
    no_vault : vault_uri ≡ [] → Refused s
    no_name : secret_name ≡ [] → Refused s
    no_client : {e : Error} → sdk.new_client vault_uri ≡ err e → Refused s
    call_failed :
        {e : Error} {t : S}
        → sdk.get_secret vault_uri secret_name version s ≡ (err e, t)
        → Refused t
    no_value :
        {r : SecretResponse} {t : S}
        → sdk.get_secret vault_uri secret_name version s ≡ (ok r, t)
        → r.value ≡ none
        → Refused t

  -- The vault's answer to this request holds the value, and its identifier names the version.
  pub data Answered : SecretPayload → S → Type 0 where
    answered :
        {r : SecretResponse} {v : Text} {t : S}
        → vault_uri ≢ []
        → secret_name ≢ []
        → sdk.get_secret vault_uri secret_name version s ≡ (ok r, t)
        → r.value ≡ some v
        → Answered (record { value = v; version = version_of r.id; id = id_of r.id }) t

  abbrev Outcome : Fetched × S → Type 0
  Outcome r =
      ((p : SecretPayload) × Answered p r.1 × (r.0 ≡ (success, ok p)))
      ⊎ ((e : Error) × Refused r.1 × (r.0 ≡ (error, err e)))

  response-Outcome :
      vault_uri ≢ []
      → secret_name ≢ []
      → (q : Result SecretResponse × S) → sdk.get_secret vault_uri secret_name version s ≡ q
      → Outcome (after_response q)
  unfolding read_response
  response-Outcome u n (err e, t) h = inr (e, call_failed h, refl)
  response-Outcome u n (ok r, t) h = by_value r.value refl
    where
      by_value : (o : Option Text) → r.value ≡ o → Outcome (read_response r, t)
      by_value none i =
          inr (failed (codes "retrieved secret has nil value"), no_value h i, rw i refl)
      by_value (some v) i = inl (
        record { value = v; version = version_of r.id; id = id_of r.id },
        answered u n h i,
        rw i refl,
      )

  client-Outcome :
      vault_uri ≢ []
      → secret_name ≢ []
      → (c : Result (Unit {0})) → sdk.new_client vault_uri ≡ c
      → Outcome (elim c [
        | err e ↦ ((error, err e), s)
        | ok client ↦ after_response (sdk.get_secret vault_uri secret_name version s)
      ])
  client-Outcome u n (err e) h = inr (e, no_client h, refl)
  client-Outcome u n (ok client) h = response-Outcome u n _ refl

  fetch-Outcome : Outcome (fetch sdk vault_uri secret_name version s)
  unfolding fetch
  fetch-Outcome = elim (is_empty-cases vault_uri) [
    | inl (e, a) ↦
        rw (fetch, e) (inr (failed (codes "vaultURI must not be empty"), no_vault a, refl))
    | inr (e, u) ↦ elim (is_empty-cases secret_name) [
      | inl (i, a) ↦
          rw (fetch, e, i) (inr (failed (codes "secretName must not be empty"), no_name a, refl))
      | inr (i, n) ↦ rw (fetch, e, i) (client-Outcome u n _ refl)
    ]
  ]

  -- A fetch ends in one of two ways. Either the address and the name are not empty, the vault has
  -- answered this request with a value, and the payload is that value with the version that the
  -- answer's identifier names, the latency observed as a success; or there was a reason to refuse
  -- it, it returns an error, and the latency is observed as an error.
  pub get_secret_settles :
      ((p : SecretPayload) × (t : S) × Answered p t
        × (get_secret sdk vault_uri secret_name version s
            ≡ (ok p, sdk.observe_latency vault_uri success t)))
      ⊎ ((e : Error) × (t : S) × Refused t
          × (get_secret sdk vault_uri secret_name version s
              ≡ (err e, sdk.observe_latency vault_uri error t)))
  unfolding get_secret
  get_secret_settles = elim fetch-Outcome [
    | inl (p, a, e) ↦ inl (
      p,
      _,
      a,
      ap
          (λ f.
            (f.1, sdk.observe_latency vault_uri f.0 (fetch sdk vault_uri secret_name version s).1))
          e,
    )
    | inr (x, r, e) ↦ inr (
      x,
      _,
      r,
      ap
          (λ f.
            (f.1, sdk.observe_latency vault_uri f.0 (fetch sdk vault_uri secret_name version s).1))
          e,
    )
  ]

  fetch_lem :
      {r : SecretResponse} {v : Text} {t : S}
      → is_empty vault_uri ≡ false
      → is_empty secret_name ≡ false
      → sdk.new_client vault_uri ≡ ok tt
      → sdk.get_secret vault_uri secret_name version s ≡ (ok r, t)
      → r.value ≡ some v
      → get_secret sdk vault_uri secret_name version s ≡ (
        ok (record { value = v; version = version_of r.id; id = id_of r.id }),
        sdk.observe_latency vault_uri success t,
      )
  unfolding get_secret fetch read_response
  fetch_lem u n c h i = rw (get_secret, fetch, u, n, c, h, read_response, i) refl

-- What the operator's provider takes from the fetcher of a key vault.
abbrev pub vault_answer : {S : Type 0} → Result SecretPayload × S → Result (Text × Text) × S
vault_answer (ok p, s) = (ok (p.value, p.version), s)
vault_answer (err e, s) = (err e, s)

module _ (client : Client) (sdk : Sdk client.State)
    (linked : (u n v : Text) (s : client.State)
      → client.fetch_vault_secret u n v s ≡ vault_answer (get_secret sdk u n v s))
    (src : SecretSource) (kv : AzureKeyVaultSource) where
  -- For a provider on top of this fetcher: a source that names an object of a vault, whose answer
  -- has a value and an identifier ending in a slash and a version, yields the value under the
  -- object's name with that version, whatever stands in the identifier before.
  pub fetch_azure-get_secret :
      (s t : client.State) (r : SecretResponse) (v before version : Text)
      → src.azure_key_vault_source ≡ some kv
      → src.parse_json ≡ false
      → is_empty kv.key_vault_uri ≡ false
      → is_empty kv.object_name ≡ false
      → sdk.new_client kv.key_vault_uri ≡ ok tt
      → sdk.get_secret kv.key_vault_uri kv.object_name [] s ≡ (ok r, t)
      → r.value ≡ some v
      → r.id ≡ some (before ++ (b'/' ∷ version))
      → IsPart b'/' version
      → fetch_azure client src s ≡ (
        ok (record { entries = (kv.object_name, v) ∷ []; version = version }),
        sdk.observe_latency kv.key_vault_uri success t,
      )
  unfolding fetch_azure vault_payload version_of ◌>>=◌ continue lift
  fetch_azure-get_secret s t r v before version source raw u n c h i j part =
      let fetched = fetch_lem sdk kv.key_vault_uri kv.object_name [] s u n c h i in
      let read = last_part-split b'/' before version part in
      rw (fetch_azure, source, linked, fetched, vault_payload, raw, j, read) refl
