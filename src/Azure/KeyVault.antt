-- ===== src/Azure/KeyVault.antt =====
-- `AzureKeyVaultFetcher` of internal/azure/keyvault.go.
pub mod Fetch
use dynamic_secret_operator.Prelude.{
  Text, codes, is_empty, split, Option, none, some, List, [], ◌∷◌, true, false, if◌then◌else◌,
}
use dynamic_secret_operator.Client.{Result, ok, err, Error, failed}

pub record SecretPayload : Type 0 where
  pub value : Text
  pub version : Text
  pub id : Text

-- Of the answer of `azsecrets.Client.GetSecret`, what is read; `none` is a nil pointer.
pub record SecretResponse : Type 0 where
  pub value : Option Text
  pub id : Option Text

-- The label of the histogram `KeyVaultFetchLatency`.
pub data FetchStatus : Type 0 where
  success error : FetchStatus

-- `azsecrets` with the fetcher's credential, and the histogram.
pub record Sdk (S : Type 0) : Type 0 where
  -- `NewClient` of a vault's address, as far as its error goes.
  pub new_client : Text → Result (Unit {0})
  -- `GetSecret` of a vault's client, a name and a version.
  pub get_secret : Text → Text → Text → S → Result SecretResponse × S
  pub observe_latency : Text → FetchStatus → S → S

-- The last part of a split.
unfoldable pub last_part : List Text → Text
last_part [] = []
last_part (p ∷ []) = p
last_part (p ∷ (q ∷ ps)) = last_part (q ∷ ps)

-- The version at the end of an identifier, https://<vault>.vault.azure.net/secrets/<name>/<version>.
unfoldable pub version_of : Option Text → Text
unfolding last_part split
version_of none = []
version_of (some id) = last_part (split b'/' id)

abbrev pub id_of : Option Text → Text
id_of none = []
id_of (some id) = id

-- The status that the deferred observation sees, and what the fetcher returns.
abbrev pub Fetched : Type 0
Fetched = FetchStatus × Result SecretPayload

abbrev pub rejected : Text → Fetched
rejected t = (error, err (failed t))

unfoldable pub read_response : SecretResponse → Fetched
unfolding version_of
read_response r = elim r.value [
  | none ↦ rejected (codes "retrieved secret has nil value")
  | some v ↦ (success, ok (record { value = v; version = version_of r.id; id = id_of r.id }))
]

abbrev pub after_response : {S : Type 0} → Result SecretResponse × S → Fetched × S
after_response (ok r, s) = (read_response r, s)
after_response (err e, s) = ((error, err e), s)

module _ {S : Type 0} (sdk : Sdk S) where
  -- The function without its deferred observation.
  unfoldable pub fetch : Text → Text → Text → S → Fetched × S
  unfolding read_response
  fetch vault_uri secret_name version s =
      if is_empty vault_uri
      then (rejected (codes "vaultURI must not be empty"), s)
      else if is_empty secret_name
      then (rejected (codes "secretName must not be empty"), s)
      else elim (sdk.new_client vault_uri) [
        | err e ↦ ((error, err e), s)
        | ok client ↦ after_response (sdk.get_secret vault_uri secret_name version s)
      ]

  unfoldable pub get_secret : Text → Text → Text → S → Result SecretPayload × S
  unfolding fetch
  get_secret vault_uri secret_name version s =
      let fetched = fetch vault_uri secret_name version s in
      (fetched.0.1, sdk.observe_latency vault_uri fetched.0.0 fetched.1)
