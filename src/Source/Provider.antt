-- ===== src/Source/Provider.antt =====
-- internal/source/provider.go: the registry of secret sources, and what each of them fetches. A Go
-- map is the list of its entries; the order in which `range` visits them is the list's.
use dynamic_secret_operator.Prelude.{
  ℕ, Text, codes, text_eq, ◌==◌, Bool, none, some, List, [], ◌∷◌, if◌then◌else◌, ◌&&◌,
}
use dynamic_secret_operator.Api.{
  DynamicSecretPolicy, SecretSource, SourceType, azure_key_vault, k8s_secret, aws_secrets_manager,
  gcp_secret_manager, vault, other_source, get_resolved_source,
}
use dynamic_secret_operator.Workload.Mutate.{set_key}
use dynamic_secret_operator.Client.{
  Client, Result, ok, err, failed, SecretData, JsonValue, json_string, json_other, ◌>>=◌, return,
  fail, lift,
}

pub record SecretPayload : Type 0 where
  pub entries : SecretData
  pub version : Text

-- The implementations of the interface `Provider`.
pub data Provider : Type 0 where
  azure_key_vault_provider k8s_secret_provider : Provider
  stub_provider : Text → Text → Provider

-- The registry's map, newest entry first.
abbrev pub Registry : Type 0
Registry = List (SourceType × Provider)

source_tag : SourceType → ℕ
source_tag azure_key_vault = 0
source_tag k8s_secret = 1
source_tag aws_secrets_manager = 2
source_tag gcp_secret_manager = 3
source_tag vault = 4
source_tag (other_source t) = 5

source_name : SourceType → Text
source_name (other_source t) = t
source_name type = []

unfoldable pub source_eq : SourceType → SourceType → Bool
unfolding source_tag source_name
source_eq a b = (source_tag a == source_tag b) && text_eq (source_name a) (source_name b)

unfoldable pub new_registry : Registry
new_registry = []

unfoldable pub register : SourceType → Provider → Registry → Registry
register type p registry = (type, p) ∷ registry

unfoldable pub get_provider : SourceType → Registry → Result Provider
unfolding source_eq
get_provider type [] = err (failed (codes "no provider registered for source type"))
get_provider type ((t, p) ∷ registry) =
    if source_eq t type then ok p else get_provider type registry

-- `if x != nil { reg.Register(...) }`.
abbrev register_if : Bool → SourceType → Provider → Registry → Registry
register_if b type p registry = if b then register type p registry else registry

unfoldable pub setup_default_registry : Bool → Bool → Registry
unfolding new_registry register
setup_default_registry has_reader has_fetcher =
    register vault (stub_provider (codes "Vault") (codes "v0.3.0")) (
      register gcp_secret_manager (stub_provider (codes "GCPSecretManager") (codes "v0.3.0")) (
        register aws_secrets_manager (stub_provider (codes "AWSSecretsManager") (codes "v0.3.0")) (
          register_if has_reader k8s_secret k8s_secret_provider
            (register_if has_fetcher azure_key_vault azure_key_vault_provider new_registry))))

-- The loop of `ParseJSONPayload`, over the object's entries.
unfoldable pub json_entries : List (Text × JsonValue) → Result SecretData
json_entries [] = ok []
json_entries ((k, json_string s) ∷ fields) = elim (json_entries fields) [
  | ok entries ↦ ok ((k, s) ∷ entries)
  | err e ↦ err e
]
json_entries ((k, json_other none) ∷ fields) =
    err (failed (codes "failed to marshal JSON value for key"))
json_entries ((k, json_other (some b)) ∷ fields) = elim (json_entries fields) [
  | ok entries ↦ ok ((k, b) ∷ entries)
  | err e ↦ err e
]

-- The assignments `mergedData[pk] = pv` for each entry.
unfoldable pub assign_all : SecretData → SecretData → SecretData
assign_all [] merged = merged
assign_all ((k, v) ∷ entries) merged = assign_all entries (set_key k v merged)

module _ (client : Client) where
  open client use {State, fetch_vault_secret, read_secret, unmarshal_object}

  unfoldable pub parse_json_payload : Text → Result SecretData
  parse_json_payload raw = elim (unmarshal_object raw) [
    | none ↦ err (failed (codes "failed to parse secret JSON payload"))
    | some fields ↦ json_entries fields
  ]

  -- The payload of a vault's secret, which an object name or its JSON keys name.
  unfoldable pub vault_payload : Bool → Text → Text × Text → Result SecretPayload
  unfolding parse_json_payload
  vault_payload parse_json object (value, version) =
      if parse_json
      then elim (parse_json_payload value) [
        | ok entries ↦ ok (record { entries = entries; version = version })
        | err e ↦ err e
      ]
      else ok (record { entries = (object, value) ∷ []; version = version })

  unfoldable pub fetch_azure : SecretSource → State → Result SecretPayload × State
  unfolding vault_payload
  fetch_azure src = elim src.azure_key_vault_source [
    | none ↦ fail (failed (codes "azureKeyVault configuration is missing"))
    | some kv ↦ do
      payload ← fetch_vault_secret kv.key_vault_uri kv.object_name []
      lift (vault_payload src.parse_json kv.object_name payload)
  ]

  -- The loop that merges the keys of a secret's JSON values; other values keep their key.
  unfoldable pub merge_json : SecretData → SecretData → SecretData
  unfolding parse_json_payload
  merge_json [] merged = merged
  merge_json ((k, v) ∷ entries) merged = merge_json entries (elim (parse_json_payload v) [
    | ok parsed ↦ assign_all parsed merged
    | err e ↦ set_key k v merged
  ])

  unfoldable pub fetch_k8s :
      DynamicSecretPolicy → SecretSource → State → Result SecretPayload × State
  fetch_k8s policy src = elim src.k8s_secret_source [
    | none ↦ fail (failed (codes "k8sSecret configuration is missing"))
    | some k ↦ do
      sec ← read_secret (record { name = k.name; namespace = policy.namespace })
      return (record {
        entries = if src.parse_json then merge_json sec.entries [] else sec.entries;
        version = sec.resource_version;
      })
  ]

  unfoldable pub fetch_secret :
      Provider → DynamicSecretPolicy → State → Result SecretPayload × State
  unfolding fetch_azure fetch_k8s
  fetch_secret azure_key_vault_provider policy = fetch_azure (get_resolved_source policy.spec)
  fetch_secret k8s_secret_provider policy = fetch_k8s policy (get_resolved_source policy.spec)
  fetch_secret (stub_provider name milestone) policy =
      fail (failed (codes "native provider is currently in roadmap"))
