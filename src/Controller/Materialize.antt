-- ===== src/Controller/Materialize.antt =====
-- `materializeSecretRevision` of internal/controller/dynamicsecretpolicy_controller.go.
use dynamic_secret_operator.Prelude.{
  Text, codes, text_eq, contains, is_empty, Bool, true, false, ◌&&◌, Option, none, some, List, [],
  ◌∷◌, ◌++◌, any, if◌then◌else◌,
}
use dynamic_secret_operator.Api.{
  DynamicSecretPolicy, SecretSource, VaultObjectType, certificate_object, SourceType,
  azure_key_vault, get_resolved_source, get_vault_object_name,
}
use dynamic_secret_operator.Api.Pods.{Labels}
use dynamic_secret_operator.Workload.Names.{revision_secret_name}
use dynamic_secret_operator.Workload.Mutate.{set_key, label_revision}
use dynamic_secret_operator.Canary.Deployment.{label_target_workload}
use dynamic_secret_operator.Canary.Cleanup.{label_policy}
use dynamic_secret_operator.Client.{
  Client, Key, Result, ok, err, Error, already_exists, Secret, SecretData, SecretType, opaque,
  tls_secret, Object, ◌>>=◌, ◌>>◌, return, lift, creating,
}
use dynamic_secret_operator.Client
use dynamic_secret_operator.Source.Provider.{Registry, SecretPayload, get_provider, fetch_secret}
use dynamic_secret_operator.Source.Revision.{revision_hash}

abbrev pub tls_cert_key : Text
tls_cert_key = codes "tls.crt"

abbrev pub tls_private_key_key : Text
tls_private_key_key = codes "tls.key"

abbrev pub label_managed : Text
label_managed = codes "dso.quantumsys.dev/managed"

-- `extractPEMCertAndKey`: the loop over the decoded blocks, each with its encoding. A type that
-- contains "PRIVATE KEY" contains "KEY".
unfoldable pub extract_pem_cert_and_key : List (Text × Text) → Text × Text
extract_pem_cert_and_key [] = ([], [])
extract_pem_cert_and_key ((type, encoded) ∷ blocks) =
    let (certs, keys) = extract_pem_cert_and_key blocks in
    if contains type (codes "CERTIFICATE")
    then (encoded ++ certs, keys)
    else if contains type (codes "KEY")
    then (certs, encoded ++ keys)
    else (certs, keys)

-- A Key Vault certificate.
abbrev is_certificate_type : VaultObjectType → Bool
is_certificate_type certificate_object = true
is_certificate_type type = false

abbrev is_key_vault : SourceType → Bool
is_key_vault azure_key_vault = true
is_key_vault type = false

unfoldable pub is_certificate : SecretSource → Bool
is_certificate src = is_key_vault src.type && (elim src.azure_key_vault_source [
  | none ↦ false
  | some kv ↦ is_certificate_type kv.object_type
])

unfoldable pub has_key : Text → SecretData → Bool
has_key key entries = any (λ e. text_eq e.0 key) entries

-- The first value with a PEM block, at which the loop breaks.
unfoldable pub first_pem : SecretData → Option Text
first_pem [] = none
first_pem ((k, v) ∷ entries) =
    if contains v (codes "-----BEGIN ") then some v else first_pem entries

-- The secret's type and data, from the blocks of a certificate.
unfoldable pub certificate_data : Text × Text → SecretData → SecretType × SecretData
certificate_data (cert, key) entries = if is_empty cert then (opaque, entries) else (
  tls_secret,
  (if is_empty key
      then set_key tls_cert_key cert entries
      else set_key tls_private_key_key key (set_key tls_cert_key cert entries)),
)

module _ (client : Client) where
  open client use {State, pem_blocks, set_controller_reference, create}

  unfoldable pub secret_contents : SecretSource → SecretData → SecretType × SecretData
  unfolding is_certificate certificate_data extract_pem_cert_and_key first_pem has_key
  secret_contents src entries =
      if is_certificate src
      then elim (first_pem entries) [
        | none ↦ (opaque, entries)
        | some v ↦ certificate_data (extract_pem_cert_and_key (pem_blocks v)) entries
      ]
      else if has_key tls_cert_key entries && has_key tls_private_key_key entries
      then (tls_secret, entries)
      else (opaque, entries)

  -- The labels of a materialized revision.
  unfoldable pub revision_labels : DynamicSecretPolicy → Text → Labels
  revision_labels policy revision =
      (label_revision, revision)
      ∷ (label_target_workload, policy.spec.workload_selector.name)
      ∷ (label_policy, policy.name)
      ∷ (label_managed, codes "true")
      ∷ []

  unfoldable pub revision_secret : DynamicSecretPolicy → SecretPayload → Secret
  unfolding secret_contents revision_labels
  revision_secret policy payload =
      let revision = revision_hash client payload in
      let (type, entries) = secret_contents (get_resolved_source policy.spec) payload.entries in
      record {
        name =
            revision_secret_name policy.spec.workload_selector.name
              (get_vault_object_name policy.spec) revision;
        namespace = policy.namespace;
        labels = revision_labels policy revision;
        type = type;
        entries = entries;
        resource_version = [];
      }

  -- The revision of the upstream secret, whose Secret exists afterwards.
  unfoldable pub materialize_secret_revision :
      Registry → DynamicSecretPolicy → State → Result Text × State
  unfolding revision_secret
  materialize_secret_revision registry policy = do
    provider ← lift (get_provider (get_resolved_source policy.spec).type registry)
    payload ← fetch_secret client provider policy
    owned ←
        lift
          (set_controller_reference policy (Client.secret_object (revision_secret policy payload)))
    creating (create owned)
    return (revision_hash client payload)
