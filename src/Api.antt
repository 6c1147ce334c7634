-- ===== src/Api.antt =====
-- The custom resource: api/v1alpha1/dynamicsecretpolicy_types.go, with the two methods of
-- `DynamicSecretPolicySpec`, and of the Kubernetes types the fields that the operator reads or writes.
-- A string that the source compares with a fixed set of constants is a data type whose
-- constructor `other` stands for every other value.
pub mod Pods
use dynamic_secret_operator.Prelude.{
  ℕ, Text, codes, Bool, false, Option, none, some, List, [], is_empty, ◌&&◌, if◌then◌else◌,
}
use mathlib.Core.Option
use Pods.{JobTemplate}

pub data VaultObjectType : Type 0 where
  secret_object certificate_object key_object unset_object : VaultObjectType
  other_object : Text → VaultObjectType

pub data ProbeType : Type 0 where
  tls postgresql mysql http job : ProbeType
  other_probe : Text → ProbeType

pub data SourceType : Type 0 where
  azure_key_vault k8s_secret aws_secrets_manager gcp_secret_manager vault : SourceType
  other_source : Text → SourceType

pub record AzureKeyVaultSource : Type 0 where
  pub key_vault_uri : Text
  pub object_name : Text
  pub object_type : VaultObjectType

-- The sources that carry one name: K8sSecretSource.Name, GCPSecretManagerSource.SecretID,
-- VaultSource.Path.
pub record K8sSecretSource : Type 0 where
  pub name : Text

pub record AwsSecretsManagerSource : Type 0 where
  pub secret_id : Text
  pub region : Text

pub record GcpSecretManagerSource : Type 0 where
  pub secret_id : Text

pub record VaultSource : Type 0 where
  pub path : Text

pub record SecretSource : Type 0 where
  pub type : SourceType
  pub parse_json : Bool
  pub azure_key_vault_source : Option AzureKeyVaultSource
  pub k8s_secret_source : Option K8sSecretSource
  pub aws_secrets_manager_source : Option AwsSecretsManagerSource
  pub gcp_secret_manager_source : Option GcpSecretManagerSource
  pub vault_source : Option VaultSource

pub data NetworkPolicyProvider : Type 0 where
  standard cilium : NetworkPolicyProvider
  other_provider : Text → NetworkPolicyProvider

pub record NetworkPolicySpec : Type 0 where
  pub provider : NetworkPolicyProvider

pub record VaultReference : Type 0 where
  pub key_vault_uri : Text
  pub object_name : Text
  pub object_type : VaultObjectType

-- The kinds of internal/workload/adapter.go; `unset_kind` is the empty string.
pub data WorkloadKind : Type 0 where
  deployment stateful_set daemon_set rollout unset_kind : WorkloadKind
  other_kind : Text → WorkloadKind

pub record WorkloadSelector : Type 0 where
  pub kind : WorkloadKind
  pub name : Text

pub record ProbeCredentials : Type 0 where
  pub password_key : Text
  pub username_key : Text
  pub database_key : Text

pub record JobProbeSpec : Type 0 where
  pub timeout_seconds : Option ℕ
  pub job_template : JobTemplate

pub record ValidationProbe : Type 0 where
  pub type : ProbeType
  pub endpoint : Text
  pub query_timeout : ℕ
  pub credentials : Option ProbeCredentials
  pub job_spec : Option JobProbeSpec

pub record RollbackConfig : Type 0 where
  pub auto_rollback : Bool
  pub circuit_breaker_threshold : ℕ

pub record TargetRef : Type 0 where
  pub volume_name : Text
  pub env_name : Text
  pub container_name : Text

pub record DynamicSecretPolicySpec : Type 0 where
  pub source : Option SecretSource
  pub vault_ref : VaultReference
  pub network_policy : Option NetworkPolicySpec
  pub workload_selector : WorkloadSelector
  pub validation_probes : List ValidationProbe
  pub rollback_config : Option RollbackConfig
  pub target_ref : Option TargetRef

-- The condition types of the controller's state machine, and every other.
pub data ConditionType : Type 0 where
  revision_prepared canary_provisioning validating rollout_progressing promoting rolled_back
        circuit_breaker_tripped :
      ConditionType
  other_condition : Text → ConditionType

pub data ConditionStatus : Type 0 where
  true_status false_status unknown_status : ConditionStatus

-- `metav1.Condition`, without its message and its times, which no decision reads.
pub record Condition : Type 0 where
  pub type : ConditionType
  pub status : ConditionStatus
  pub reason : Text

pub record DynamicSecretPolicyStatus : Type 0 where
  pub current_revision : Text
  pub desired_revision : Text
  pub consecutive_failures : ℕ
  pub conditions : List Condition

pub record DynamicSecretPolicy : Type 0 where
  pub name : Text
  pub namespace : Text
  pub uid : Text
  pub spec : DynamicSecretPolicySpec
  pub status : DynamicSecretPolicyStatus

-- `SecretSource{}`, the zero value.
abbrev pub empty_source : SecretSource
empty_source = record {
  type = other_source [];
  parse_json = false;
  azure_key_vault_source = none;
  k8s_secret_source = none;
  aws_secrets_manager_source = none;
  gcp_secret_manager_source = none;
  vault_source = none;
}

-- `objType == ""` falls back to `Secret`.
abbrev or_secret : VaultObjectType → VaultObjectType
or_secret unset_object = secret_object
or_secret type = type

-- `GetResolvedSource`: the explicit source, or one made of the legacy `vaultRef`.
unfoldable pub get_resolved_source : DynamicSecretPolicySpec → SecretSource
get_resolved_source s = elim s.source [
  | some source ↦ source
  | none ↦
      if is_empty s.vault_ref.key_vault_uri && is_empty s.vault_ref.object_name
      then empty_source
      else record empty_source {
        type = azure_key_vault;
        azure_key_vault_source = some (record {
          key_vault_uri = s.vault_ref.key_vault_uri;
          object_name = s.vault_ref.object_name;
          object_type = or_secret s.vault_ref.object_type;
        });
      }
]

-- The two statements behind the `switch` of `GetVaultObjectName`.
abbrev legacy_object_name : DynamicSecretPolicySpec → Text
legacy_object_name s =
    if is_empty s.vault_ref.object_name then codes "secret" else s.vault_ref.object_name

-- The `switch` of `GetVaultObjectName`; `none` falls out of it.
abbrev source_object_name : SourceType → SecretSource → Option Text
source_object_name azure_key_vault src = Option.map (λ k. k.object_name) src.azure_key_vault_source
source_object_name k8s_secret src = Option.map (λ k. k.name) src.k8s_secret_source
source_object_name aws_secrets_manager src =
    Option.map (λ k. k.secret_id) src.aws_secrets_manager_source
source_object_name gcp_secret_manager src =
    Option.map (λ k. k.secret_id) src.gcp_secret_manager_source
source_object_name vault src = Option.map (λ k. k.path) src.vault_source
source_object_name (other_source t) src = none

-- `GetVaultObjectName`.
unfoldable pub get_vault_object_name : DynamicSecretPolicySpec → Text
unfolding get_resolved_source
get_vault_object_name s =
    let src = get_resolved_source s in
    Option.get_or (source_object_name src.type src) (legacy_object_name s)
