-- ===== src/Scenario/Templates.antt =====
-- The theorems on pod templates and Argo CD, at the policy of Scenario.antt.
use dynamic_secret_operator.Prelude.{ℕ, Text, codes, false, some, [], ◌∷◌, ◌≡◌, ◌≢◌, refl, arith}
use dynamic_secret_operator.Api.{
  DynamicSecretPolicy, deployment, postgresql, k8s_secret, empty_source, get_vault_object_name,
}
use dynamic_secret_operator.Api.Pods.{PodTemplateSpec, Container, Volume}
use dynamic_secret_operator.Workload.Names.{
  vault_object, target_volume_name, target_env_name, target_container_name,
}
use dynamic_secret_operator.Workload.Mutate.{mutate_pod_template_spec, set_key, label_revision}
use dynamic_secret_operator.Workload.Mutate.Laws.{mutate_pod_template_spec_idem}
use dynamic_secret_operator.Workload.Mutate.Frame.{strip, strip-mutate_pod_template_spec}
use dynamic_secret_operator.Workload.Rotation.{materialized, source_not_promoted}
use mathlib.Core.List.{Memᴰ}
use mathlib.Core.List.Memᴰ.{head}
use dynamic_secret_operator.Client.{Application}
use dynamic_secret_operator.Integration.ArgoCd.{ensure_ignore_differences}
use dynamic_secret_operator.Integration.ArgoCd.Laws.{
  FirstIsComplete, ensure_ignore_differences_idem,
}
use dynamic_secret_operator.Scenario.{fresh, legacy_spec, policy_of, probe_of, empty_template}

abbrev pub policy : DynamicSecretPolicy
policy = policy_of (legacy_spec deployment (probe_of postgresql (codes "db:5432") ∷ [])) fresh

abbrev pub app : Container
app = record {
  name = codes "app";
  env =
      record {
        name = codes "DB";
        value = [];
        value_from = some (record {
          secret_key_ref =
              some (record { name = codes "web-db-rev-1"; key = codes "db"; rest = [] });
          rest = [];
        });
      }
      ∷ [];
  env_from = [];
  rest = [];
}

abbrev pub template : PodTemplateSpec
template = record empty_template { containers = app ∷ [] }

abbrev pub secret : Text
secret = codes "web-db-rev-2"

mutate_pod_template_spec_idem_example :
    mutate_pod_template_spec
      (codes "web")
      policy
      secret
      (mutate_pod_template_spec (codes "web") policy secret template)
    ≡ mutate_pod_template_spec (codes "web") policy secret template
mutate_pod_template_spec_idem_example =
    mutate_pod_template_spec_idem (codes "web") policy secret template

no_volume : target_volume_name policy ≡ []
unfolding target_volume_name
no_volume = refl

pub no_env : target_env_name policy ≡ []
unfolding target_env_name
no_env = refl

pub no_container : target_container_name policy ≡ []
unfolding target_container_name
no_container = refl

strip-mutate_pod_template_spec_example :
    strip (mutate_pod_template_spec (codes "web") policy secret template)
    ≡ record (strip template) {
      annotations = set_key label_revision policy.status.desired_revision template.annotations;
    }
strip-mutate_pod_template_spec_example =
    strip-mutate_pod_template_spec (codes "web") policy secret no_volume no_env template

abbrev mounted : Text → DynamicSecretPolicy → Volume
mounted old policy = record {
  name = codes "certs";
  secret = some (record { secret_name = materialized (codes "web") policy old; rest = [] });
  rest = [];
}

-- A policy that gives its object by `source`.
abbrev source_policy : DynamicSecretPolicy
source_policy =
    policy_of
      (record (legacy_spec deployment []) {
        source = some (record empty_source {
          type = k8s_secret;
          k8s_secret_source = some (record { name = codes "db" });
        });
        vault_ref = record {
          key_vault_uri = [];
          object_name = [];
          object_type = policy.spec.vault_ref.object_type;
        };
      })
      fresh

no_object : vault_object source_policy ≡ []
no_object = refl

source_object : get_vault_object_name source_policy.spec ≡ codes "db"
unfolding get_vault_object_name
source_object = refl

abbrev letter : ℕ
letter = b'd'

not_dash : letter ≢ b'-'
not_dash = ground arith

not_r : letter ≢ b'r'
not_r = ground arith

not_s : letter ≢ b's'
not_s = ground arith

volume_names : (codes "certs" ≢ []) × (codes "certs" ≢ codes "-volume")
volume_names = (cc, ground arith)

abbrev mounting : PodTemplateSpec
mounting = record empty_template { volumes = mounted (codes "1") source_policy ∷ [] }

no_source_volume : target_volume_name source_policy ≡ []
unfolding target_volume_name
no_source_volume = refl

source_not_promoted_example :
    Memᴰ
      (mounted (codes "1") source_policy)
      (mutate_pod_template_spec
        (codes "web")
        source_policy
        (materialized (codes "web") source_policy (codes "2"))
        mounting).volumes
source_not_promoted_example =
    source_not_promoted (codes "web") source_policy (codes "1") (codes "2")
      (mounted (codes "1") source_policy) [] letter (codes "b") mounting no_source_volume no_object
      source_object not_dash not_r not_s volume_names.0 volume_names.1 refl (head refl)

abbrev application : Application
application = record {
  name = codes "web";
  namespace = codes "argocd";
  ignore_differences = [];
  rest = [];
}

ensure_ignore_differences_idem_example :
    FirstIsComplete
      (codes "web")
      (codes "apps")
      (codes "Deployment")
      (ensure_ignore_differences application
        (codes "apps")
        (codes "Deployment")).0.ignore_differences
    × (ensure_ignore_differences
          (ensure_ignore_differences application (codes "apps") (codes "Deployment")).0
          (codes "apps")
          (codes "Deployment")
        ≡ ((ensure_ignore_differences application (codes "apps") (codes "Deployment")).0, false))
ensure_ignore_differences_idem_example =
    ensure_ignore_differences_idem application (codes "apps") (codes "Deployment")
