-- ===== src/Canary/Deployment.antt =====
-- `BuildCanaryFromTemplate` of internal/canary/deployment.go: the template of the canary's pods and
-- its Deployment.
use dynamic_secret_operator.Prelude.{ℕ, Text, codes, [], ◌∷◌, ◌++◌, map}
use dynamic_secret_operator.Api.{DynamicSecretPolicy}
use dynamic_secret_operator.Api.Pods.{Labels, PodTemplateSpec}
use dynamic_secret_operator.Workload.Mutate.{set_key, label_revision}
use dynamic_secret_operator.Canary.Template.{canary_volumes, canary_container}

abbrev pub label_canary : Text
label_canary = codes "dso.quantumsys.dev/canary"

abbrev pub label_target_workload : Text
label_target_workload = codes "dso.quantumsys.dev/target"

-- `appsv1.Deployment`, as far as the operator fills it in.
pub record Deployment : Type 0 where
  pub name : Text
  pub namespace : Text
  pub labels : Labels
  pub replicas : ℕ
  pub match_labels : Labels
  pub template : PodTemplateSpec

-- The labels of the canary and of its pods.
abbrev pub canary_labels : Text → Labels
canary_labels target = (label_canary, codes "true") ∷ (label_target_workload, target) ∷ []

module _ (target : Text) (policy : DynamicSecretPolicy) (new_secret : Text) where
  unfoldable pub canary_template : PodTemplateSpec → PodTemplateSpec
  canary_template tpl = record tpl {
    labels = canary_labels target;
    annotations = set_key label_revision policy.status.desired_revision tpl.annotations;
    volumes = canary_volumes target policy new_secret tpl.volumes;
    containers = map (canary_container target policy new_secret) tpl.containers;
    init_containers = map (canary_container target policy new_secret) tpl.init_containers;
  }

  unfoldable pub build_canary_from_template : PodTemplateSpec → Deployment
  build_canary_from_template tpl = record {
    name = target ++ codes "-canary";
    namespace = policy.namespace;
    labels = canary_labels target;
    replicas = 1;
    match_labels = canary_labels target;
    template = canary_template tpl;
  }
