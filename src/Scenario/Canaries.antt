-- ===== src/Scenario/Canaries.antt =====
-- The theorems on canaries and network policies, at the policy and the template of
-- Scenario/Templates.antt.
use dynamic_secret_operator.Prelude.{
  codes, has_prefix, true, false, some, [], ◌∷◌, All, ◌≡◌, ◌≢◌, refl, arith, inr,
}
use dynamic_secret_operator.Api.{DynamicSecretPolicy, deployment}
use dynamic_secret_operator.Api.Pods.{
  PodTemplateSpec, Container, EnvVar, EnvVarSource, SecretKeySelector,
}
use dynamic_secret_operator.Workload.Names.{target_env_name}
use dynamic_secret_operator.Workload.Mutate.{mutate_pod_template_spec}
use dynamic_secret_operator.Canary.Deployment.{
  label_canary, label_target_workload, canary_labels, canary_template, build_canary_from_template,
}
use dynamic_secret_operator.Canary.Agreement.{
  Runs, selects, canary_agrees, canary_differs, canary_isolated,
}
use dynamic_secret_operator.Canary.Endpoint.Laws.{postgresql_probe}
use dynamic_secret_operator.Canary.NetworkPolicy.{
  build_network_policy, build_cilium_network_policy, ingress_type, egress_type,
}
use dynamic_secret_operator.Canary.NetworkPolicy.Egress.{
  IsKnown, IsClosed, CiliumIsClosed, as_standard, build_network_policy-IsClosed,
  build_cilium_network_policy-IsClosed,
}
use mathlib.Core.List.{Memᴰ}
use mathlib.Core.List.Memᴰ.{head}
use dynamic_secret_operator.Scenario.{fresh, legacy_spec, policy_of, empty_template, offline}
use dynamic_secret_operator.Scenario.Templates.{policy, app, template, secret, no_env, no_container}

-- The same policy with a variable to set.
abbrev named_policy : DynamicSecretPolicy
named_policy =
    policy_of
      (record (legacy_spec deployment []) {
        target_ref = some (record { volume_name = []; env_name = codes "DB"; container_name = [] });
      })
      fresh

names_variable : target_env_name named_policy ≢ []
unfolding target_env_name
names_variable = cc

canary_agrees_example :
    canary_template (codes "web") named_policy secret template
    ≡ record (mutate_pod_template_spec (codes "web") named_policy secret template) {
      labels = canary_labels (codes "web");
    }
canary_agrees_example = canary_agrees (codes "web") named_policy secret names_variable template

-- A variable that reads the key "db" of another secret.
abbrev other_ref : SecretKeySelector
other_ref = record { name = codes "other"; key = codes "db"; rest = [] }

abbrev other_source : EnvVarSource
other_source = record { secret_key_ref = some other_ref; rest = [] }

abbrev other_variable : EnvVar
other_variable = record { name = codes "DB"; value = []; value_from = some other_source }

abbrev other_app : Container
other_app = record app { env = other_variable ∷ [] }

abbrev other_template : PodTemplateSpec
other_template = record empty_template { containers = other_app ∷ [] }

foreign_names :
    (has_prefix (codes "other") (codes "web-db-rev-") ≡ false)
    × (has_prefix (codes "other") (codes "web-rev-") ≡ false)
    × (codes "other" ≢ codes "db")
    × (codes "other" ≢ codes "web-db")
unfolding has_prefix
foreign_names = (refl, refl, ground arith, ground arith)

canary_differs_example :
    Runs
      (codes "web")
      policy
      secret
      (record other_variable {
        value_from =
            some
              (record other_source { secret_key_ref = some (record other_ref { name = secret }) });
      })
      other_app
      (canary_template (codes "web") policy secret other_template).containers
    × Runs
        (codes "web")
        policy
        secret
        other_variable
        other_app
        (mutate_pod_template_spec (codes "web") policy secret other_template).containers
canary_differs_example =
    canary_differs (codes "web") policy secret other_variable other_source other_ref refl refl
      other_template other_app no_env no_container (head refl) (head refl) refl foreign_names.0
      foreign_names.1 foreign_names.2 foreign_names.3

not_canary : codes "app" ≢ label_canary
not_canary = ground arith

not_target : codes "app" ≢ label_target_workload
not_target = ground arith

canary_isolated_example :
    (selects
        (build_canary_from_template (codes "web") policy secret template).match_labels
        (build_canary_from_template (codes "web") policy secret template).template.labels
      ≡ true)
    × (selects
          ((codes "app", codes "web") ∷ [])
          (build_canary_from_template (codes "web") policy secret template).template.labels
        ≡ false)
canary_isolated_example =
    canary_isolated (codes "web") policy secret template (codes "app") (codes "web") [] not_canary
      not_target

known : All IsKnown policy.spec.validation_probes
known = (inr postgresql_probe, tt)

build_network_policy-IsClosed_example :
    ((build_network_policy offline policy).policy_types ≡ ingress_type ∷ egress_type ∷ [])
    × ((build_network_policy offline policy).ingress ≡ [])
    × All IsClosed (build_network_policy offline policy).egress
build_network_policy-IsClosed_example = build_network_policy-IsClosed offline policy known

build_cilium_network_policy-IsClosed_example :
    ((build_cilium_network_policy offline policy).ingress ≡ [])
    × All CiliumIsClosed (build_cilium_network_policy offline policy).egress
    × All
        (λ r. Memᴰ (as_standard r) (build_network_policy offline policy).egress)
        (build_cilium_network_policy offline policy).egress
build_cilium_network_policy-IsClosed_example =
    build_cilium_network_policy-IsClosed offline policy known
