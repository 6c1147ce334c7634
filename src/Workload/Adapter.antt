-- ===== src/Workload/Adapter.antt =====
-- The workload adapters of internal/workload: the interface `WorkloadAdapter`, whose four
-- implementations differ in the kind of object and, for Argo Rollouts, in having no canary.
use dynamic_secret_operator.Prelude.{Text, codes, Option, none, some}
use dynamic_secret_operator.Api.{
  DynamicSecretPolicy, WorkloadKind, deployment, stateful_set, daemon_set, rollout, unset_kind,
  other_kind,
}
use dynamic_secret_operator.Workload.Mutate.{mutate_pod_template_spec}
use dynamic_secret_operator.Canary.Deployment.{Deployment, build_canary_from_template}
use dynamic_secret_operator.Client.{Client, Key, Result, ok, err, failed, Workload}

pub data Adapter : Type 0 where
  deployment_adapter stateful_set_adapter daemon_set_adapter rollout_adapter : Adapter

unfoldable pub new_adapter : WorkloadKind → Result Adapter
new_adapter deployment = ok deployment_adapter
new_adapter unset_kind = ok deployment_adapter
new_adapter stateful_set = ok stateful_set_adapter
new_adapter daemon_set = ok daemon_set_adapter
new_adapter rollout = ok rollout_adapter
new_adapter (other_kind t) = err (failed (codes "unsupported workload kind"))

-- `Kind`.
unfoldable pub adapter_kind : Adapter → WorkloadKind
adapter_kind deployment_adapter = deployment
adapter_kind stateful_set_adapter = stateful_set
adapter_kind daemon_set_adapter = daemon_set
adapter_kind rollout_adapter = rollout

-- `BuildCanary`, of the workload that `Fetch` has read.
unfoldable pub build_canary : Adapter → Workload → DynamicSecretPolicy → Text → Option Deployment
build_canary rollout_adapter w policy secret = none
build_canary adapter w policy secret =
    some (build_canary_from_template w.name policy secret w.template)

-- The workload that `Promote` patches to.
unfoldable pub promoted : Workload → DynamicSecretPolicy → Text → Workload
promoted w policy secret = record w {
  template = mutate_pod_template_spec w.name policy secret w.template;
}

module _ (client : Client) where
  open client use {State, get_workload, patch_workload}

  unfoldable pub fetch : Adapter → Key → State → Result Workload × State
  unfolding adapter_kind
  fetch adapter = get_workload (adapter_kind adapter)

  unfoldable pub promote :
      Adapter → Workload → DynamicSecretPolicy → Text → State → Result (Unit {0}) × State
  unfolding adapter_kind promoted
  promote adapter w policy secret =
      patch_workload (adapter_kind adapter) (promoted w policy secret) w
