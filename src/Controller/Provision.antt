-- ===== src/Controller/Provision.antt =====
-- The cases "", RevisionPrepared and CanaryProvisioning of the `switch` in `Reconcile`
-- (internal/controller/dynamicsecretpolicy_controller.go). `base` is the policy as it was read,
-- against which the status is patched; `policy` carries the changes made in memory so far.
use dynamic_secret_operator.Prelude.{
  Text, text_eq, is_empty, Bool, true, false, not, ◌&&◌, none, some,
}
use dynamic_secret_operator.Api.{
  DynamicSecretPolicy, WorkloadKind, deployment, unset_kind, NetworkPolicyProvider, cilium,
}
use dynamic_secret_operator.Workload.Adapter.{Adapter, new_adapter, build_canary, fetch, promote}
use dynamic_secret_operator.Canary.Deployment.{Deployment}
use dynamic_secret_operator.Canary.Endpoint.{Net}
use dynamic_secret_operator.Canary.NetworkPolicy.{build_network_policy, build_cilium_network_policy}
use dynamic_secret_operator.Integration.ArgoCd.{reconcile_argo_cd_ignore_differences}
use dynamic_secret_operator.Client.{
  Client, Conditions, Key, Result, Workload, deployment_object, network_policy_object,
  cilium_object, Outcome, done, requeue, rotations_total, ◌>>=◌, ◌>>◌, return, lift, ignore, effect,
  creating,
}
use dynamic_secret_operator.Controller.Validation.{desired_secret_name}
use dynamic_secret_operator.Controller.Status.{
  set_status, status_started, status_provisioned, status_patched, status_validating,
}

-- `targetKind`, a Deployment where the selector gives none.
abbrev pub or_deployment : WorkloadKind → WorkloadKind
or_deployment unset_kind = deployment
or_deployment kind = kind

abbrev pub is_cilium : NetworkPolicyProvider → Bool
is_cilium cilium = true
is_cilium provider = false

unfoldable pub uses_cilium : DynamicSecretPolicy → Bool
uses_cilium policy = elim policy.spec.network_policy [
  | none ↦ false
  | some np ↦ is_cilium np.provider
]

-- The target workload's key.
abbrev pub target_key : DynamicSecretPolicy → Key
target_key policy = record {
  name = policy.spec.workload_selector.name;
  namespace = policy.namespace;
}

module _ (conds : Conditions) (net : Net) (client : Client) where
  open client use {
    State, patch_status, get_rollout, create, set_controller_reference, count_metric,
    on_secret_materialized,
  }

  -- `case ""`.
  unfoldable pub start_rotation :
      DynamicSecretPolicy → DynamicSecretPolicy → Text → State → Result Outcome × State
  start_rotation base policy revision =
      elim (not (is_empty policy.status.current_revision)
        && text_eq revision policy.status.current_revision) [
          | true ↦ return done
          | false ↦ do
            effect (count_metric rotations_total policy.namespace)
            patch_status (set_status policy (status_started conds revision policy.status)) base
            ignore (on_secret_materialized policy.name revision)
            return requeue
        ]

  -- `ReconcileArgoCDIgnoreDifferences`, whose error is logged, and the patch of the workload.
  unfoldable pub patch_target :
      Adapter → WorkloadKind → Workload → DynamicSecretPolicy → State → Result (Unit {0}) × State
  patch_target adapter kind w policy = do
    ignore (reconcile_argo_cd_ignore_differences client w kind)
    promote client adapter w policy (desired_secret_name policy)

  -- An Argo Rollout is patched at once.
  unfoldable pub provision_rollout :
      DynamicSecretPolicy
      → DynamicSecretPolicy
      → Adapter
      → Workload
      → State
      → Result Outcome × State
  unfolding patch_target
  provision_rollout base policy adapter w = do
    patch_target adapter (or_deployment policy.spec.workload_selector.kind) w policy
    patch_status (set_status policy (status_patched conds policy.status)) base
    return requeue

  -- The network policy of the canary; Cilium's sets its owner itself.
  unfoldable pub provision_network : DynamicSecretPolicy → State → Result (Unit {0}) × State
  provision_network policy = elim (uses_cilium policy) [
    | true ↦ creating (create (cilium_object (build_cilium_network_policy net policy)))
    | false ↦ do
      owned ← lift (
          set_controller_reference policy (network_policy_object (build_network_policy net policy)))
      creating (create owned)
  ]

  unfoldable pub provision_canary :
      DynamicSecretPolicy → DynamicSecretPolicy → Deployment → State → Result Outcome × State
  unfolding provision_network
  provision_canary base policy canary = do
    owned ← lift (set_controller_reference policy (deployment_object canary))
    creating (create owned)
    provision_network policy
    patch_status (set_status policy (status_provisioned conds policy.status)) base
    return requeue

  unfoldable pub provision_with :
      DynamicSecretPolicy
      → DynamicSecretPolicy
      → Adapter
      → Workload
      → State
      → Result Outcome × State
  unfolding provision_rollout provision_canary
  provision_with base policy adapter w =
      elim (build_canary adapter w policy (desired_secret_name policy)) [
        | none ↦ provision_rollout base policy adapter w
        | some canary ↦ provision_canary base policy canary
      ]

  -- `case ConditionTypeRevisionPrepared`.
  unfoldable pub provision :
      DynamicSecretPolicy → DynamicSecretPolicy → State → Result Outcome × State
  unfolding provision_with
  provision base policy = do
    adapter ← lift (new_adapter (or_deployment policy.spec.workload_selector.kind))
    w ← fetch client adapter (target_key policy)
    provision_with base policy adapter w

  -- `case ConditionTypeCanaryProvisioning`.
  unfoldable pub begin_validation :
      DynamicSecretPolicy → DynamicSecretPolicy → State → Result Outcome × State
  begin_validation base policy = do
    patch_status (set_status policy (status_validating conds policy.status)) base
    return requeue
