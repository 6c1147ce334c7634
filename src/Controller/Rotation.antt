-- ===== src/Controller/Rotation.antt =====
-- `Reconcile` of internal/controller/dynamicsecretpolicy_controller.go: the `switch`, and the rounds
-- around it.
pub mod Keeps
pub mod ProbesKeep
pub mod Steps
pub mod Handlers
pub mod Refinement
pub mod Promotion
pub mod Progress
use dynamic_secret_operator.Prelude.{
  ℕ, Text, codes, text_eq, is_empty, Bool, true, false, not, ◌&&◌, ◌||◌, Option, none, some, List,
  [], ◌∷◌, leb, if◌then◌else◌,
}
use dynamic_secret_operator.Api.{
  DynamicSecretPolicy, DynamicSecretPolicyStatus, WorkloadKind, deployment, stateful_set,
  daemon_set, rollout, unset_kind, other_kind, NetworkPolicySpec, NetworkPolicyProvider, standard,
  cilium, other_provider, Condition, ConditionType, revision_prepared, canary_provisioning,
  validating, rollout_progressing, promoting, rolled_back, circuit_breaker_tripped, other_condition,
  true_status, false_status,
}
use dynamic_secret_operator.Workload.Adapter.{Adapter, new_adapter, build_canary, fetch, promote}
use dynamic_secret_operator.Canary.Deployment.{Deployment}
use dynamic_secret_operator.Canary.Endpoint.{Net}
use dynamic_secret_operator.Canary.NetworkPolicy.{build_network_policy, build_cilium_network_policy}
use dynamic_secret_operator.Canary.Cleanup.{cleanup_canary_resources}
use dynamic_secret_operator.Integration.ArgoCd.{reconcile_argo_cd_ignore_differences}
use dynamic_secret_operator.Client.{
  Client, Conditions, Key, Result, ok, err, Error, not_found, failed, Workload, Rollout,
  RolloutPhase, healthy, degraded, progressing, paused, other_phase, deployment_object,
  network_policy_object, cilium_object, Outcome, done, requeue, requeue_after, rotations_total,
  rotations_failed, circuit_breakers_tripped, ◌>>=◌, ◌>>◌, return, fail, lift, attempt, ignore,
  effect, creating,
}
use dynamic_secret_operator.Source.Provider.{Registry}
use dynamic_secret_operator.Controller.Machine.{
  threshold, condition, determine_state, is_tripped, needs_materialization, has_drifted,
  reset_breaker, begin_rotation, with_condition, without_condition, finish_rotation, count_failure,
}
use dynamic_secret_operator.Controller.Materialize.{materialize_secret_revision}
use dynamic_secret_operator.Controller.Validation.{desired_secret_name, reconcile_validation_probes}
use dynamic_secret_operator.Controller.Status.{
  set_status, tripped_condition, prepared_condition, completed_condition, progressing_condition,
  provisioning_condition, probes_running_condition, probe_failed_condition, degraded_condition,
  status_started, status_provisioned, status_patched, status_validating, status_completed,
  status_failed, status_tripped,
}
use dynamic_secret_operator.Controller.Provision.{
  or_deployment, is_cilium, uses_cilium, start_rotation, patch_target, provision_rollout,
  provision_network, provision_canary, provision_with, target_key, provision, begin_validation,
}
use dynamic_secret_operator.Controller.Settle.{
  count_failed, settle_rollout, await_rollout, promote_target_workload, complete_promotion,
  fail_validation, settle_validation, validate, roll_back,
}

module _ (conds : Conditions) (net : Net) (client : Client) where
  open client use {
    State, patch_status, get_rollout, create, set_controller_reference, count_metric,
    on_secret_materialized,
  }

  -- The `switch`.
  unfoldable pub dispatch :
      Option ConditionType
      → DynamicSecretPolicy
      → DynamicSecretPolicy
      → Text
      → State
      → Result Outcome × State
  unfolding start_rotation provision begin_validation await_rollout validate roll_back
  dispatch none base policy revision = start_rotation conds net client base policy revision
  dispatch (some revision_prepared) base policy revision = provision conds net client base policy
  dispatch (some canary_provisioning) base policy revision =
      begin_validation conds net client base policy
  dispatch (some rollout_progressing) base policy revision =
      await_rollout conds net client base policy
  dispatch (some validating) base policy revision = validate conds net client base policy
  dispatch (some rolled_back) base policy revision = roll_back conds net client policy
  dispatch (some state) base policy revision = return requeue

  -- The breaker halts the loop; the first time it marks the status and cleans up.
  unfoldable pub halt : DynamicSecretPolicy → DynamicSecretPolicy → State → Result Outcome × State
  halt base policy = do
    effect (count_metric circuit_breakers_tripped policy.namespace)
    elim (conds.is_condition_true circuit_breaker_tripped policy.status.conditions) [
      | true ↦ return done
      | false ↦ do
        ignore (patch_status (set_status policy (status_tripped conds policy.status)) base)
        ignore (cleanup_canary_resources client policy)
        return done
    ]

  unfoldable pub decide :
      Option ConditionType
      → DynamicSecretPolicy
      → DynamicSecretPolicy
      → Text
      → State
      → Result Outcome × State
  unfolding dispatch halt
  decide state base policy revision = elim (is_tripped conds policy) [
    | true ↦ halt base policy
    | false ↦ dispatch state base policy revision
  ]

  -- A new upstream revision resets the breaker and restarts the state machine.
  unfoldable pub decide_drift : DynamicSecretPolicy → Text → State → Result Outcome × State
  unfolding decide
  decide_drift policy revision = elim (has_drifted conds policy.status revision) [
    | true ↦
        decide none policy (set_status policy (reset_breaker conds revision policy.status)) revision
    | false ↦ decide (determine_state conds policy.status) policy policy revision
  ]

  unfoldable pub evaluate : Registry → DynamicSecretPolicy → State → Result Outcome × State
  unfolding decide_drift decide
  evaluate registry policy = elim (needs_materialization conds policy) [
    | true ↦ do
      revision ← materialize_secret_revision client registry policy
      decide_drift policy revision
    | false ↦ decide (determine_state conds policy.status) policy policy []
  ]

  -- `client.IgnoreNotFound(err)` of the first read.
  unfoldable pub reconcile_found :
      Registry → Result DynamicSecretPolicy → State → Result Outcome × State
  unfolding evaluate
  reconcile_found registry (ok policy) = evaluate registry policy
  reconcile_found registry (err not_found) = return done
  reconcile_found registry (err e) = fail e

  unfoldable pub reconcile : Registry → Key → State → Result Outcome × State
  unfolding reconcile_found
  reconcile registry key = do
    found ← attempt (client.get_policy key)
    reconcile_found registry found
