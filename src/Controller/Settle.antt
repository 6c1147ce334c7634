-- ===== src/Controller/Settle.antt =====
-- The cases RolloutProgressing, Validating and RolledBack of the `switch` in `Reconcile`
-- (internal/controller/dynamicsecretpolicy_controller.go).
use dynamic_secret_operator.Prelude.{codes, text_eq, true, false, leb, if◌then◌else◌}
use dynamic_secret_operator.Api.{DynamicSecretPolicy, Condition, validating, rollout_progressing}
use dynamic_secret_operator.Workload.Adapter.{new_adapter, fetch}
use dynamic_secret_operator.Canary.Endpoint.{Net}
use dynamic_secret_operator.Canary.Cleanup.{cleanup_canary_resources}
use dynamic_secret_operator.Client.{
  Client, Conditions, Result, ok, err, Error, failed, RolloutPhase, healthy, degraded, Outcome,
  done, requeue, requeue_after, rotations_failed, circuit_breakers_tripped, ◌>>=◌, ◌>>◌, return,
  fail, lift, attempt, ignore, effect,
}
use dynamic_secret_operator.Controller.Machine.{threshold, count_failure}
use dynamic_secret_operator.Controller.Validation.{reconcile_validation_probes}
use dynamic_secret_operator.Controller.Status.{
  set_status, probe_failed_condition, degraded_condition, status_completed, status_failed,
}
use dynamic_secret_operator.Controller.Provision.{or_deployment, patch_target, target_key}
use dynamic_secret_operator.Controller.Gc.{gc_old_secret_revisions}

module _ (conds : Conditions) (net : Net) (client : Client) where
  open client use {
    State, patch_status, get_rollout, create, set_controller_reference, count_metric,
    on_secret_materialized,
  }

  -- A failed round: the status is patched, with its error dropped.
  unfoldable pub count_failed :
      DynamicSecretPolicy → DynamicSecretPolicy → Condition → State → Result (Unit {0}) × State
  count_failed base policy c = do
    effect (count_metric rotations_failed policy.namespace)
    effect (λ s.
        if leb (threshold policy) (count_failure conds policy.status).consecutive_failures
        then count_metric circuit_breakers_tripped policy.namespace s
        else s)
    ignore (
        patch_status (set_status policy (status_failed conds (threshold policy) c policy.status))
          base)

  -- The phases of a Rollout that has processed the patch.
  unfoldable pub settle_rollout :
      DynamicSecretPolicy → DynamicSecretPolicy → RolloutPhase → State → Result Outcome × State
  unfolding count_failed
  settle_rollout base policy healthy = do
    gc_old_secret_revisions client policy
    patch_status (set_status policy (status_completed conds rollout_progressing policy.status)) base
    return requeue
  settle_rollout base policy degraded = do
    count_failed base policy degraded_condition
    lift (
        if leb (threshold policy) (count_failure conds policy.status).consecutive_failures
        then ok done
        else err (failed (codes "argo rollout degraded after secret revision patch")))
  settle_rollout base policy phase = return (requeue_after 5)

  -- `case ConditionTypeRolloutProgressing`.
  unfoldable pub await_rollout :
      DynamicSecretPolicy → DynamicSecretPolicy → State → Result Outcome × State
  unfolding settle_rollout
  await_rollout base policy = do
    r ← get_rollout (target_key policy)
    elim (text_eq r.observed_generation r.generation) [
      | true ↦ settle_rollout base policy r.phase
      | false ↦ return (requeue_after 3)
    ]

  -- `promoteTargetWorkload`.
  unfoldable pub promote_target_workload : DynamicSecretPolicy → State → Result (Unit {0}) × State
  unfolding patch_target
  promote_target_workload policy = do
    adapter ← lift (new_adapter (or_deployment policy.spec.workload_selector.kind))
    w ← fetch client adapter (target_key policy)
    patch_target conds net client adapter (or_deployment policy.spec.workload_selector.kind) w
        policy
    gc_old_secret_revisions client policy

  -- The statements behind the probes' success.
  unfoldable pub complete_promotion :
      DynamicSecretPolicy → DynamicSecretPolicy → State → Result Outcome × State
  unfolding promote_target_workload
  complete_promotion base policy = do
    promote_target_workload policy
    ignore (cleanup_canary_resources client policy)
    patch_status (set_status policy (status_completed conds validating policy.status)) base
    return requeue

  -- The statements behind the probes' failure.
  unfoldable pub fail_validation :
      DynamicSecretPolicy → DynamicSecretPolicy → Error → State → Result Outcome × State
  unfolding count_failed
  fail_validation base policy e = do
    count_failed base policy probe_failed_condition
    elim (leb (threshold policy) (count_failure conds policy.status).consecutive_failures) [
      | true ↦ do ignore (cleanup_canary_resources client policy); return done
      | false ↦ fail e
    ]

  unfoldable pub settle_validation :
      DynamicSecretPolicy → DynamicSecretPolicy → Result Outcome → State → Result Outcome × State
  unfolding complete_promotion fail_validation
  settle_validation base policy (err e) = fail_validation base policy e
  settle_validation base policy (ok done) = complete_promotion base policy
  settle_validation base policy (ok outcome) = return outcome

  -- `case ConditionTypeValidating`.
  unfoldable pub validate :
      DynamicSecretPolicy → DynamicSecretPolicy → State → Result Outcome × State
  unfolding settle_validation
  validate base policy = do
    result ← attempt (reconcile_validation_probes net client policy)
    settle_validation base policy result

  -- `case ConditionTypeRolledBack`; the desired revision is cleared in memory only.
  unfoldable pub roll_back : DynamicSecretPolicy → State → Result Outcome × State
  roll_back policy = do ignore (cleanup_canary_resources client policy); return done
