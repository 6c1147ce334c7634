-- ===== src/Controller/Rotation/Steps/Threshold.antt =====
-- The count of failures along the state machine of `Reconcile`
-- (internal/controller/dynamicsecretpolicy_controller.go).
use dynamic_secret_operator.Prelude.{ℕ, ◌+◌, true, false, leb, ◌≡◌, arith}
use dynamic_secret_operator.Api.{DynamicSecretPolicy, DynamicSecretPolicyStatus}
use dynamic_secret_operator.Client.{Conditions}
use dynamic_secret_operator.Controller.Machine.{
  threshold, is_tripped, begin_rotation, with_condition, without_condition, finish_rotation,
  count_failure,
}
use dynamic_secret_operator.Controller.Status.{
  status_started, status_provisioned, status_patched, status_validating, status_completed,
  status_failed, status_tripped,
}
use dynamic_secret_operator.Controller.Rotation.Steps.{
  Step, started, restarted, provisioned, patched, began, completed, failed, tripped,
}

module _ (conds : Conditions) where
  -- The failures stay within the threshold.
  below :
      (base : DynamicSecretPolicy)
      → is_tripped conds base ≡ false
      → leb (base.status.consecutive_failures + 1) (threshold base) ≡ true
  unfolding is_tripped
  below base h = ground arith

  none_within : (limit : ℕ) → leb 0 limit ≡ true
  none_within limit = ground arith

  -- The count of consecutive failures never passes the threshold: a step from a status within it
  -- leads to one within it.
  pub step_within_threshold :
      (base : DynamicSecretPolicy) (next : DynamicSecretPolicyStatus)
      → Step conds base next
      → leb base.status.consecutive_failures (threshold base) ≡ true
      → leb next.consecutive_failures (threshold base) ≡ true
  unfolding status_started status_provisioned status_patched status_validating status_completed
      status_failed status_tripped begin_rotation with_condition without_condition finish_rotation
      count_failure
  step_within_threshold base next (started r s) h = none_within (threshold base)
  step_within_threshold base next (restarted r d s) h = none_within (threshold base)
  step_within_threshold base next (provisioned s) h = h
  step_within_threshold base next (patched s) h = h
  step_within_threshold base next (began s) h = h
  step_within_threshold base next (completed e s) h = none_within (threshold base)
  step_within_threshold base next (failed e s) h = below base s.closed
  step_within_threshold base next (tripped t m) h = h
