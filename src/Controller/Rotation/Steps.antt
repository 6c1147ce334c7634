-- ===== src/Controller/Rotation/Steps.antt =====
-- The state machine of `Reconcile` in internal/controller/dynamicsecretpolicy_controller.go as a
-- relation: the statuses to which one round may patch the status that it read, each under the
-- guards that its handler stands behind.
pub mod Threshold
pub mod RolledBack
pub mod Phases
pub mod Handled
pub mod Restart
use dynamic_secret_operator.Prelude.{Text, Bool, true, false, Option, none, some, ◌≡◌, text_eq}
use dynamic_secret_operator.Api.{
  DynamicSecretPolicy, DynamicSecretPolicyStatus, Condition, ConditionType, revision_prepared,
  canary_provisioning, validating, rollout_progressing, circuit_breaker_tripped,
}
use dynamic_secret_operator.Client.{Conditions}
use dynamic_secret_operator.Controller.Machine.{
  threshold, determine_state, is_tripped, has_drifted, reset_breaker,
}
use dynamic_secret_operator.Controller.Status.{
  set_status, probe_failed_condition, degraded_condition, status_started, status_provisioned,
  status_patched, status_validating, status_completed, status_failed, status_tripped,
}

-- The two states that end a rotation, with the condition that a failure leaves there.
pub data Ending : ConditionType → Condition → Type 0 where
  of_probes : Ending validating probe_failed_condition
  of_rollout : Ending rollout_progressing degraded_condition

module _ (conds : Conditions) where
  -- The round is in the state `t`, and the breaker is not tripped.
  pub record InState (base : DynamicSecretPolicy) (t : Option ConditionType) : Type 0 where
    pub state : determine_state conds base.status ≡ t
    pub closed : is_tripped conds base ≡ false

  pub data Step (base : DynamicSecretPolicy) : DynamicSecretPolicyStatus → Type 0 where
    started :
        (revision : Text)
        → InState base none
        → Step base (status_started conds revision base.status)
    restarted :
        (revision : Text)
        → has_drifted conds base.status revision ≡ true
        → is_tripped conds (set_status base (reset_breaker conds revision base.status)) ≡ false
        → Step base (status_started conds revision (reset_breaker conds revision base.status))
    provisioned :
        InState base (some revision_prepared) → Step base (status_provisioned conds base.status)
    patched : InState base (some revision_prepared) → Step base (status_patched conds base.status)
    began :
        InState base (some canary_provisioning) → Step base (status_validating conds base.status)
    completed :
        {t : ConditionType} {c : Condition}
        → Ending t c
        → InState base (some t)
        → Step base (status_completed conds t base.status)
    failed :
        {t : ConditionType} {c : Condition}
        → Ending t c
        → InState base (some t)
        → Step base (status_failed conds (threshold base) c base.status)
    tripped :
        is_tripped conds base ≡ true
        → conds.is_condition_true circuit_breaker_tripped base.status.conditions ≡ false
        → Step base (status_tripped conds base.status)
