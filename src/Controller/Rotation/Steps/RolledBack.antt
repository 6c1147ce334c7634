-- ===== src/Controller/Rotation/Steps/RolledBack.antt =====
-- The condition RolledBack along the state machine of `Reconcile`
-- (internal/controller/dynamicsecretpolicy_controller.go).
use dynamic_secret_operator.Prelude.{
  Bool, Bool-cases, true, false, List, if◌then◌else◌, ◌≡◌, refl, inl, inr, ◌∙◌, sym,
}
use dynamic_secret_operator.Api.{
  DynamicSecretPolicy, DynamicSecretPolicyStatus, Condition, ConditionType, revision_prepared,
  canary_provisioning, validating, promoting, rolled_back, circuit_breaker_tripped,
}
use dynamic_secret_operator.Client.{Conditions, type_eq, type_tag, type_name}
use dynamic_secret_operator.Controller.Machine.{
  reset_breaker, begin_rotation, with_condition, without_condition, finish_rotation, count_failure,
}
use dynamic_secret_operator.Controller.Status.{
  tripped_condition, prepared_condition, provisioning_condition, progressing_condition,
  probes_running_condition, status_started, status_provisioned, status_patched, status_validating,
  status_completed, status_failed, status_tripped, completed_condition,
}
use dynamic_secret_operator.Controller.Rotation.Steps.{
  Ending, of_probes, of_rollout, Step, started, restarted, provisioned, patched, began, completed,
  failed, tripped,
}

module _ (conds : Conditions) where
  pub rolled_back_kept :
      (c : Condition) (cs : List Condition)
      → type_eq c.type rolled_back ≡ false
      → conds.is_condition_true rolled_back (conds.set_condition c cs)
        ≡ conds.is_condition_true rolled_back cs
  rolled_back_kept c cs e = rw (
    conds.is_condition_true_lem rolled_back (conds.set_condition c cs),
    conds.find-set rolled_back c cs,
    e,
    conds.is_condition_true_lem rolled_back cs,
  )

  pub ending_lem :
      {t : ConditionType} {c : Condition} → Ending t c → type_eq c.type rolled_back ≡ false
  unfolding type_eq type_tag type_name
  ending_lem of_probes = refl
  ending_lem of_rollout = refl

  rb_set :
      (c : Condition) (cs : List Condition)
      → type_eq c.type rolled_back ≡ false
      → conds.is_condition_true rolled_back cs ≡ false
      → conds.is_condition_true rolled_back (conds.set_condition c cs) ≡ false
  rb_set c cs e h = rolled_back_kept c cs e ∙ h

  rb_remove :
      (t : ConditionType) (cs : List Condition)
      → conds.is_condition_true rolled_back cs ≡ false
      → conds.is_condition_true rolled_back (conds.remove_condition t cs) ≡ false
  rb_remove t cs h =
      let before = sym (conds.is_condition_true_lem rolled_back cs) ∙ h in
      elim (Bool-cases (type_eq t rolled_back)) [
        | inl e ↦ rw (
          conds.is_condition_true_lem rolled_back (conds.remove_condition t cs),
          conds.find-remove rolled_back t cs,
          e,
        )
        | inr e ↦ rw (
          conds.is_condition_true_lem rolled_back (conds.remove_condition t cs),
          conds.find-remove rolled_back t cs,
          e,
          before,
        )
      ]

  rb_begin :
      (cs : List Condition)
      → conds.is_condition_true rolled_back cs ≡ false
      → conds.is_condition_true rolled_back (
          conds.remove_condition canary_provisioning (
            conds.remove_condition validating (
              conds.remove_condition promoting (
                conds.remove_condition rolled_back
                  (conds.remove_condition circuit_breaker_tripped cs)))))
        ≡ false
  rb_begin cs h = rb_remove canary_provisioning _ (
      rb_remove validating _
        (rb_remove promoting _ (rb_remove rolled_back _ (rb_remove circuit_breaker_tripped cs h))))

  rb_if :
      (b : Bool) (c : Condition) (cs : List Condition)
      → type_eq c.type rolled_back ≡ false
      → conds.is_condition_true rolled_back cs ≡ false
      → conds.is_condition_true rolled_back
          (conds.set_condition (if b then tripped_condition else c) cs)
        ≡ false
  unfolding type_eq type_tag
  rb_if true c cs e h = rb_set tripped_condition cs refl h
  rb_if false c cs e h = rb_set c cs e h

  -- No step sets the condition RolledBack: where it does not hold before the step, it does not hold
  -- after it either.
  pub rolled_back_unreachable :
      (base : DynamicSecretPolicy) (next : DynamicSecretPolicyStatus)
      → Step conds base next
      → conds.is_condition_true rolled_back base.status.conditions ≡ false
      → conds.is_condition_true rolled_back next.conditions ≡ false
  unfolding status_started status_provisioned status_patched status_validating status_completed
      status_failed status_tripped begin_rotation reset_breaker with_condition without_condition
      finish_rotation count_failure type_eq type_tag type_name
  rolled_back_unreachable base next (started r s) h =
      rb_set prepared_condition _ refl (rb_begin base.status.conditions h)
  rolled_back_unreachable base next (restarted r d s) h = rb_set prepared_condition _ refl (
      rb_begin (conds.remove_condition circuit_breaker_tripped base.status.conditions)
        (rb_remove circuit_breaker_tripped _ h))
  rolled_back_unreachable base next (provisioned s) h =
      rb_set provisioning_condition _ refl (rb_remove revision_prepared _ h)
  rolled_back_unreachable base next (patched s) h =
      rb_set progressing_condition _ refl (rb_remove revision_prepared _ h)
  rolled_back_unreachable base next (began s) h =
      rb_set probes_running_condition _ refl (rb_remove canary_provisioning _ h)
  rolled_back_unreachable base next (completed {t} e s) h =
      rb_set completed_condition _ refl (rb_remove t _ h)
  rolled_back_unreachable base next (failed {t} {c} e s) h = rb_if _ c _ (ending_lem e) h
  rolled_back_unreachable base next (tripped t m) h = rb_set tripped_condition _ refl h
