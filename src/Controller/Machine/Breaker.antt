-- ===== src/Controller/Machine/Breaker.antt =====
-- The circuit breaker of `Reconcile` (internal/controller/dynamicsecretpolicy_controller.go) after a
-- new revision has reset it.
use dynamic_secret_operator.Prelude.{
  Text, false, Option, none, some, List, leb, ltb, if◌then◌else◌, ◌≡◌, refl, arith,
}
use dynamic_secret_operator.Api.{
  DynamicSecretPolicy, Condition, RollbackConfig, circuit_breaker_tripped,
}
use dynamic_secret_operator.Client.{Conditions, type_eq_iff}
use dynamic_secret_operator.Controller.Machine.{threshold, is_tripped, reset_breaker}

positive_threshold :
    (r : Option RollbackConfig)
    → leb
        (elim r [
          | none ↦ 3
          | some r ↦ if ltb 0 r.circuit_breaker_threshold then r.circuit_breaker_threshold else 3
        ])
        0
      ≡ false
positive_threshold none = ground arith
positive_threshold (some r) = ground arith

pub threshold_positive : (policy : DynamicSecretPolicy) → leb (threshold policy) 0 ≡ false
unfolding threshold
threshold_positive policy = positive_threshold policy.spec.rollback_config

module _ (conds : Conditions) where
  breaker_removed :
      (cs : List Condition)
      → conds.is_condition_true circuit_breaker_tripped
          (conds.remove_condition circuit_breaker_tripped cs)
        ≡ false
  breaker_removed cs = rw (
    conds.is_condition_true_lem circuit_breaker_tripped
        (conds.remove_condition circuit_breaker_tripped cs),
    conds.find-remove circuit_breaker_tripped circuit_breaker_tripped cs,
    (type_eq_iff circuit_breaker_tripped circuit_breaker_tripped).1 refl,
  )

  -- A status that a new revision has reset does not trip the breaker, whatever it was before.
  pub reset_breaker_closes :
      (policy : DynamicSecretPolicy) (revision : Text)
      → is_tripped conds (record policy { status = reset_breaker conds revision policy.status })
        ≡ false
  unfolding is_tripped reset_breaker
  reset_breaker_closes policy revision =
      rw (threshold_positive policy, breaker_removed policy.status.conditions)
