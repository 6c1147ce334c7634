-- ===== src/Controller/Machine.antt =====
-- The decisions of `Reconcile` that need no call: the threshold, the state, the breaker, the drift.
-- The condition helpers of apimachinery are the parameter `conds`.
pub mod Breaker
use dynamic_secret_operator.Prelude.{
  ℕ, ◌+◌, Text, codes, text_eq, is_empty, Bool, true, false, not, ◌&&◌, ◌||◌, Option, none, some,
  List, [], ◌∷◌, ltb, leb, is_some, if◌then◌else◌,
}
use dynamic_secret_operator.Api.{
  DynamicSecretPolicy, DynamicSecretPolicyStatus, RollbackConfig, Condition, ConditionType,
  revision_prepared, canary_provisioning, validating, rollout_progressing, promoting, rolled_back,
  circuit_breaker_tripped, ConditionStatus, true_status, false_status, unknown_status,
}
use dynamic_secret_operator.Client.{Conditions}

-- The threshold of the circuit breaker: 3, unless a positive one is configured.
unfoldable pub threshold : DynamicSecretPolicy → ℕ
threshold policy = elim policy.spec.rollback_config [
  | none ↦ 3
  | some r ↦ if ltb 0 r.circuit_breaker_threshold then r.circuit_breaker_threshold else 3
]

-- The last loop of `determineState`: the first condition that is true.
unfoldable pub first_true : List Condition → Option ConditionType
first_true [] = none
first_true (c ∷ cs) = elim c.status [
  | true_status ↦ some c.type
  | false_status ↦ first_true cs
  | unknown_status ↦ first_true cs
]

-- `return ConditionTypeRevisionPrepared` behind that loop.
abbrev pub or_prepared : Option ConditionType → ConditionType
or_prepared none = revision_prepared
or_prepared (some t) = t

-- A condition of one type and status.
abbrev pub condition : ConditionType → ConditionStatus → Text → Condition
condition t s r = record { type = t; status = s; reason = r }

module _ (conds : Conditions) where
  open conds use {set_condition, remove_condition, find_condition, is_condition_true}

  -- The state that an active rollout is in, by its conditions.
  unfoldable pub rollout_state : List Condition → ConditionType
  rollout_state cs =
      if is_condition_true rolled_back cs
      then rolled_back
      else if is_some (find_condition validating cs)
      then validating
      else if is_some (find_condition rollout_progressing cs)
      then rollout_progressing
      else if is_some (find_condition canary_provisioning cs)
      then canary_provisioning
      else if is_some (find_condition revision_prepared cs)
      then revision_prepared
      else or_prepared (first_true cs)

  -- `determineState`; `none` is the empty string.
  unfoldable pub determine_state : DynamicSecretPolicyStatus → Option ConditionType
  unfolding rollout_state
  determine_state status =
      if is_empty status.desired_revision then none else some (rollout_state status.conditions)

  -- The breaker's test, which stands twice in `Reconcile`.
  unfoldable pub is_tripped : DynamicSecretPolicy → Bool
  unfolding threshold
  is_tripped policy =
      leb (threshold policy) policy.status.consecutive_failures
      || is_condition_true circuit_breaker_tripped policy.status.conditions

  -- Whether the upstream secret is fetched in this round.
  unfoldable pub needs_materialization : DynamicSecretPolicy → Bool
  unfolding determine_state is_tripped
  needs_materialization policy = not (is_some (determine_state policy.status)) || is_tripped policy

  -- The fetched revision is neither the current nor the desired one.
  unfoldable pub has_drifted : DynamicSecretPolicyStatus → Text → Bool
  has_drifted status revision =
      not (is_empty revision)
      && (not (text_eq status.current_revision revision)
          && not (text_eq status.desired_revision revision))

  unfoldable pub reset_breaker : Text → DynamicSecretPolicyStatus → DynamicSecretPolicyStatus
  reset_breaker revision status = record status {
    consecutive_failures = 0;
    desired_revision = revision;
    conditions = remove_condition circuit_breaker_tripped status.conditions;
  }

  -- The status with which a rotation begins, its first condition not yet set: the five conditions
  -- that the source removes, which leaves RolloutProgressing.
  unfoldable pub begin_rotation : Text → DynamicSecretPolicyStatus → DynamicSecretPolicyStatus
  begin_rotation revision status = record status {
    consecutive_failures = 0;
    desired_revision = revision;
    conditions = remove_condition canary_provisioning (
        remove_condition validating (
          remove_condition promoting (
            remove_condition rolled_back
              (remove_condition circuit_breaker_tripped status.conditions))));
  }

  -- `meta.SetStatusCondition` in `updateStatus`.
  unfoldable pub with_condition : Condition → DynamicSecretPolicyStatus → DynamicSecretPolicyStatus
  with_condition c status = record status { conditions = set_condition c status.conditions }

  unfoldable pub without_condition :
      ConditionType → DynamicSecretPolicyStatus → DynamicSecretPolicyStatus
  without_condition t status = record status { conditions = remove_condition t status.conditions }

  -- The desired revision becomes the current one.
  unfoldable pub finish_rotation : DynamicSecretPolicyStatus → DynamicSecretPolicyStatus
  finish_rotation status = record status {
    current_revision = status.desired_revision;
    desired_revision = [];
    consecutive_failures = 0;
  }

  -- `ConsecutiveFailures++`. It runs below the threshold only, an int32, so it does not wrap.
  unfoldable pub count_failure : DynamicSecretPolicyStatus → DynamicSecretPolicyStatus
  count_failure status = record status { consecutive_failures = status.consecutive_failures + 1 }
