-- ===== src/Controller/Rotation/Progress/Phases.antt =====
-- The states of a rotation that goes on without a failure.
use dynamic_secret_operator.Prelude.{
  Text, is_empty, false, none, some, List, if◌then◌else◌, ◌≡◌, refl, ◌∙◌, text_eq,
}
use dynamic_secret_operator.Api.{
  DynamicSecretPolicy, DynamicSecretPolicyStatus, Condition, ConditionType, revision_prepared,
  canary_provisioning, validating, rollout_progressing, rolled_back, circuit_breaker_tripped,
}
use dynamic_secret_operator.Client.{Conditions, type_eq, type_tag, type_name}
use dynamic_secret_operator.Controller.Machine.{
  determine_state, begin_rotation, rollout_state, is_tripped, with_condition, without_condition,
}
use dynamic_secret_operator.Controller.Status.{
  provisioning_condition, probes_running_condition, status_provisioned, status_validating,
  status_started,
}
use dynamic_secret_operator.Controller.Machine.Breaker.{threshold_positive}
use dynamic_secret_operator.Controller.Rotation.Steps.Restart.{restarted, find_removed}

module _ (conds : Conditions) where
  open conds use {find_condition, set_condition, remove_condition, find-set, find-remove}

  -- No condition stands in the way of a rotation: it is not halted, and no rollout is left.
  pub record IsQuiet (st : DynamicSecretPolicyStatus) : Type 0 where
    pub not_rolled_back : find_condition rolled_back st.conditions ≡ none
    pub not_progressing : find_condition rollout_progressing st.conditions ≡ none
    pub not_tripped : find_condition circuit_breaker_tripped st.conditions ≡ none

  -- A condition is set behind the removal of another.
  find_swapped :
      (t u : ConditionType) (c : Condition) (cs : List Condition)
      → find_condition t (set_condition c (remove_condition u cs))
        ≡ (if type_eq c.type t then some c else if type_eq u t then none else find_condition t cs)
  find_swapped t u c cs = rw (find-set t c (remove_condition u cs), find-remove t u cs)

  kept :
      (t u : ConditionType) (c : Condition) (cs : List Condition)
      → type_eq c.type t ≡ false
      → type_eq u t ≡ false
      → find_condition t cs ≡ none
      → find_condition t (set_condition c (remove_condition u cs)) ≡ none
  kept t u c cs e h i = rw (find_swapped t u c cs, e, h) i

  pub status_provisioned-IsQuiet :
      (st : DynamicSecretPolicyStatus) → IsQuiet st → IsQuiet (status_provisioned conds st)
  unfolding status_provisioned with_condition without_condition type_eq type_tag
  status_provisioned-IsQuiet st q = record {
    not_rolled_back = kept rolled_back _ _ st.conditions refl refl q.not_rolled_back;
    not_progressing = kept rollout_progressing _ _ st.conditions refl refl q.not_progressing;
    not_tripped = kept circuit_breaker_tripped _ _ st.conditions refl refl q.not_tripped;
  }

  pub status_validating-IsQuiet :
      (st : DynamicSecretPolicyStatus) → IsQuiet st → IsQuiet (status_validating conds st)
  unfolding status_validating with_condition without_condition type_eq type_tag
  status_validating-IsQuiet st q = record {
    not_rolled_back = kept rolled_back _ _ st.conditions refl refl q.not_rolled_back;
    not_progressing = kept rollout_progressing _ _ st.conditions refl refl q.not_progressing;
    not_tripped = kept circuit_breaker_tripped _ _ st.conditions refl refl q.not_tripped;
  }

  quiet_state :
      (st : DynamicSecretPolicyStatus)
      → IsQuiet st
      → conds.is_condition_true rolled_back st.conditions ≡ false
  quiet_state st q =
      rw (conds.is_condition_true_lem rolled_back st.conditions, q.not_rolled_back) refl

  pub quiet_closed :
      (p : DynamicSecretPolicy)
      → IsQuiet p.status
      → p.status.consecutive_failures ≡ 0
      → is_tripped conds p ≡ false
  unfolding is_tripped
  quiet_closed p q e =
      rw
        (
          e,
          threshold_positive p,
          conds.is_condition_true_lem circuit_breaker_tripped p.status.conditions,
          q.not_tripped,
        )
        refl

  pub provisioned_state :
      (st : DynamicSecretPolicyStatus)
      → IsQuiet st
      → find_condition validating st.conditions ≡ none
      → is_empty st.desired_revision ≡ false
      → determine_state conds (status_provisioned conds st) ≡ some canary_provisioning
  unfolding determine_state rollout_state status_provisioned with_condition without_condition
      type_eq type_tag type_name text_eq
  provisioned_state st q v d =
      let quiet = status_provisioned-IsQuiet st q in
      rw
        (
          d,
          quiet_state (status_provisioned conds st) quiet,
          kept validating revision_prepared provisioning_condition st.conditions refl refl v,
          quiet.not_progressing,
          find_swapped canary_provisioning revision_prepared provisioning_condition st.conditions,
        )
        refl

  pub validating_state :
      (st : DynamicSecretPolicyStatus)
      → IsQuiet st
      → is_empty st.desired_revision ≡ false
      → determine_state conds (status_validating conds st) ≡ some validating
  unfolding determine_state rollout_state status_validating with_condition without_condition type_eq
      type_tag type_name text_eq
  validating_state st q d =
      let quiet = status_validating-IsQuiet st q in
      rw
        (
          d,
          quiet_state (status_validating conds st) quiet,
          find_swapped validating canary_provisioning probes_running_condition st.conditions,
        )
        refl

  pub started-IsQuiet :
      (revision : Text) (st : DynamicSecretPolicyStatus)
      → find_condition rollout_progressing st.conditions ≡ none
      → IsQuiet (status_started conds revision st)
  unfolding status_started begin_rotation with_condition restarted type_eq type_tag type_name
      text_eq
  started-IsQuiet revision st h = record {
    not_rolled_back = find_removed conds rolled_back st.conditions;
    not_progressing = find_removed conds rollout_progressing st.conditions ∙ h;
    not_tripped = find_removed conds circuit_breaker_tripped st.conditions;
  }

  pub started_validating :
      (revision : Text) (st : DynamicSecretPolicyStatus)
      → find_condition validating (status_started conds revision st).conditions ≡ none
  unfolding status_started begin_rotation with_condition restarted type_eq type_tag type_name
      text_eq
  started_validating revision st = find_removed conds validating st.conditions
