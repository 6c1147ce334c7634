-- ===== src/Controller/Rotation/Steps/Restart.antt =====
-- The state in which `Reconcile` (internal/controller/dynamicsecretpolicy_controller.go) finds a
-- rotation that it has just started.
use dynamic_secret_operator.Prelude.{
  Text, is_empty, false, none, some, List, is_some, if◌then◌else◌, ◌≡◌, refl, ap,
}
use dynamic_secret_operator.Api.{
  DynamicSecretPolicyStatus, Condition, ConditionType, revision_prepared, canary_provisioning,
  validating, rollout_progressing, promoting, rolled_back, circuit_breaker_tripped,
}
use dynamic_secret_operator.Client.{Conditions, type_eq, type_tag, type_name, type_eq_iff}
use dynamic_secret_operator.Controller.Machine.{
  determine_state, rollout_state, begin_rotation, with_condition,
}
use dynamic_secret_operator.Controller.Status.{prepared_condition, status_started}

module _ (conds : Conditions) where
  open conds use {find_condition, set_condition, remove_condition, find-set, find-remove}

  -- The conditions of a rotation that has just started.
  unfoldable pub restarted : List Condition → List Condition
  restarted cs = set_condition prepared_condition (
      remove_condition canary_provisioning (
        remove_condition validating (
          remove_condition promoting
            (remove_condition rolled_back (remove_condition circuit_breaker_tripped cs)))))

  -- A condition that the source removes is not found, and one that it neither removes nor sets is
  -- found as before.
  pub find_removed :
      (t : ConditionType) (cs : List Condition)
      → find_condition t (restarted cs) ≡ (
          if type_eq revision_prepared t
          then some prepared_condition
          else if type_eq canary_provisioning t
          then none
          else if type_eq validating t
          then none
          else if type_eq promoting t
          then none
          else if type_eq rolled_back t
          then none
          else if type_eq circuit_breaker_tripped t
          then none
          else find_condition t cs)
  unfolding restarted
  find_removed t cs = rw (
    find-set t prepared_condition,
    find-remove t canary_provisioning,
    find-remove t validating,
    find-remove t promoting,
    find-remove t rolled_back,
    find-remove t circuit_breaker_tripped,
  )

  rolled_back_removed :
      (cs : List Condition) → conds.is_condition_true rolled_back (restarted cs) ≡ false
  unfolding type_eq type_tag type_name
  rolled_back_removed cs = rw (
    conds.is_condition_true_lem rolled_back (restarted cs),
    find_removed rolled_back cs,
    (type_eq_iff rolled_back rolled_back).1 refl,
  )

  validating_removed : (cs : List Condition) → find_condition validating (restarted cs) ≡ none
  unfolding type_eq type_tag type_name
  validating_removed cs =
      rw (find_removed validating cs, (type_eq_iff validating validating).1 refl)

  canary_removed : (cs : List Condition) → find_condition canary_provisioning (restarted cs) ≡ none
  unfolding type_eq type_tag type_name
  canary_removed cs = rw (
    find_removed canary_provisioning cs,
    (type_eq_iff canary_provisioning canary_provisioning).1 refl,
  )

  prepared_found :
      (cs : List Condition)
      → find_condition revision_prepared (restarted cs) ≡ some prepared_condition
  prepared_found cs =
      rw (
        find_removed revision_prepared cs,
        (type_eq_iff revision_prepared revision_prepared).1 refl,
      )

  progressing_left :
      (cs : List Condition)
      → find_condition rollout_progressing (restarted cs) ≡ find_condition rollout_progressing cs
  unfolding type_eq type_tag type_name
  progressing_left cs = find_removed rollout_progressing cs

  rollout_state-restarted :
      (cs : List Condition)
      → rollout_state conds (restarted cs) ≡ (
          if is_some (find_condition rollout_progressing cs)
          then rollout_progressing
          else revision_prepared)
  unfolding rollout_state
  rollout_state-restarted cs = rw (
    rolled_back_removed cs,
    validating_removed cs,
    progressing_left cs,
    canary_removed cs,
    prepared_found cs,
  )

  -- A rotation that has just started, at a revision that is not empty, is in the state
  -- RevisionPrepared if the status before had no condition RolloutProgressing, and in the state
  -- RolloutProgressing if it had one, which the start does not remove.
  pub status_started_state :
      (revision : Text) (status : DynamicSecretPolicyStatus)
      → is_empty revision ≡ false
      → determine_state conds (status_started conds revision status)
        ≡ some (
            if is_some (find_condition rollout_progressing status.conditions)
            then rollout_progressing
            else revision_prepared)
  unfolding determine_state status_started begin_rotation with_condition restarted
  status_started_state revision status h =
      rw h (ap some (rollout_state-restarted status.conditions))
