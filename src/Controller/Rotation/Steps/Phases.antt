-- ===== src/Controller/Rotation/Steps/Phases.antt =====
-- The phases along the state machine of `Reconcile`
-- (internal/controller/dynamicsecretpolicy_controller.go).
use dynamic_secret_operator.Prelude.{
  is_empty, Bool, Bool-cases, true, false, ◌||◌, Option, none, some, List, is_some, if◌then◌else◌,
  ◌≡◌, refl, inl, inr, arith,
}
use dynamic_secret_operator.Api.{
  DynamicSecretPolicy, DynamicSecretPolicyStatus, Condition, ConditionType, revision_prepared,
  canary_provisioning, validating, rollout_progressing, rolled_back,
}
use dynamic_secret_operator.Client.{Conditions, type_eq, type_eq_iff, type_tag, type_name}
use dynamic_secret_operator.Controller.Machine.{
  determine_state, rollout_state, reset_breaker, begin_rotation, with_condition, without_condition,
  finish_rotation, count_failure,
}
use dynamic_secret_operator.Controller.Status.{
  tripped_condition, prepared_condition, provisioning_condition, progressing_condition,
  probes_running_condition, status_started, status_provisioned, status_patched, status_validating,
  status_completed, status_failed, status_tripped,
}
use dynamic_secret_operator.Controller.Rotation.Steps.{
  Step, started, restarted, provisioned, patched, began, completed, failed, tripped,
}
use dynamic_secret_operator.Controller.Rotation.Steps.RolledBack.{rolled_back_kept, ending_lem}

-- The conditions that mark the phases of a rotation.
data Phase : ConditionType → Type 0 where
  phase_validating : Phase validating
  phase_progressing : Phase rollout_progressing
  phase_canary : Phase canary_provisioning
  phase_prepared : Phase revision_prepared

-- The states that the `switch` has a case for.
pub data IsHandled : Option ConditionType → Type 0 where
  idle : IsHandled none
  prepared : IsHandled (some revision_prepared)
  provisioning : IsHandled (some canary_provisioning)
  rolling_out : IsHandled (some rollout_progressing)
  in_validation : IsHandled (some validating)
  was_rolled_back : IsHandled (some rolled_back)

module _ (conds : Conditions) where
  -- A phase of the state machine is marked by a condition.
  unfoldable pub has_phase : List Condition → Bool
  has_phase cs =
      conds.is_condition_true rolled_back cs
      || (is_some (conds.find_condition validating cs)
          || (is_some (conds.find_condition rollout_progressing cs)
              || (is_some (conds.find_condition canary_provisioning cs)
                  || is_some (conds.find_condition revision_prepared cs))))

  -- A status without a rotation, or with a rotation in a phase that is marked.
  unfoldable pub is_well_formed : DynamicSecretPolicyStatus → Bool
  unfolding has_phase
  is_well_formed st = is_empty st.desired_revision || has_phase st.conditions

  -- A condition that is set is found, and hides no other.
  find_self :
      (c : Condition) (cs : List Condition) (t : ConditionType)
      → type_eq c.type t ≡ true
      → is_some (conds.find_condition t (conds.set_condition c cs)) ≡ true
  find_self c cs t h = rw (conds.find-set t c cs, h)

  find_kept :
      (c : Condition) (cs : List Condition) (t : ConditionType)
      → is_some (conds.find_condition t cs) ≡ true
      → is_some (conds.find_condition t (conds.set_condition c cs)) ≡ true
  find_kept c cs t h = elim (Bool-cases (type_eq c.type t)) [
    | inl e ↦ rw (conds.find-set t c cs, e)
    | inr e ↦ rw (conds.find-set t c cs, e, h)
  ]

  -- A phase is still marked when a condition other than RolledBack is set.
  has_phase_kept :
      (c : Condition) (cs : List Condition)
      → type_eq c.type rolled_back ≡ false
      → has_phase cs ≡ true
      → has_phase (conds.set_condition c cs) ≡ true
  unfolding has_phase
  has_phase_kept c cs e h =
      let r = rolled_back_kept conds c cs e in
      let v = find_kept c cs validating in
      let p = find_kept c cs rollout_progressing in
      let q = find_kept c cs canary_provisioning in
      let o = find_kept c cs revision_prepared in ground arith

  type_eq_self : (t : ConditionType) → type_eq t t ≡ true
  type_eq_self t = (type_eq_iff t t).1 refl

  marks_phase :
      (c : Condition) (cs : List Condition) (t : ConditionType)
      → Phase t
      → type_eq c.type t ≡ true
      → has_phase (conds.set_condition c cs) ≡ true
  unfolding has_phase
  marks_phase c cs t phase_validating e = let f = find_self c cs validating e in ground arith
  marks_phase c cs t phase_progressing e =
      let f = find_self c cs rollout_progressing e in ground arith
  marks_phase c cs t phase_canary e = let f = find_self c cs canary_provisioning e in ground arith
  marks_phase c cs t phase_prepared e = let f = find_self c cs revision_prepared e in ground arith

  well_formed_set :
      (c : Condition) (st : DynamicSecretPolicyStatus)
      → type_eq c.type rolled_back ≡ false
      → is_well_formed st ≡ true
      → is_well_formed (with_condition conds c st) ≡ true
  unfolding is_well_formed with_condition
  well_formed_set c st e h = let k = has_phase_kept c st.conditions e in ground arith

  well_formed_marked :
      (c : Condition) (st : DynamicSecretPolicyStatus) (t : ConditionType)
      → Phase t
      → type_eq c.type t ≡ true
      → is_well_formed (with_condition conds c st) ≡ true
  unfolding is_well_formed with_condition
  well_formed_marked c st t p e = let k = marks_phase c st.conditions t p e in ground arith

  well_formed_if :
      (b : Bool) (c d : Condition) (st : DynamicSecretPolicyStatus)
      → type_eq c.type rolled_back ≡ false
      → type_eq d.type rolled_back ≡ false
      → is_well_formed st ≡ true
      → is_well_formed (with_condition conds (if b then c else d) st) ≡ true
  well_formed_if true c d st e f h = well_formed_set c st e h
  well_formed_if false c d st e f h = well_formed_set d st f h

  pub step_well_formed :
      (base : DynamicSecretPolicy) (next : DynamicSecretPolicyStatus)
      → Step conds base next
      → is_well_formed base.status ≡ true
      → is_well_formed next ≡ true
  unfolding is_well_formed status_started status_provisioned status_patched status_validating
      status_completed status_failed status_tripped with_condition without_condition finish_rotation
      count_failure type_eq type_tag type_name
  step_well_formed base next (started r s) h =
      well_formed_marked prepared_condition (begin_rotation conds r base.status) revision_prepared
        phase_prepared (type_eq_self revision_prepared)
  step_well_formed base next (restarted r d s) h =
      well_formed_marked prepared_condition
        (begin_rotation conds r (reset_breaker conds r base.status)) revision_prepared
        phase_prepared (type_eq_self revision_prepared)
  step_well_formed base next (provisioned s) h =
      well_formed_marked provisioning_condition
        (without_condition conds revision_prepared base.status) canary_provisioning phase_canary
        (type_eq_self canary_provisioning)
  step_well_formed base next (patched s) h =
      well_formed_marked progressing_condition
        (without_condition conds revision_prepared base.status) rollout_progressing
        phase_progressing (type_eq_self rollout_progressing)
  step_well_formed base next (began s) h =
      well_formed_marked probes_running_condition
        (without_condition conds canary_provisioning base.status) validating phase_validating
        (type_eq_self validating)
  step_well_formed base next (completed e s) h = refl
  step_well_formed base next (failed e s) h =
      well_formed_if _ tripped_condition _ (count_failure conds base.status) refl
        (ending_lem conds e) h
  step_well_formed base next (tripped t m) h = well_formed_set tripped_condition base.status refl h

  rollout_state-IsHandled :
      (cs : List Condition) → has_phase cs ≡ true → IsHandled (some (rollout_state conds cs))
  unfolding has_phase rollout_state
  rollout_state-IsHandled cs h = elim (Bool-cases (conds.is_condition_true rolled_back cs)) [
    | inl r ↦ rw r was_rolled_back
    | inr r ↦ elim (Bool-cases (is_some (conds.find_condition validating cs))) [
      | inl v ↦ rw (r, v) in_validation
      | inr v ↦ elim (Bool-cases (is_some (conds.find_condition rollout_progressing cs))) [
        | inl p ↦ rw (r, v, p) rolling_out
        | inr p ↦ elim (Bool-cases (is_some (conds.find_condition canary_provisioning cs))) [
          | inl q ↦ rw (r, v, p, q) provisioning
          | inr q ↦
              let o : is_some (conds.find_condition revision_prepared cs) ≡ true = ground arith in
              rw (r, v, p, q, o) prepared
        ]
      ]
    ]
  ]

  pub well_formed-IsHandled :
      (st : DynamicSecretPolicyStatus)
      → is_well_formed st ≡ true
      → IsHandled (determine_state conds st)
  unfolding is_well_formed determine_state
  well_formed-IsHandled st h = elim (Bool-cases (is_empty st.desired_revision)) [
    | inl e ↦ rw e idle
    | inr e ↦ rw e (rollout_state-IsHandled st.conditions (ground arith))
  ]
