-- ===== src/Controller/Rotation/Steps/Handled.antt =====
-- The cases of the `switch` in `Reconcile`
-- (internal/controller/dynamicsecretpolicy_controller.go).
use dynamic_secret_operator.Prelude.{Text, Option, none, some, true, ◌≡◌}
use dynamic_secret_operator.Api.{
  DynamicSecretPolicy, DynamicSecretPolicyStatus, ConditionType, revision_prepared,
  canary_provisioning, validating, rollout_progressing, rolled_back,
}
use dynamic_secret_operator.Canary.Endpoint.{Net}
use dynamic_secret_operator.Client.{Client, Conditions, Outcome, Result}
use dynamic_secret_operator.Controller.Machine.{determine_state}
use dynamic_secret_operator.Controller.Provision.{start_rotation, provision, begin_validation}
use dynamic_secret_operator.Controller.Settle.{await_rollout, validate, roll_back}
use dynamic_secret_operator.Controller.Rotation.{dispatch}
use dynamic_secret_operator.Controller.Rotation.Steps.{Step}
use dynamic_secret_operator.Controller.Rotation.Steps.Phases.{
  IsHandled, idle, prepared, provisioning, rolling_out, in_validation, was_rolled_back,
  is_well_formed, step_well_formed, well_formed-IsHandled,
}

module _ (conds : Conditions) (net : Net) (client : Client) (base policy : DynamicSecretPolicy)
    (revision : Text) where
  -- The handler of a state, for each state that has one.
  pub data Handles
      : Option ConditionType → (client.State → Result Outcome × client.State) → Type 0 where
    starts : Handles none (start_rotation conds net client base policy revision)
    provisions : Handles (some revision_prepared) (provision conds net client base policy)
    begins : Handles (some canary_provisioning) (begin_validation conds net client base policy)
    awaits : Handles (some rollout_progressing) (await_rollout conds net client base policy)
    validates : Handles (some validating) (validate conds net client base policy)
    rolls_back : Handles (some rolled_back) (roll_back conds net client policy)

  dispatch-Handles :
      (t : Option ConditionType)
      → IsHandled t
      → Handles t (dispatch conds net client t base policy revision)
  unfolding dispatch
  dispatch-Handles t idle = starts
  dispatch-Handles t prepared = provisions
  dispatch-Handles t provisioning = begins
  dispatch-Handles t rolling_out = awaits
  dispatch-Handles t in_validation = validates
  dispatch-Handles t was_rolled_back = rolls_back

  -- A status is well-formed if it has no rotation, or one in a phase that a condition marks. For
  -- every well-formed status the `switch` runs the handler of the state that `determineState` reads
  -- from it, never its default case; and every step from a well-formed status leads to a well-formed
  -- one again.
  pub step_is_handled :
      (st : DynamicSecretPolicyStatus) (from : DynamicSecretPolicy)
      (next : DynamicSecretPolicyStatus)
      → is_well_formed conds st ≡ true
      → is_well_formed conds from.status ≡ true
      → Step conds from next
      → Handles
          (determine_state conds st)
          (dispatch conds net client (determine_state conds st) base policy revision)
        × (is_well_formed conds next ≡ true)
  step_is_handled st from next h w s =
      (dispatch-Handles _ (well_formed-IsHandled conds st h), step_well_formed conds from next s w)
