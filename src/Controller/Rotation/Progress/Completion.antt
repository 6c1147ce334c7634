-- ===== src/Controller/Rotation/Progress/Completion.antt =====
-- A rotation from its start to its end, in four rounds of `Reconcile`
-- (internal/controller/dynamicsecretpolicy_controller.go).
use dynamic_secret_operator.Prelude.{
  ℕ, zero, suc, Text, text_eq, text_eq_of_ne, is_empty, is_empty_iff, true, false, not, none, some,
  [], ◌&&◌, ◌≡◌, ◌≢◌, refl, ap, sym, ◌∙◌, arith,
}
use dynamic_secret_operator.Api.{
  DynamicSecretPolicy, revision_prepared, validating, rollout_progressing, circuit_breaker_tripped,
}
use dynamic_secret_operator.Canary.Endpoint.{Net}
use dynamic_secret_operator.Client.{
  Client, Conditions, Key, ◌>>=◌, ◌>>◌, continue, return, ignore, effect, type_eq, type_tag,
  type_name, rotations_total,
}
use dynamic_secret_operator.Source.Provider.{Registry}
use dynamic_secret_operator.Controller.Machine.{
  determine_state, needs_materialization, has_drifted, reset_breaker, begin_rotation,
  with_condition, without_condition, finish_rotation,
}
use dynamic_secret_operator.Controller.Machine.Breaker.{reset_breaker_closes}
use dynamic_secret_operator.Controller.Materialize.{materialize_secret_revision}
use dynamic_secret_operator.Controller.Status.{
  set_status, status_started, status_provisioned, status_validating, status_completed,
}
use dynamic_secret_operator.Controller.Provision.{start_rotation}
use dynamic_secret_operator.Controller.Rotation.{
  dispatch, decide, decide_drift, evaluate, reconcile,
}
use dynamic_secret_operator.Controller.Rotation.Steps.Restart.{status_started_state}
use dynamic_secret_operator.Controller.Rotation.Progress.Phases.{
  IsQuiet, quiet_closed, provisioned_state, validating_state, started-IsQuiet, started_validating,
  status_provisioned-IsQuiet, status_validating-IsQuiet,
}
use dynamic_secret_operator.Controller.Rotation.Progress.Rounds.{
  Holds, Runs, Turns, Provisions, Promotes, reconcile_lem, decide_closed, begin-Turns,
  provision-Turns, promote-Turns,
}

module _ (conds : Conditions) where
  -- The policy behind each of the first three rounds.
  abbrev pub started_policy : Text → DynamicSecretPolicy → DynamicSecretPolicy
  started_policy revision p =
      set_status p (status_started conds revision (reset_breaker conds revision p.status))

  abbrev pub provisioned_policy : Text → DynamicSecretPolicy → DynamicSecretPolicy
  provisioned_policy revision p =
      let q = started_policy revision p in set_status q (status_provisioned conds q.status)

  abbrev pub validating_policy : Text → DynamicSecretPolicy → DynamicSecretPolicy
  validating_policy revision p =
      let q = provisioned_policy revision p in set_status q (status_validating conds q.status)

  abbrev pub completed_policy : Text → DynamicSecretPolicy → DynamicSecretPolicy
  completed_policy revision p =
      let q = validating_policy revision p in
      set_status q (status_completed conds validating q.status)

  -- A policy without a rotation, at another revision than the upstream one, of which no rollout is
  -- left.
  pub record IsDue (revision : Text) (p : DynamicSecretPolicy) : Type 0 where
    pub filled : revision ≢ []
    pub idle : p.status.desired_revision ≡ []
    pub other : p.status.current_revision ≢ revision
    pub no_rollout : conds.find_condition rollout_progressing p.status.conditions ≡ none

  not_empty : (t : Text) → t ≢ [] → is_empty t ≡ false
  not_empty t n = ground (arith, is_empty_iff t)

  module _ (revision : Text) (p : DynamicSecretPolicy) (due : IsDue revision p) where
    drifts : has_drifted conds p.status revision ≡ true
    unfolding has_drifted
    drifts =
        rw
          (
            not_empty revision due.filled,
            text_eq_of_ne p.status.current_revision revision due.other,
            due.idle,
            text_eq_of_ne [] revision (λ e. due.filled (sym e)),
          )
          refl

    no_rollout_after_reset :
        conds.find_condition rollout_progressing (reset_breaker conds revision p.status).conditions
        ≡ none
    unfolding reset_breaker type_eq type_tag type_name
    no_rollout_after_reset =
        conds.find-remove rollout_progressing circuit_breaker_tripped p.status.conditions
        ∙ due.no_rollout

    started_policy-IsQuiet : IsQuiet conds (started_policy revision p).status
    started_policy-IsQuiet = started-IsQuiet conds revision _ no_rollout_after_reset

    started_state :
        determine_state conds (started_policy revision p).status ≡ some revision_prepared
    started_state =
        rw
          (
            status_started_state conds revision (reset_breaker conds revision p.status)
                (not_empty revision due.filled),
            no_rollout_after_reset,
          )
          refl

    started_filled : is_empty (started_policy revision p).status.desired_revision ≡ false
    unfolding status_started begin_rotation with_condition
    started_filled = not_empty revision due.filled

    provisioned_policy-IsQuiet : IsQuiet conds (provisioned_policy revision p).status
    provisioned_policy-IsQuiet = status_provisioned-IsQuiet conds _ started_policy-IsQuiet

    provisioned_filled : is_empty (provisioned_policy revision p).status.desired_revision ≡ false
    unfolding status_provisioned with_condition without_condition
    provisioned_filled = started_filled

    validating_policy-IsQuiet : IsQuiet conds (validating_policy revision p).status
    validating_policy-IsQuiet = status_validating-IsQuiet conds _ provisioned_policy-IsQuiet

    no_failures :
        ((started_policy revision p).status.consecutive_failures ≡ 0)
        × ((provisioned_policy revision p).status.consecutive_failures ≡ 0)
        × ((validating_policy revision p).status.consecutive_failures ≡ 0)
    unfolding status_started begin_rotation with_condition without_condition status_provisioned
        status_validating
    no_failures = (refl, refl, refl)

    completed_lem :
        ((completed_policy revision p).status.current_revision ≡ revision)
        × ((completed_policy revision p).status.desired_revision ≡ [])
        × ((completed_policy revision p).status.consecutive_failures ≡ 0)
    unfolding status_completed status_started begin_rotation with_condition without_condition
        status_provisioned status_validating finish_rotation
    completed_lem = (refl, refl, refl)

module _ (conds : Conditions) (net : Net) (client : Client) (registry : Registry) (key : Key) where
  open client use {State, patch_status, on_secret_materialized, count_metric}

  -- The world after a number of rounds.
  unfoldable pub rounds : ℕ → State → State
  rounds zero s = s
  rounds (suc n) s = rounds n (reconcile conds net client registry key s).1

  module _ (policy_of : State → DynamicSecretPolicy)
      (holds : Holds conds net client registry key policy_of) where
    start_rotation-Turns :
        (revision : Text) (p q : DynamicSecretPolicy) (s : State)
        → text_eq revision q.status.current_revision ≡ false
        → policy_of (start_rotation conds net client p q revision s).1
          ≡ set_status q (status_started conds revision q.status)
    unfolding start_rotation effect ignore ◌>>◌ continue return
    start_rotation-Turns revision p q s e =
        let (t, patched, i) =
          holds.patches (set_status q (status_started conds revision q.status)) p
            (count_metric rotations_total q.namespace s) in
        let differs : (not (is_empty q.status.current_revision)
              && text_eq revision q.status.current_revision)
            ≡ false =
          ground (arith, e) in
        rw (start_rotation, differs, patched) (holds.calls_back q.name revision t ∙ i)

    idle_needs :
        (revision : Text) (p : DynamicSecretPolicy)
        → IsDue conds revision p
        → needs_materialization conds p ≡ true
    unfolding needs_materialization determine_state
    idle_needs revision p due = rw due.idle refl

    start-Turns :
        (revision : Text) (p : DynamicSecretPolicy)
        → IsDue conds revision p
        → Runs conds net client registry key policy_of holds
            (materialize_secret_revision client registry p)
            revision
        → Turns conds net client registry key policy_of holds p (started_policy conds revision p)
    unfolding evaluate decide_drift dispatch reset_breaker ◌>>=◌ continue
    start-Turns revision p due runs s e =
        let (t, materialized, _) = runs s in
        let reset = set_status p (reset_breaker conds revision p.status) in
        let found : evaluate conds net client registry p s
            ≡ decide_drift conds net client p revision t =
          rw (evaluate, idle_needs revision p due, materialized) refl in
        let drifted : decide_drift conds net client p revision t
            ≡ decide conds net client none p reset revision t =
          rw (decide_drift, drifts conds revision p due) refl in
        let start =
          decide_closed conds net client registry key policy_of holds none p reset revision t
            (reset_breaker_closes conds p revision) in
        ap (λ r. policy_of r.1)
          (reconcile_lem conds net client registry key policy_of holds s
            ∙ ap (λ x. evaluate conds net client registry x s) e
            ∙ found
            ∙ drifted
            ∙ start)
        ∙ start_rotation-Turns revision p reset t
            (text_eq_of_ne revision p.status.current_revision (λ i. due.other (sym i)))

    -- A rotation comes to its end. In a cluster that holds the policy, where the materialization
    -- yields the revision, the provisioning of a canary, the probes and the promotion succeed, four
    -- rounds lead a policy that is due for the revision to one whose current revision it is, with no
    -- desired revision and no failures.
    pub rotation_completes :
        (revision : Text) (p : DynamicSecretPolicy)
        → IsDue conds revision p
        → Runs conds net client registry key policy_of holds
            (materialize_secret_revision client registry p)
            revision
        → Provisions conds net client registry key policy_of holds (started_policy conds revision p)
        → Promotes conds net client registry key policy_of holds
            (validating_policy conds revision p)
        → (s : State) → policy_of s ≡ p
        → ((policy_of (rounds 4 s)).status.current_revision ≡ revision)
          × ((policy_of (rounds 4 s)).status.desired_revision ≡ [])
          × ((policy_of (rounds 4 s)).status.consecutive_failures ≡ 0)
    unfolding rounds
    rotation_completes revision p due materializes provisions promotes s e =
        let (f, g, h) = no_failures conds revision p due in
        let one = start-Turns revision p due materializes s e in
        let two =
          provision-Turns conds net client registry key policy_of holds _ provisions
            (started_state conds revision p due)
            (quiet_closed conds _ (started_policy-IsQuiet conds revision p due) f) _ one in
        let three =
          begin-Turns conds net client registry key policy_of holds _
            (provisioned_state conds _ (started_policy-IsQuiet conds revision p due)
              (started_validating conds revision _) (started_filled conds revision p due))
            (quiet_closed conds _ (provisioned_policy-IsQuiet conds revision p due) g) _ two in
        let four =
          promote-Turns conds net client registry key policy_of holds _ promotes
            (validating_state conds _ (provisioned_policy-IsQuiet conds revision p due)
              (provisioned_filled conds revision p due))
            (quiet_closed conds _ (validating_policy-IsQuiet conds revision p due) h) _ three in
        rw four (completed_lem conds revision p due)
