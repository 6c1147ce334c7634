-- ===== src/Controller/Rotation/Promotion.antt =====
-- When `Reconcile` of internal/controller/dynamicsecretpolicy_controller.go patches the target
-- workload.
use dynamic_secret_operator.Prelude.{Text, Option, none, some, [], ◌≢◌}
use dynamic_secret_operator.Api.{
  DynamicSecretPolicy, rollout, ConditionType, revision_prepared, canary_provisioning, validating,
  rollout_progressing, promoting, rolled_back, circuit_breaker_tripped, other_condition,
}
use dynamic_secret_operator.Canary.Endpoint.{Net}
use dynamic_secret_operator.Client.{Client, Conditions, done, ok}
use dynamic_secret_operator.Client.Keeps.{Keeps, branch-Keeps, bind-Keeps, return-Keeps, CallsKeep}
use dynamic_secret_operator.Source.Provider.{Registry}
use dynamic_secret_operator.Controller.Machine.{
  is_tripped, needs_materialization, has_drifted, reset_breaker,
}
use dynamic_secret_operator.Controller.Machine.Breaker.{reset_breaker_closes}
use dynamic_secret_operator.Controller.Validation.{reconcile_validation_probes}
use dynamic_secret_operator.Controller.Status.{set_status}
use dynamic_secret_operator.Controller.Rotation.{dispatch, decide, decide_drift, evaluate}
use dynamic_secret_operator.Controller.Rotation.Keeps.{materialize-Keeps}
use dynamic_secret_operator.Controller.Rotation.Handlers.{
  start_rotation-Keeps, provision-Keeps, begin_validation-Keeps, await_rollout-Keeps,
  validate-Keeps, roll_back-Keeps, halt-Keeps,
}

-- The probes of a policy have not all passed, in whatever world they run.
abbrev pub NeverPasses : Net → Client → DynamicSecretPolicy → Type 0
NeverPasses net client policy =
    (s : client.State) → (reconcile_validation_probes net client policy s).0 ≢ ok done

module _ (conds : Conditions) (net : Net) (client : Client) (Q : client.State → Type 0)
    (keeps : CallsKeep client Q)
    (status_keeps : (base next : DynamicSecretPolicy)
      → Keeps Q (client.patch_status next base)) where
  dispatch-Keeps :
      (base policy : DynamicSecretPolicy) (t : Option ConditionType) (revision : Text)
      → policy.spec.workload_selector.kind ≢ rollout
      → NeverPasses net client policy
      → Keeps Q (dispatch conds net client t base policy revision)
  unfolding dispatch
  dispatch-Keeps base policy none revision k n =
      start_rotation-Keeps conds net client Q keeps base policy revision (status_keeps base _)
  dispatch-Keeps base policy (some revision_prepared) revision k n =
      provision-Keeps conds net client Q keeps base policy (status_keeps base _)
        (status_keeps base _) (λ e. absurd (k e))
  dispatch-Keeps base policy (some canary_provisioning) revision k n =
      begin_validation-Keeps conds net client Q keeps base policy (status_keeps base _)
  dispatch-Keeps base policy (some rollout_progressing) revision k n =
      await_rollout-Keeps conds net client Q keeps base policy (status_keeps base _)
        (status_keeps base _)
  dispatch-Keeps base policy (some validating) revision k n =
      validate-Keeps conds net client Q keeps base policy (λ s e. absurd (n s e))
        (status_keeps base _) (status_keeps base _)
  dispatch-Keeps base policy (some rolled_back) revision k n =
      roll_back-Keeps conds net client Q keeps policy
  dispatch-Keeps base policy (some promoting) revision k n = return-Keeps _
  dispatch-Keeps base policy (some circuit_breaker_tripped) revision k n = return-Keeps _
  dispatch-Keeps base policy (some (other_condition t)) revision k n = return-Keeps _

  decide-Keeps :
      (base policy : DynamicSecretPolicy) (t : Option ConditionType) (revision : Text)
      → policy.spec.workload_selector.kind ≢ rollout
      → NeverPasses net client policy
      → Keeps Q (decide conds net client t base policy revision)
  unfolding decide
  decide-Keeps base policy t revision k n =
      branch-Keeps (is_tripped conds policy)
        (λ _. halt-Keeps conds net client Q keeps base policy (λ _. status_keeps base _))
        (λ _. dispatch-Keeps base policy t revision k n)

  decide_drift-Keeps :
      (base : DynamicSecretPolicy) (revision : Text)
      → base.spec.workload_selector.kind ≢ rollout
      → NeverPasses net client base
      → Keeps Q (decide_drift conds net client base revision)
  unfolding decide_drift decide dispatch
  decide_drift-Keeps base revision k n =
      let reset = set_status base (reset_breaker conds revision base.status) in
      branch-Keeps (has_drifted conds base.status revision)
        (λ _.
          rw (decide, reset_breaker_closes conds base revision)
            (start_rotation-Keeps conds net client Q keeps base reset revision
              (status_keeps base _)))
        (λ _. decide-Keeps base base _ revision k n)

  -- A workload is patched behind a validation only: for a target that is not an Argo Rollout and
  -- whose probes do not all pass, in any world, a round keeps whatever all the other calls keep,
  -- with nothing asked of the patch of a workload.
  pub evaluate_unvalidated :
      (registry : Registry) (policy : DynamicSecretPolicy)
      → policy.spec.workload_selector.kind ≢ rollout
      → NeverPasses net client policy
      → Keeps Q (evaluate conds net client registry policy)
  unfolding evaluate
  evaluate_unvalidated registry policy k n =
      branch-Keeps (needs_materialization conds policy)
        (λ _.
          bind-Keeps (materialize-Keeps client Q keeps registry policy)
            (λ revision. decide_drift-Keeps policy revision k n))
        (λ _. decide-Keeps policy policy _ [] k n)
