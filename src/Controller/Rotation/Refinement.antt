-- ===== src/Controller/Rotation/Refinement.antt =====
-- `Reconcile` of internal/controller/dynamicsecretpolicy_controller.go against the state machine of
-- Controller/Rotation/Steps.antt.
use dynamic_secret_operator.Prelude.{Text, Option, none, some, [], ◌≡◌, refl}
use dynamic_secret_operator.Api.{
  DynamicSecretPolicy, DynamicSecretPolicyStatus, WorkloadKind, ConditionType, revision_prepared,
  canary_provisioning, validating, rollout_progressing, promoting, rolled_back,
  circuit_breaker_tripped, other_condition,
}
use dynamic_secret_operator.Workload.Adapter.{Adapter, promote}
use dynamic_secret_operator.Canary.Endpoint.{Net}
use dynamic_secret_operator.Client.{
  Client, Conditions, Key, ◌>>=◌, continue, attempt, Result, ok, err, Error, not_found,
  already_exists, conflict, Workload,
}
use dynamic_secret_operator.Client
use dynamic_secret_operator.Client.Keeps.{
  Keeps, branch-Keeps, bind-Keeps, return-Keeps, fail-Keeps, CallsKeep,
}
use dynamic_secret_operator.Source.Provider.{Registry}
use dynamic_secret_operator.Controller.Machine.{
  determine_state, is_tripped, needs_materialization, has_drifted, reset_breaker,
}
use dynamic_secret_operator.Controller.Machine.Breaker.{reset_breaker_closes}
use dynamic_secret_operator.Controller.Status.{set_status}
use dynamic_secret_operator.Controller.Rotation.{
  dispatch, decide, decide_drift, evaluate, reconcile_found, reconcile,
}
use dynamic_secret_operator.Controller.Rotation.Keeps.{materialize-Keeps}
use dynamic_secret_operator.Controller.Rotation.Steps.{
  of_probes, of_rollout, InState, Step, started, restarted, provisioned, patched, began, completed,
  failed, tripped,
}
use dynamic_secret_operator.Controller.Rotation.Handlers.{
  start_rotation-Keeps, provision-Keeps, begin_validation-Keeps, await_rollout-Keeps,
  validate-Keeps, roll_back-Keeps, halt-Keeps,
}

-- `Q` survives a patch of the status of a policy `base` along a step from the status of `base`, and
-- every patch of a workload.
pub record PatchesKeep (conds : Conditions) (client : Client) (Q : client.State → Type 0)
    (base : DynamicSecretPolicy) : Type 0 where
  pub step_keeps :
      (next : DynamicSecretPolicyStatus)
      → Step conds base next
      → Keeps Q (client.patch_status (set_status base next) base)
  pub workload_keeps :
      (kind : WorkloadKind) (w v : Workload) → Keeps Q (client.patch_workload kind w v)

module _ (conds : Conditions) (net : Net) (client : Client) (Q : client.State → Type 0)
    (keeps : CallsKeep client Q) (base : DynamicSecretPolicy)
    (patches : PatchesKeep conds client Q base) where
  open patches use {step_keeps, workload_keeps}

  promote-Keeps :
      (adapter : Adapter) (w : Workload) (policy : DynamicSecretPolicy) (secret : Text)
      → Keeps Q (promote client adapter w policy secret)
  unfolding promote
  promote-Keeps adapter w policy secret = workload_keeps _ _ _

  dispatch-Keeps :
      (t : Option ConditionType) (revision : Text)
      → InState conds base t
      → Keeps Q (dispatch conds net client t base base revision)
  unfolding dispatch
  dispatch-Keeps none revision s =
      start_rotation-Keeps conds net client Q keeps base base revision
        (step_keeps _ (started revision s))
  dispatch-Keeps (some revision_prepared) revision s =
      provision-Keeps conds net client Q keeps base base (step_keeps _ (provisioned s))
        (step_keeps _ (patched s)) (λ _ w. promote-Keeps _ w base _)
  dispatch-Keeps (some canary_provisioning) revision s =
      begin_validation-Keeps conds net client Q keeps base base (step_keeps _ (began s))
  dispatch-Keeps (some rollout_progressing) revision s =
      await_rollout-Keeps conds net client Q keeps base base (step_keeps _ (completed of_rollout s))
        (step_keeps _ (failed of_rollout s))
  dispatch-Keeps (some validating) revision s =
      validate-Keeps conds net client Q keeps base base
        (λ _ _ adapter w. promote-Keeps adapter w base _) (step_keeps _ (completed of_probes s))
        (step_keeps _ (failed of_probes s))
  dispatch-Keeps (some rolled_back) revision s = roll_back-Keeps conds net client Q keeps base
  dispatch-Keeps (some promoting) revision s = return-Keeps _
  dispatch-Keeps (some circuit_breaker_tripped) revision s = return-Keeps _
  dispatch-Keeps (some (other_condition t)) revision s = return-Keeps _

  decide-Keeps :
      (revision : Text)
      → Keeps Q (decide conds net client (determine_state conds base.status) base base revision)
  unfolding decide
  decide-Keeps revision =
      branch-Keeps (is_tripped conds base)
        (λ e. halt-Keeps conds net client Q keeps base base (λ f. step_keeps _ (tripped e f)))
        (λ e. dispatch-Keeps _ revision (record { state = refl; closed = e }))

  decide_drift-Keeps : (revision : Text) → Keeps Q (decide_drift conds net client base revision)
  unfolding decide_drift decide dispatch
  decide_drift-Keeps revision =
      let reset = set_status base (reset_breaker conds revision base.status) in
      let closed = reset_breaker_closes conds base revision in
      branch-Keeps (has_drifted conds base.status revision)
        (λ d.
          rw (decide, closed)
            (start_rotation-Keeps conds net client Q keeps base reset revision
              (step_keeps _ (restarted revision d closed))))
        (λ _. decide-Keeps revision)

  evaluate-Keeps : (registry : Registry) → Keeps Q (evaluate conds net client registry base)
  unfolding evaluate
  evaluate-Keeps registry =
      branch-Keeps (needs_materialization conds base)
        (λ _.
          bind-Keeps (materialize-Keeps client Q keeps registry base)
            (λ revision. decide_drift-Keeps revision))
        (λ _. decide-Keeps [])

module _ (conds : Conditions) (net : Net) (client : Client) (Q : client.State → Type 0)
    (keeps : CallsKeep client Q) where
  open keeps use {get_policy_keeps}

  found-Keeps :
      (registry : Registry) (r : Result DynamicSecretPolicy)
      → ((base : DynamicSecretPolicy) → r ≡ ok base → PatchesKeep conds client Q base)
      → Keeps Q (reconcile_found conds net client registry r)
  unfolding reconcile_found
  found-Keeps registry (ok base) patches =
      evaluate-Keeps conds net client Q keeps base (patches base refl) registry
  found-Keeps registry (err not_found) patches = return-Keeps _
  found-Keeps registry (err already_exists) patches = fail-Keeps _
  found-Keeps registry (err conflict) patches = fail-Keeps _
  found-Keeps registry (err (Client.failed m)) patches = fail-Keeps _

  -- Every round patches the status along the state machine, from the status that it read: take a
  -- property of the world that the calls other than the patches keep, and, where the client gives a
  -- policy for the key, that each patch of a workload keeps, and a patch of that policy's status
  -- whenever it is a step from the status that the client gave. If it holds before a round it holds
  -- behind it, on each of its branches and whatever the calls answer.
  pub reconcile_steps :
      (registry : Registry) (key : Key) (s : client.State)
      → ((base : DynamicSecretPolicy)
          → (client.get_policy key s).0 ≡ ok base
          → PatchesKeep conds client Q base)
      → Q s
      → Q (reconcile conds net client registry key s).1
  unfolding reconcile ◌>>=◌ continue attempt
  reconcile_steps registry key s patches q =
      (found-Keeps registry (client.get_policy key s).0 patches).after (client.get_policy key s).1
        ((get_policy_keeps key).after s q)
