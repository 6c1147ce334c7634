-- ===== src/Scenario/Machine.antt =====
-- The theorems on the reconciler's state machine, at the policy and the cluster of Scenario.antt.
use dynamic_secret_operator.Prelude.{
  Text, codes, true, false, some, [], ◌∷◌, leb, All, is_some, if◌then◌else◌, ◌≡◌, ◌≢◌, refl, arith,
}
use dynamic_secret_operator.Api.{
  DynamicSecretPolicy, DynamicSecretPolicyStatus, deployment, rollout, job, revision_prepared,
  rollout_progressing, rolled_back,
}
use dynamic_secret_operator.Client.{Client, ok, Key, ◌>>=◌, continue}
use dynamic_secret_operator.Client.Keeps.{Keeps, CallsKeep}
use dynamic_secret_operator.Controller.Machine.{
  threshold, determine_state, is_tripped, reset_breaker,
}
use dynamic_secret_operator.Controller.Machine.Breaker.{reset_breaker_closes}
use dynamic_secret_operator.Controller.Validation.{reconcile_validation_probes}
use dynamic_secret_operator.Controller.Status.{status_started, degraded_condition}
use dynamic_secret_operator.Controller.Rotation.{dispatch, evaluate, reconcile}
use dynamic_secret_operator.Controller.Rotation.Steps.{Step, started}
use dynamic_secret_operator.Controller.Rotation.Steps.Threshold.{step_within_threshold}
use dynamic_secret_operator.Controller.Rotation.Steps.RolledBack.{rolled_back_unreachable}
use dynamic_secret_operator.Controller.Rotation.Steps.Phases.{is_well_formed, step_well_formed}
use dynamic_secret_operator.Controller.Rotation.Steps.Handled.{Handles, step_is_handled}
use dynamic_secret_operator.Controller.Rotation.Steps.Restart.{status_started_state}
use dynamic_secret_operator.Controller.Rotation.Refinement.{PatchesKeep, reconcile_steps}
use dynamic_secret_operator.Controller.Rotation.Promotion.{NeverPasses, evaluate_unvalidated}
use dynamic_secret_operator.Controller.Gc.{gc_old_secret_revisions}
use dynamic_secret_operator.Controller.Gc.Stale.{Collected, gc_deletes_stale}
use dynamic_secret_operator.Scenario.{
  World, fresh, legacy_spec, policy_of, probe_of, offline, cluster, old_secret,
}
use dynamic_secret_operator.Scenario.Conditions.{listed, find}

abbrev new_policy : DynamicSecretPolicy
new_policy = policy_of (legacy_spec deployment (probe_of job [] ∷ [])) fresh

abbrev revision : Text
revision = codes "9f2"

calls_keep : (Q : World → Type 0) → CallsKeep (cluster new_policy) Q
calls_keep Q = record {
  get_policy_keeps = λ k. record { after = λ s q. q };
  get_workload_keeps = λ k n. record { after = λ s q. q };
  get_rollout_keeps = λ k. record { after = λ s q. q };
  get_secret_keeps = λ k. record { after = λ s q. q };
  get_job_keeps = λ k. record { after = λ s q. q };
  list_secrets_keeps = λ n l. record { after = λ s q. q };
  list_jobs_keeps = λ n l. record { after = λ s q. q };
  fetch_vault_keeps = λ u n v. record { after = λ s q. q };
  read_secret_keeps = λ k. record { after = λ s q. q };
  get_deployment_keeps = λ k. record { after = λ s q. q };
  list_pods_keeps = λ n l. record { after = λ s q. q };
  get_application_keeps = λ k. record { after = λ s q. q };
  list_applications_keeps = λ s q. q;
  update_application_keeps = λ a. record { after = λ s q. q };
  retry_keeps = λ m k. k;
  create_keeps = λ o. record { after = λ s q. q };
  delete_keeps = λ k n. record { after = λ s q. q };
  run_probe_keeps = λ p d. record { after = λ s q. q };
  count_keeps = λ m n s q. q;
  now_keeps = λ s q. q;
  callback_keeps = λ n r. record { after = λ s q. q };
}

-- Every patch that the world has seen is a step.
abbrev AllSteps : World → Type 0
AllSteps s = All (λ p. Step listed p.0 p.1) s.patches

patches_keep : (base : DynamicSecretPolicy) → PatchesKeep listed (cluster new_policy) AllSteps base
patches_keep base = record {
  step_keeps = λ next t. record { after = λ s q. (t, q) };
  workload_keeps = λ k w v. record { after = λ s q. q };
}

abbrev pub web_key : Key
web_key = record { name = codes "p"; namespace = codes "ns" }

abbrev new_world : World
new_world = record { patches = []; promotions = 0 }

reconcile_steps_example :
    AllSteps (reconcile listed offline (cluster new_policy) [] web_key new_world).1
reconcile_steps_example =
    reconcile_steps listed offline (cluster new_policy) AllSteps (calls_keep AllSteps) [] web_key
      new_world (λ base e. patches_keep base) tt

abbrev NotPromoted : World → Type 0
NotPromoted s = s.promotions ≡ 0

never_passes : NeverPasses offline (cluster new_policy) new_policy
unfolding reconcile_validation_probes ◌>>=◌ continue
never_passes s = cc

not_rollout : new_policy.spec.workload_selector.kind ≢ rollout
not_rollout = cc

evaluate_unvalidated_example :
    Keeps NotPromoted (evaluate listed offline (cluster new_policy) [] new_policy)
evaluate_unvalidated_example =
    evaluate_unvalidated listed offline (cluster new_policy) NotPromoted (calls_keep NotPromoted)
      (λ base next. record { after = λ s q. q }) [] new_policy not_rollout never_passes

abbrev first_status : DynamicSecretPolicyStatus
first_status = status_started listed revision fresh

first_step : Step listed new_policy first_status
unfolding determine_state is_tripped threshold find
first_step = started revision (record { state = refl; closed = ground arith })

step_within_threshold_example : leb first_status.consecutive_failures (threshold new_policy) ≡ true
unfolding threshold
step_within_threshold_example =
    step_within_threshold listed new_policy first_status first_step (ground arith)

fresh_well_formed : is_well_formed listed new_policy.status ≡ true
unfolding is_well_formed
fresh_well_formed = refl

first_well_formed : is_well_formed listed first_status ≡ true
first_well_formed = step_well_formed listed new_policy first_status first_step fresh_well_formed

step_is_handled_example :
    Handles listed offline
      (cluster new_policy)
      new_policy
      new_policy
      revision
      (determine_state listed first_status)
      (dispatch listed offline
        (cluster new_policy)
        (determine_state listed first_status)
        new_policy
        new_policy
        revision)
    × (is_well_formed listed first_status ≡ true)
step_is_handled_example =
    step_is_handled listed offline (cluster new_policy) new_policy new_policy revision first_status
      new_policy first_status first_well_formed fresh_well_formed first_step

rolled_back_unreachable_example :
    listed.is_condition_true rolled_back first_status.conditions ≡ false
unfolding find
rolled_back_unreachable_example =
    rolled_back_unreachable listed new_policy first_status first_step refl

-- The breaker has tripped on a degraded Rollout.
abbrev degraded_status : DynamicSecretPolicyStatus
degraded_status = record fresh {
  consecutive_failures = 3;
  desired_revision = codes "9f1";
  conditions = degraded_condition ∷ [];
}

status_started_state_example :
    determine_state listed (status_started listed revision degraded_status)
    ≡ some (
        if is_some (find rollout_progressing degraded_status.conditions)
        then rollout_progressing
        else revision_prepared)
status_started_state_example = status_started_state listed revision degraded_status refl

reset_breaker_closes_example :
    is_tripped listed (record new_policy { status = reset_breaker listed revision degraded_status })
    ≡ false
reset_breaker_closes_example =
    reset_breaker_closes listed (record new_policy { status = degraded_status }) revision

-- A cluster in which the deletion of a secret is seen.
abbrev deleting_cluster : Client
deleting_cluster = record (cluster new_policy) {
  delete = λ k n s. (ok tt, record s { promotions = 7 });
}

gc_deletes_stale_example :
    Collected deleting_cluster new_policy
      (ok (old_secret ∷ []), new_world)
      (gc_old_secret_revisions deleting_cluster new_policy new_world).1
gc_deletes_stale_example = gc_deletes_stale deleting_cluster new_policy new_world
