-- ===== src/Controller/Rotation/Handlers.antt =====
-- What each handler of `Reconcile` keeps of the world, given what it keeps by the patches of the
-- status and of the workload that it makes.
use dynamic_secret_operator.Prelude.{
  arith, Text, Bool, true, false, not, ◌&&◌, is_empty, text_eq, leb, if◌then◌else◌, ◌≡◌, refl,
}
use dynamic_secret_operator.Api.{
  DynamicSecretPolicy, DynamicSecretPolicyStatus, WorkloadKind, rollout, deployment, stateful_set,
  daemon_set, unset_kind, other_kind, Condition, rollout_progressing, validating,
  circuit_breaker_tripped,
}
use dynamic_secret_operator.Workload.Adapter.{
  Adapter, deployment_adapter, stateful_set_adapter, daemon_set_adapter, rollout_adapter,
  new_adapter, adapter_kind, build_canary, promote, fetch,
}
use dynamic_secret_operator.Canary.Deployment.{Deployment}
use dynamic_secret_operator.Canary.Endpoint.{Net}
use dynamic_secret_operator.Client.{
  Client, Conditions, Result, ok, err, Error, Workload, RolloutPhase, healthy, degraded,
  progressing, paused, other_phase, Outcome, done, lift, attempt, continue, ◌>>=◌, requeue,
  requeue_after,
}
use dynamic_secret_operator.Client.Keeps.{
  Keeps, branch-Keeps, bind-Keeps, then-Keeps, return-Keeps, ignore-Keeps, fail-Keeps, lift-Keeps,
  effect-Keeps, keeps_rules, CallsKeep,
}
use dynamic_secret_operator.Controller.Machine.{threshold, count_failure}
use dynamic_secret_operator.Controller.Validation.{desired_secret_name, reconcile_validation_probes}
use dynamic_secret_operator.Controller.Status.{
  set_status, probe_failed_condition, degraded_condition, status_started, status_provisioned,
  status_patched, status_validating, status_completed, status_failed, status_tripped,
}
use dynamic_secret_operator.Controller.Provision.{
  or_deployment, start_rotation, patch_target, provision_rollout, provision_canary, provision_with,
  provision, begin_validation,
}
use dynamic_secret_operator.Controller.Settle.{
  count_failed, settle_rollout, await_rollout, promote_target_workload, complete_promotion,
  fail_validation, settle_validation, validate, roll_back,
}
use dynamic_secret_operator.Controller.Rotation.{halt}
use dynamic_secret_operator.Controller.Rotation.Keeps.{cleanup-Keeps, gc-Keeps, argo_cd-Keeps}
use dynamic_secret_operator.Controller.Rotation.ProbesKeep.{probes_keep, network-Keeps}

or_deployment_rollout : (kind : WorkloadKind) → or_deployment kind ≡ rollout → kind ≡ rollout
or_deployment_rollout unset_kind h = ground arith
or_deployment_rollout deployment h = h
or_deployment_rollout stateful_set h = h
or_deployment_rollout daemon_set h = h
or_deployment_rollout rollout h = h
or_deployment_rollout (other_kind t) h = h

-- The adapter of a kind that is not Rollout.
new_adapter-adapter_kind :
    (kind : WorkloadKind) (adapter : Adapter)
    → new_adapter kind ≡ ok adapter
    → adapter_kind adapter ≡ rollout
    → kind ≡ rollout
unfolding new_adapter adapter_kind
new_adapter-adapter_kind rollout adapter h e = refl
new_adapter-adapter_kind unset_kind adapter h e = ground arith
new_adapter-adapter_kind deployment adapter h e = ground arith
new_adapter-adapter_kind stateful_set adapter h e = ground arith
new_adapter-adapter_kind daemon_set adapter h e = ground arith
new_adapter-adapter_kind (other_kind t) adapter h e = ground arith

module _ (conds : Conditions) (net : Net) (client : Client) (Q : client.State → Type 0)
    (keeps : CallsKeep client Q) where
  open keeps use {get_workload_keeps, get_rollout_keeps, create_keeps, count_keeps, callback_keeps}

  -- The patch of `policy`, read as `base`, to the status `next`.
  abbrev pub PatchKeeps :
      DynamicSecretPolicy → DynamicSecretPolicy → DynamicSecretPolicyStatus → Type 0
  PatchKeeps base policy next = Keeps Q (client.patch_status (set_status policy next) base)

  pub start_rotation-Keeps :
      (base policy : DynamicSecretPolicy) (revision : Text)
      → PatchKeeps base policy (status_started conds revision policy.status)
      → Keeps Q (start_rotation conds net client base policy revision)
  unfolding start_rotation
  start_rotation-Keeps base policy revision k =
      branch-Keeps
        (not (is_empty policy.status.current_revision)
          && text_eq revision policy.status.current_revision)
        (λ _. return-Keeps _) (λ _. search (keeps_rules, count_keeps, callback_keeps) depth 9)

  pub patch_target-Keeps :
      (adapter : Adapter) (kind : WorkloadKind) (w : Workload) (policy : DynamicSecretPolicy)
      → Keeps Q (promote client adapter w policy (desired_secret_name policy))
      → Keeps Q (patch_target conds net client adapter kind w policy)
  unfolding patch_target
  patch_target-Keeps adapter kind w policy k =
      then-Keeps (ignore-Keeps (argo_cd-Keeps client Q keeps w kind)) k

  provision_canary-Keeps :
      (base policy : DynamicSecretPolicy) (canary : Deployment)
      → PatchKeeps base policy (status_provisioned conds policy.status)
      → Keeps Q (provision_canary conds net client base policy canary)
  unfolding provision_canary
  provision_canary-Keeps base policy canary k =
      let network = network-Keeps client Q keeps net conds policy in
      search (keeps_rules, create_keeps) depth 12

  provision_rollout-Keeps :
      (base policy : DynamicSecretPolicy) (w : Workload)
      → PatchKeeps base policy (status_patched conds policy.status)
      → Keeps Q (promote client rollout_adapter w policy (desired_secret_name policy))
      → Keeps Q (provision_rollout conds net client base policy rollout_adapter w)
  unfolding provision_rollout
  provision_rollout-Keeps base policy w k p =
      then-Keeps (patch_target-Keeps rollout_adapter _ w policy p) (then-Keeps k (return-Keeps _))

  -- Only a Rollout is patched before the validation.
  provision_with-Keeps :
      (base policy : DynamicSecretPolicy) (adapter : Adapter) (w : Workload)
      → PatchKeeps base policy (status_provisioned conds policy.status)
      → PatchKeeps base policy (status_patched conds policy.status)
      → (adapter_kind adapter ≡ rollout
          → Keeps Q (promote client rollout_adapter w policy (desired_secret_name policy)))
      → Keeps Q (provision_with conds net client base policy adapter w)
  unfolding provision_with build_canary adapter_kind
  provision_with-Keeps base policy deployment_adapter w k l p =
      provision_canary-Keeps base policy _ k
  provision_with-Keeps base policy stateful_set_adapter w k l p =
      provision_canary-Keeps base policy _ k
  provision_with-Keeps base policy daemon_set_adapter w k l p =
      provision_canary-Keeps base policy _ k
  provision_with-Keeps base policy rollout_adapter w k l p =
      provision_rollout-Keeps base policy w l (p refl)

  lifted-Keeps {ℓ κ} :
      {A : Type ℓ} {B : Type κ} (r : Result A) (f : A → client.State → Result B × client.State)
      → ((a : A) → r ≡ ok a → Keeps Q (f a))
      → Keeps Q (lift r >>= f)
  unfolding ◌>>=◌ lift continue
  lifted-Keeps (ok a) f k = record { after = (k a refl).after }
  lifted-Keeps (err e) f k = record { after = λ s q. q }

  pub provision-Keeps :
      (base policy : DynamicSecretPolicy)
      → PatchKeeps base policy (status_provisioned conds policy.status)
      → PatchKeeps base policy (status_patched conds policy.status)
      → (policy.spec.workload_selector.kind ≡ rollout
          → (w : Workload)
          → Keeps Q (promote client rollout_adapter w policy (desired_secret_name policy)))
      → Keeps Q (provision conds net client base policy)
  unfolding provision fetch
  provision-Keeps base policy k l p =
      lifted-Keeps (new_adapter (or_deployment policy.spec.workload_selector.kind)) _ (λ adapter e.
        bind-Keeps (get_workload_keeps _ _) (λ w.
          provision_with-Keeps base policy adapter w k l
            (λ r. p (or_deployment_rollout _ (new_adapter-adapter_kind _ adapter e r)) w)))

  pub begin_validation-Keeps :
      (base policy : DynamicSecretPolicy)
      → PatchKeeps base policy (status_validating conds policy.status)
      → Keeps Q (begin_validation conds net client base policy)
  unfolding begin_validation
  begin_validation-Keeps base policy k = then-Keeps k (return-Keeps _)

  either_lem : (b : Bool) {s t : client.State} → Q s → Q t → Q (if b then s else t)
  either_lem true q r = q
  either_lem false q r = r

  count_failed-Keeps :
      (base policy : DynamicSecretPolicy) (c : Condition)
      → PatchKeeps base policy (status_failed conds (threshold policy) c policy.status)
      → Keeps Q (count_failed conds net client base policy c)
  unfolding count_failed
  count_failed-Keeps base policy c k =
      let trips = leb (threshold policy) (count_failure conds policy.status).consecutive_failures in
      then-Keeps (effect-Keeps _ (count_keeps _ _)) (
        then-Keeps (effect-Keeps _ (λ s q. either_lem trips (count_keeps _ _ s q) q))
          (ignore-Keeps k))

  settle_rollout-Keeps :
      (base policy : DynamicSecretPolicy) (phase : RolloutPhase)
      → PatchKeeps base policy (status_completed conds rollout_progressing policy.status)
      → PatchKeeps base policy
          (status_failed conds (threshold policy) degraded_condition policy.status)
      → Keeps Q (settle_rollout conds net client base policy phase)
  unfolding settle_rollout
  settle_rollout-Keeps base policy healthy k l =
      then-Keeps (gc-Keeps client Q keeps policy) (then-Keeps k (return-Keeps _))
  settle_rollout-Keeps base policy degraded k l =
      then-Keeps (count_failed-Keeps base policy degraded_condition l) (lift-Keeps _)
  settle_rollout-Keeps base policy progressing k l = return-Keeps _
  settle_rollout-Keeps base policy paused k l = return-Keeps _
  settle_rollout-Keeps base policy (other_phase t) k l = return-Keeps _

  pub await_rollout-Keeps :
      (base policy : DynamicSecretPolicy)
      → PatchKeeps base policy (status_completed conds rollout_progressing policy.status)
      → PatchKeeps base policy
          (status_failed conds (threshold policy) degraded_condition policy.status)
      → Keeps Q (await_rollout conds net client base policy)
  unfolding await_rollout
  await_rollout-Keeps base policy k l = bind-Keeps (get_rollout_keeps _) (λ r.
      branch-Keeps (text_eq r.observed_generation r.generation)
        (λ _. settle_rollout-Keeps base policy r.phase k l) (λ _. return-Keeps _))

  promote_target-Keeps :
      (policy : DynamicSecretPolicy)
      → ((adapter : Adapter) (w : Workload)
          → Keeps Q (promote client adapter w policy (desired_secret_name policy)))
      → Keeps Q (promote_target_workload conds net client policy)
  unfolding promote_target_workload fetch
  promote_target-Keeps policy p = bind-Keeps (lift-Keeps _) (λ adapter.
      bind-Keeps (get_workload_keeps _ _) (λ w.
        then-Keeps (patch_target-Keeps adapter _ w policy (p adapter w))
          (gc-Keeps client Q keeps policy)))

  complete_promotion-Keeps :
      (base policy : DynamicSecretPolicy)
      → ((adapter : Adapter) (w : Workload)
          → Keeps Q (promote client adapter w policy (desired_secret_name policy)))
      → PatchKeeps base policy (status_completed conds validating policy.status)
      → Keeps Q (complete_promotion conds net client base policy)
  unfolding complete_promotion
  complete_promotion-Keeps base policy p k = then-Keeps (promote_target-Keeps policy p) (
      then-Keeps (ignore-Keeps (cleanup-Keeps client Q keeps policy))
        (then-Keeps k (return-Keeps _)))

  fail_validation-Keeps :
      (base policy : DynamicSecretPolicy) (e : Error)
      → PatchKeeps base policy
          (status_failed conds (threshold policy) probe_failed_condition policy.status)
      → Keeps Q (fail_validation conds net client base policy e)
  unfolding fail_validation
  fail_validation-Keeps base policy e k =
      then-Keeps (count_failed-Keeps base policy probe_failed_condition k) (
        branch-Keeps
          (leb (threshold policy) (count_failure conds policy.status).consecutive_failures)
          (λ _. then-Keeps (ignore-Keeps (cleanup-Keeps client Q keeps policy)) (return-Keeps _))
          (λ _. fail-Keeps _))

  -- Only a validation that has passed is followed by the promotion.
  settle_validation-Keeps :
      (base policy : DynamicSecretPolicy) (r : Result Outcome)
      → (r ≡ ok done
          → (adapter : Adapter) (w : Workload)
          → Keeps Q (promote client adapter w policy (desired_secret_name policy)))
      → PatchKeeps base policy (status_completed conds validating policy.status)
      → PatchKeeps base policy
          (status_failed conds (threshold policy) probe_failed_condition policy.status)
      → Keeps Q (settle_validation conds net client base policy r)
  unfolding settle_validation
  settle_validation-Keeps base policy (err e) p k l = fail_validation-Keeps base policy e l
  settle_validation-Keeps base policy (ok done) p k l =
      complete_promotion-Keeps base policy (p refl) k
  settle_validation-Keeps base policy (ok requeue) p k l = return-Keeps _
  settle_validation-Keeps base policy (ok (requeue_after n)) p k l = return-Keeps _

  attempted-Keeps {ℓ κ} :
      {A : Type ℓ} {B : Type κ} (m : client.State → Result A × client.State)
      (f : Result A → client.State → Result B × client.State)
      → Keeps Q m
      → ((s : client.State) → Keeps Q (f (m s).0))
      → Keeps Q (attempt m >>= f)
  unfolding ◌>>=◌ attempt continue
  attempted-Keeps m f km kf = record { after = λ s q. (kf s).after (m s).1 (km.after s q) }

  pub validate-Keeps :
      (base policy : DynamicSecretPolicy)
      → ((s : client.State)
          → (reconcile_validation_probes net client policy s).0 ≡ ok done
          → (adapter : Adapter) (w : Workload)
          → Keeps Q (promote client adapter w policy (desired_secret_name policy)))
      → PatchKeeps base policy (status_completed conds validating policy.status)
      → PatchKeeps base policy
          (status_failed conds (threshold policy) probe_failed_condition policy.status)
      → Keeps Q (validate conds net client base policy)
  unfolding validate
  validate-Keeps base policy p k l =
      attempted-Keeps (reconcile_validation_probes net client policy)
        (settle_validation conds net client base policy) (probes_keep client Q keeps net policy)
        (λ s. settle_validation-Keeps base policy _ (p s) k l)

  pub roll_back-Keeps : (policy : DynamicSecretPolicy) → Keeps Q (roll_back conds net client policy)
  unfolding roll_back
  roll_back-Keeps policy =
      then-Keeps (ignore-Keeps (cleanup-Keeps client Q keeps policy)) (return-Keeps _)

  pub halt-Keeps :
      (base policy : DynamicSecretPolicy)
      → (conds.is_condition_true circuit_breaker_tripped policy.status.conditions ≡ false
          → PatchKeeps base policy (status_tripped conds policy.status))
      → Keeps Q (halt conds net client base policy)
  unfolding halt
  halt-Keeps base policy k = then-Keeps (effect-Keeps _ (count_keeps _ _)) (
      branch-Keeps (conds.is_condition_true circuit_breaker_tripped policy.status.conditions)
        (λ _. return-Keeps _)
        (λ e.
          then-Keeps (ignore-Keeps (k e))
            (then-Keeps (ignore-Keeps (cleanup-Keeps client Q keeps policy)) (return-Keeps _))))
