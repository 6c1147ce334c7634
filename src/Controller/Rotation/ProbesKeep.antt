-- ===== src/Controller/Rotation/ProbesKeep.antt =====
-- What the validation's and the canary's calls keep of the world: the probes of
-- `reconcileValidationProbes` and the network policy of the canary, in
-- internal/controller/dynamicsecretpolicy_controller.go.
use dynamic_secret_operator.Prelude.{ℕ, Option, none, some, List, [], ◌∷◌, ◌&&◌}
use dynamic_secret_operator.Api.{DynamicSecretPolicy, ValidationProbe, JobProbeSpec}
use dynamic_secret_operator.Canary.Endpoint.{Net}
use dynamic_secret_operator.Client.{
  Client, Conditions, Result, ok, err, not_found, already_exists, conflict, failed, Job, read,
  SecretData, Pod, Outcome,
}
use dynamic_secret_operator.Client.Keeps.{
  Keeps, branch-Keeps, if-Keeps, option-Keeps, list-Keeps, bind-Keeps, return-Keeps, fail-Keeps,
  read-Keeps, keeps_rules, CallsKeep,
}
use dynamic_secret_operator.Probes.Job.{
  ProbeJobState, running, succeeded, job_has_failed, timed_out,
}
use dynamic_secret_operator.Controller.Endpoint.{
  Target, run, wait, await_canary, choose_target, with_canary, resolve_canary_probe_endpoint,
  ready_pod, is_workload_probe, is_nil, is_late, any_crashing, canary_timeout,
}
use dynamic_secret_operator.Controller.Validation.{
  ProbeStep, passed, stop, settle_job, inspect_job, job_step, run_target, probe_step, is_job,
  run_probes, next_or, reconcile_validation_probes,
}
use dynamic_secret_operator.Controller.Provision.{provision_network, uses_cilium}

module _ (client : Client) (Q : client.State → Type 0) (keeps : CallsKeep client Q) where
  open keeps use {
    get_policy_keeps, get_workload_keeps, get_rollout_keeps, get_secret_keeps, get_job_keeps,
    list_secrets_keeps, list_jobs_keeps, fetch_vault_keeps, read_secret_keeps, get_deployment_keeps,
    list_pods_keeps, get_application_keeps, list_applications_keeps, update_application_keeps,
    retry_keeps, create_keeps, delete_keeps, run_probe_keeps, count_keeps, now_keeps,
    callback_keeps,
  }

  now_read-Keeps : Keeps Q (read client.now)
  now_read-Keeps = read-Keeps client.now now_keeps

  module _ (net : Net) where
    settle_job-Keeps :
        (policy : DynamicSecretPolicy) (j : Job) (state : ProbeJobState)
        → Keeps Q (settle_job net client policy j state)
    unfolding settle_job
    settle_job-Keeps policy j running = return-Keeps _
    settle_job-Keeps policy j succeeded = search (keeps_rules, delete_keeps, count_keeps) depth 6
    settle_job-Keeps policy j job_has_failed = search (keeps_rules, delete_keeps) depth 6
    settle_job-Keeps policy j timed_out = search (keeps_rules, delete_keeps) depth 6

    inspect_job-Keeps :
        (policy : DynamicSecretPolicy) (spec : JobProbeSpec) (r : Result Job)
        → Keeps Q (inspect_job net client policy spec r)
    unfolding inspect_job
    inspect_job-Keeps policy spec (ok j) =
        search (keeps_rules, now_read-Keeps, settle_job-Keeps) depth 6
    inspect_job-Keeps policy spec (err not_found) = search (keeps_rules, create_keeps) depth 9
    inspect_job-Keeps policy spec (err already_exists) = fail-Keeps _
    inspect_job-Keeps policy spec (err conflict) = fail-Keeps _
    inspect_job-Keeps policy spec (err (failed m)) = fail-Keeps _

    job_step-Keeps :
        (policy : DynamicSecretPolicy) (spec : Option JobProbeSpec)
        → Keeps Q (job_step net client policy spec)
    unfolding job_step
    job_step-Keeps policy none = fail-Keeps _
    job_step-Keeps policy (some spec) =
        search (keeps_rules, get_job_keeps, inspect_job-Keeps) depth 6

    run_target-Keeps :
        (policy : DynamicSecretPolicy) (entries : SecretData) (t : Target)
        → Keeps Q (run_target net client policy entries t)
    unfolding run_target
    run_target-Keeps policy entries (wait outcome) = return-Keeps _
    run_target-Keeps policy entries (run probe) =
        search (keeps_rules, run_probe_keeps, count_keeps) depth 9

    await_canary-Keeps :
        (probe : ValidationProbe) (created : Option ℕ) (pods : List Pod)
        → Keeps Q (await_canary net client probe created pods)
    unfolding await_canary
    await_canary-Keeps probe created pods = bind-Keeps now_read-Keeps (λ time.
        branch-Keeps (is_late created (canary_timeout probe) time) (λ _. fail-Keeps _)
          (λ _. if-Keeps (any_crashing pods) (λ _. fail-Keeps _) (λ _. return-Keeps _)))

    choose_target-Keeps :
        (probe : ValidationProbe) (created : Option ℕ) (pods : List Pod)
        → Keeps Q (choose_target net client probe created pods)
    unfolding choose_target
    choose_target-Keeps probe created pods =
        option-Keeps (ready_pod pods) (await_canary-Keeps probe created pods)
          (λ pod. return-Keeps _)

    with_canary-Keeps :
        (policy : DynamicSecretPolicy) (probe : ValidationProbe) (r : Result (Option ℕ))
        → Keeps Q (with_canary net client policy probe r)
    unfolding with_canary
    with_canary-Keeps policy probe (ok created) = bind-Keeps (list_pods_keeps _ _) (λ pods.
        if-Keeps (is_nil net client pods && client.has_probe_runner) (λ _. return-Keeps _)
          (λ _. choose_target-Keeps probe created pods))
    with_canary-Keeps policy probe (err not_found) = return-Keeps _
    with_canary-Keeps policy probe (err already_exists) = fail-Keeps _
    with_canary-Keeps policy probe (err conflict) = fail-Keeps _
    with_canary-Keeps policy probe (err (failed m)) = fail-Keeps _

    resolve-Keeps :
        (policy : DynamicSecretPolicy) (probe : ValidationProbe)
        → Keeps Q (resolve_canary_probe_endpoint net client policy probe)
    unfolding resolve_canary_probe_endpoint
    resolve-Keeps policy probe =
        branch-Keeps (is_workload_probe net probe policy.spec.workload_selector.name)
          (λ _. search (keeps_rules, get_deployment_keeps, with_canary-Keeps) depth 5)
          (λ _. return-Keeps _)

    probe_step-Keeps :
        (policy : DynamicSecretPolicy) (entries : SecretData) (probe : ValidationProbe)
        → Keeps Q (probe_step net client policy entries probe)
    unfolding probe_step
    probe_step-Keeps policy entries probe =
        branch-Keeps (is_job probe.type) (λ _. job_step-Keeps policy probe.job_spec)
          (λ _. bind-Keeps (resolve-Keeps policy probe) (λ t. run_target-Keeps policy entries t))

    next_or-Keeps :
        (step : ProbeStep) {m : client.State → Result Outcome × client.State}
        → Keeps Q m
        → Keeps Q (next_or net client step m)
    next_or-Keeps passed k = k
    next_or-Keeps (stop outcome) k = return-Keeps outcome

    run_probes-Keeps :
        (policy : DynamicSecretPolicy) (entries : SecretData) (probes : List ValidationProbe)
        → Keeps Q (run_probes net client policy entries probes)
    unfolding run_probes
    run_probes-Keeps policy entries [] = return-Keeps _
    run_probes-Keeps policy entries (p ∷ probes) =
        bind-Keeps (probe_step-Keeps policy entries p)
          (λ step. next_or-Keeps step (run_probes-Keeps policy entries probes))

    pub probes_keep :
        (policy : DynamicSecretPolicy) → Keeps Q (reconcile_validation_probes net client policy)
    unfolding reconcile_validation_probes
    probes_keep policy = list-Keeps policy.spec.validation_probes (return-Keeps _) (λ p probes.
        bind-Keeps (get_secret_keeps _)
          (λ secret. run_probes-Keeps policy secret.entries (p ∷ probes)))

    pub network-Keeps :
        (conds : Conditions) (policy : DynamicSecretPolicy)
        → Keeps Q (provision_network conds net client policy)
    unfolding provision_network
    network-Keeps conds policy =
        branch-Keeps (uses_cilium policy) (λ _. search (keeps_rules, create_keeps) depth 5)
          (λ _. search (keeps_rules, create_keeps) depth 7)
