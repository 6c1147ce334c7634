-- ===== src/Controller/Validation.antt =====
-- `reconcileValidationProbes` of internal/controller/dynamicsecretpolicy_controller.go: the probes in
-- the policy's order, up to the first that fails or is to be awaited.
use dynamic_secret_operator.Prelude.{
  ℕ, Text, codes, Bool, true, false, Option, none, some, List, [], ◌∷◌, ltb, if◌then◌else◌,
}
use dynamic_secret_operator.Api.{
  DynamicSecretPolicy, ValidationProbe, JobProbeSpec, ProbeType, job, get_vault_object_name,
}
use dynamic_secret_operator.Workload.Names.{revision_secret_name}
use dynamic_secret_operator.Canary.Endpoint.{Net}
use dynamic_secret_operator.Client.{
  Client, Key, Result, ok, err, Error, not_found, failed, Job, SecretData, Object, job_object,
  job_kind, probe_duration, Outcome, requeue_after, ◌>>=◌, ◌>>◌, return, fail, lift, attempt,
  ignore, effect, read, creating,
}
use dynamic_secret_operator.Client
use dynamic_secret_operator.Probes.JobName.{derive_probe_job_name}
use dynamic_secret_operator.Probes.Job.{
  build_probe_job, ProbeJobState, running, succeeded, job_has_failed, timed_out,
  evaluate_job_status,
}
use dynamic_secret_operator.Controller.Endpoint.{Target, run, wait, resolve_canary_probe_endpoint}

-- The loop goes on behind a probe that has passed.
pub data ProbeStep : Type 0 where
  passed : ProbeStep
  stop : Outcome → ProbeStep

-- The name of the secret under validation.
abbrev pub desired_secret_name : DynamicSecretPolicy → Text
desired_secret_name policy =
    revision_secret_name policy.spec.workload_selector.name (get_vault_object_name policy.spec)
      policy.status.desired_revision

-- 60 seconds, unless the probe gives a positive timeout.
unfoldable pub job_timeout : JobProbeSpec → ℕ
job_timeout spec = elim spec.timeout_seconds [ none ↦ 60 | some n ↦ if ltb 0 n then n else 60 ]

abbrev pub is_job : ProbeType → Bool
is_job job = true
is_job type = false

module _ (net : Net) (client : Client) where
  open client use {
    State, get_secret, get_job, create, delete, set_controller_reference, now, count_metric,
    run_probe,
  }

  -- The probe's Job, by its state; a finished one is deleted.
  unfoldable pub settle_job :
      DynamicSecretPolicy → Job → ProbeJobState → State → Result ProbeStep × State
  settle_job policy j running = return (stop (requeue_after 2))
  settle_job policy j succeeded = do
    ignore (delete job_kind (record { name = j.name; namespace = j.namespace }))
    effect (count_metric probe_duration policy.namespace)
    return passed
  settle_job policy j job_has_failed = do
    ignore (delete job_kind (record { name = j.name; namespace = j.namespace }))
    fail (failed (codes "job probe failed"))
  settle_job policy j timed_out = do
    ignore (delete job_kind (record { name = j.name; namespace = j.namespace }))
    fail (failed (codes "job probe timed out"))

  -- A Job that is missing is created, and any other is evaluated.
  unfoldable pub inspect_job :
      DynamicSecretPolicy → JobProbeSpec → Result Job → State → Result ProbeStep × State
  unfolding settle_job
  inspect_job policy spec (err not_found) = do
    owned ← lift (
        set_controller_reference policy
          (job_object (build_probe_job policy spec (desired_secret_name policy))))
    creating (create owned)
    return (stop (requeue_after 2))
  inspect_job policy spec (err e) = fail e
  inspect_job policy spec (ok j) = do
    time ← read now
    settle_job policy j (evaluate_job_status j (job_timeout spec) time)

  unfoldable pub job_step :
      DynamicSecretPolicy → Option JobProbeSpec → State → Result ProbeStep × State
  unfolding inspect_job
  job_step policy none = fail (failed (codes "job probe spec is required when probe type is Job"))
  job_step policy (some spec) = do
    found ← attempt (
        get_job (record {
          name = derive_probe_job_name policy.name (desired_secret_name policy);
          namespace = policy.namespace;
        }))
    inspect_job policy spec found

  -- A network probe runs against its target, if that is there.
  unfoldable pub run_target :
      DynamicSecretPolicy → SecretData → Target → State → Result ProbeStep × State
  run_target policy entries (wait outcome) = return (stop outcome)
  run_target policy entries (run probe) = do
    result ← attempt (run_probe probe entries)
    effect (count_metric probe_duration policy.namespace)
    lift result
    return passed

  unfoldable pub probe_step :
      DynamicSecretPolicy → SecretData → ValidationProbe → State → Result ProbeStep × State
  unfolding job_step run_target
  probe_step policy entries probe = elim (is_job probe.type) [
    | true ↦ job_step policy probe.job_spec
    | false ↦ do
      target ← resolve_canary_probe_endpoint net client policy probe
      run_target policy entries target
  ]

  abbrev pub next_or : ProbeStep → (State → Result Outcome × State) → State → Result Outcome × State
  next_or passed k = k
  next_or (stop outcome) k = return outcome

  -- The loop over the probes.
  unfoldable pub run_probes :
      DynamicSecretPolicy → SecretData → List ValidationProbe → State → Result Outcome × State
  unfolding probe_step
  run_probes policy entries [] = return Client.done
  run_probes policy entries (p ∷ probes) = do
    step ← probe_step policy entries p
    next_or step (run_probes policy entries probes)

  unfoldable pub reconcile_validation_probes : DynamicSecretPolicy → State → Result Outcome × State
  unfolding run_probes
  reconcile_validation_probes policy = elim policy.spec.validation_probes [
    | [] ↦ return Client.done
    | p ∷ probes ↦ do
      secret ←
          get_secret (record { name = desired_secret_name policy; namespace = policy.namespace })
      run_probes policy secret.entries (p ∷ probes)
  ]
