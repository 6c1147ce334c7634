-- ===== src/Controller/Rotation/Keeps.antt =====
-- What the calls of a reconciliation keep of the world, but for the patches of the status and of
-- the workload.
use dynamic_secret_operator.Prelude.{Text, Bool, true, false, List, [], ◌∷◌, not, ◌||◌, is_empty}
use dynamic_secret_operator.Api.{
  DynamicSecretPolicy, WorkloadKind, SecretSource, get_resolved_source,
}
use dynamic_secret_operator.Canary.Cleanup.{cleanup_canary_resources, delete_jobs, delete_listed}
use dynamic_secret_operator.Integration.ArgoCd.{
  reconcile_argo_cd_ignore_differences, update_once, fetch_argo_cd_application, update_if, or_else,
  discover_argo_cd_app_name,
}
use dynamic_secret_operator.Client.{Client, Result, ok, err, Job, Secret, Workload, Application}
use dynamic_secret_operator.Client.Keeps.{
  Keeps, branch-Keeps, option-Keeps, then-Keeps, return-Keeps, ignore-Keeps, fail-Keeps,
  keeps_rules, CallsKeep,
}
use dynamic_secret_operator.Source.Provider.{
  Provider, Registry, azure_key_vault_provider, k8s_secret_provider, stub_provider, fetch_secret,
  fetch_azure, fetch_k8s,
}
use dynamic_secret_operator.Controller.Materialize.{materialize_secret_revision}
use dynamic_secret_operator.Controller.Gc.{is_stale, delete_stale, gc_old_secret_revisions}
use dynamic_secret_operator.Controller.Gc

module _ (client : Client) (Q : client.State → Type 0) (keeps : CallsKeep client Q) where
  open keeps use {
    get_policy_keeps, get_workload_keeps, get_rollout_keeps, get_secret_keeps, get_job_keeps,
    list_secrets_keeps, list_jobs_keeps, fetch_vault_keeps, read_secret_keeps, get_deployment_keeps,
    list_pods_keeps, get_application_keeps, list_applications_keeps, update_application_keeps,
    retry_keeps, create_keeps, delete_keeps, run_probe_keeps, count_keeps, now_keeps,
    callback_keeps,
  }

  delete_jobs-Keeps : (jobs : List Job) → Keeps Q (delete_jobs client jobs)
  unfolding delete_jobs
  delete_jobs-Keeps [] = return-Keeps tt
  delete_jobs-Keeps (j ∷ jobs) =
      then-Keeps (ignore-Keeps (delete_keeps _ _)) (delete_jobs-Keeps jobs)

  delete_listed-Keeps : (r : Result (List Job)) → Keeps Q (delete_listed client r)
  delete_listed-Keeps (ok jobs) = delete_jobs-Keeps jobs
  delete_listed-Keeps (err e) = return-Keeps tt

  pub cleanup-Keeps :
      (policy : DynamicSecretPolicy) → Keeps Q (cleanup_canary_resources client policy)
  unfolding cleanup_canary_resources
  cleanup-Keeps policy =
      search (keeps_rules, delete_keeps, list_jobs_keeps, delete_listed-Keeps) depth 9

  delete_stale-Keeps :
      (policy : DynamicSecretPolicy) (xs : List Secret) → Keeps Q (delete_stale client policy xs)
  unfolding delete_stale
  delete_stale-Keeps policy [] = return-Keeps tt
  delete_stale-Keeps policy (x ∷ xs) =
      then-Keeps
        (branch-Keeps (is_stale policy x) (λ _. ignore-Keeps (delete_keeps _ _))
          (λ _. return-Keeps tt))
        (delete_stale-Keeps policy xs)

  delete_listed_stale-Keeps :
      (policy : DynamicSecretPolicy) (r : Result (List Secret))
      → Keeps Q (Gc.delete_listed client policy r)
  delete_listed_stale-Keeps policy (ok xs) = delete_stale-Keeps policy xs
  delete_listed_stale-Keeps policy (err e) = return-Keeps tt

  pub gc-Keeps : (policy : DynamicSecretPolicy) → Keeps Q (gc_old_secret_revisions client policy)
  unfolding gc_old_secret_revisions
  gc-Keeps policy = search (keeps_rules, list_secrets_keeps, delete_listed_stale-Keeps) depth 5

  or_else-Keeps :
      (r : Result Application) {m : client.State → Result Application × client.State}
      → Keeps Q m
      → Keeps Q (or_else r m)
  or_else-Keeps (ok a) k = return-Keeps a
  or_else-Keeps (err e) k = k

  applications-Keeps : Keeps Q client.list_applications
  applications-Keeps = record { after = list_applications_keeps }

  fetch_application-Keeps :
      (name namespace : Text) → Keeps Q (fetch_argo_cd_application client name namespace)
  unfolding fetch_argo_cd_application
  fetch_application-Keeps name namespace =
      search (keeps_rules, get_application_keeps, applications-Keeps, or_else-Keeps) depth 9

  update_if-Keeps : (r : Application × Bool) → Keeps Q (update_if client r)
  update_if-Keeps (app, true) = update_application_keeps app
  update_if-Keeps (app, false) = return-Keeps tt

  update_once-Keeps :
      (name namespace : Text) (kind : WorkloadKind)
      → Keeps Q (update_once client name namespace kind)
  unfolding update_once
  update_once-Keeps name namespace kind =
      search (keeps_rules, fetch_application-Keeps, update_if-Keeps) depth 5

  pub argo_cd-Keeps :
      (w : Workload) (kind : WorkloadKind)
      → Keeps Q (reconcile_argo_cd_ignore_differences client w kind)
  unfolding reconcile_argo_cd_ignore_differences
  argo_cd-Keeps w kind =
      branch-Keeps (not client.auto_patch_enabled || is_empty (discover_argo_cd_app_name w))
        (λ _. return-Keeps tt) (λ _. search (keeps_rules, retry_keeps, update_once-Keeps) depth 5)

  fetch_azure-Keeps : (src : SecretSource) → Keeps Q (fetch_azure client src)
  unfolding fetch_azure
  fetch_azure-Keeps src =
      option-Keeps src.azure_key_vault_source (fail-Keeps _)
        (λ kv. search (keeps_rules, fetch_vault_keeps) depth 5)

  fetch_k8s-Keeps :
      (policy : DynamicSecretPolicy) (src : SecretSource) → Keeps Q (fetch_k8s client policy src)
  unfolding fetch_k8s
  fetch_k8s-Keeps policy src =
      option-Keeps src.k8s_secret_source (fail-Keeps _)
        (λ k. search (keeps_rules, read_secret_keeps) depth 5)

  fetch_secret-Keeps :
      (p : Provider) (policy : DynamicSecretPolicy) → Keeps Q (fetch_secret client p policy)
  unfolding fetch_secret
  fetch_secret-Keeps azure_key_vault_provider policy =
      fetch_azure-Keeps (get_resolved_source policy.spec)
  fetch_secret-Keeps k8s_secret_provider policy =
      fetch_k8s-Keeps policy (get_resolved_source policy.spec)
  fetch_secret-Keeps (stub_provider n m) policy = fail-Keeps _

  pub materialize-Keeps :
      (registry : Registry) (policy : DynamicSecretPolicy)
      → Keeps Q (materialize_secret_revision client registry policy)
  unfolding materialize_secret_revision
  materialize-Keeps registry policy =
      search (keeps_rules, fetch_secret-Keeps, create_keeps) depth 12
