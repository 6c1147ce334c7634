-- ===== src/Canary/Cleanup.antt =====
-- `CleanupCanaryResources` of internal/canary/cleanup.go.
use dynamic_secret_operator.Prelude.{Text, codes, List, [], ◌∷◌, ◌++◌}
use dynamic_secret_operator.Api.{DynamicSecretPolicy}
use dynamic_secret_operator.Client.{
  Client, Result, ok, err, Job, deployment_kind, network_policy_kind, cilium_kind, job_kind, ◌>>=◌,
  ◌>>◌, return, attempt, ignore, deleting,
}

-- The label "dso.quantumsys.dev/policy" of a policy's objects.
abbrev pub label_policy : Text
label_policy = codes "dso.quantumsys.dev/policy"

module _ (client : Client) where
  open client use {State, delete, list_jobs}

  -- The loop over the probe Jobs: a failed deletion is logged.
  unfoldable pub delete_jobs : List Job → State → Result (Unit {0}) × State
  delete_jobs [] = return tt
  delete_jobs (j ∷ jobs) = do
    ignore (delete job_kind (record { name = j.name; namespace = j.namespace }))
    delete_jobs jobs

  -- `err == nil` guards the loop.
  abbrev pub delete_listed : Result (List Job) → State → Result (Unit {0}) × State
  delete_listed (ok jobs) = delete_jobs jobs
  delete_listed (err e) = return tt

  unfoldable pub cleanup_canary_resources : DynamicSecretPolicy → State → Result (Unit {0}) × State
  cleanup_canary_resources policy = do
    let target = policy.spec.workload_selector.name
    deleting (
        delete deployment_kind
          (record { name = target ++ codes "-canary"; namespace = policy.namespace }))
    deleting (
        delete network_policy_kind
          (record { name = target ++ codes "-canary-netpol"; namespace = policy.namespace }))
    ignore (
        delete cilium_kind
          (record { name = target ++ codes "-canary-cilium-netpol"; namespace = policy.namespace }))
    listed ← attempt (list_jobs policy.namespace ((label_policy, policy.name) ∷ []))
    delete_listed listed
