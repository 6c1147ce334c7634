-- ===== src/Controller/Gc.antt =====
-- `gcOldSecretRevisions` of internal/controller/dynamicsecretpolicy_controller.go.
pub mod Stale
use dynamic_secret_operator.Api.Pods.{value_of}
use dynamic_secret_operator.Prelude.{text_eq, not, ◌&&◌, List, [], ◌∷◌, Bool, true, false}
use dynamic_secret_operator.Api.{DynamicSecretPolicy}
use dynamic_secret_operator.Workload.Mutate.{label_revision}
use dynamic_secret_operator.Canary.Deployment.{label_target_workload}
use dynamic_secret_operator.Canary.Cleanup.{label_policy}
use dynamic_secret_operator.Client.{
  Client, Result, ok, err, Secret, secret_kind, ◌>>=◌, ◌>>◌, return, attempt, ignore,
}

-- Neither the desired nor the current revision.
unfoldable pub is_stale : DynamicSecretPolicy → Secret → Bool
is_stale policy s =
    not (text_eq (value_of label_revision s.labels) policy.status.desired_revision)
    && not (text_eq (value_of label_revision s.labels) policy.status.current_revision)

module _ (client : Client) where
  open client use {State, list_secrets, delete}

  -- The loop over the policy's secrets; a failed deletion is dropped.
  unfoldable pub delete_stale :
      DynamicSecretPolicy → List Secret → State → Result (Unit {0}) × State
  delete_stale policy [] = return tt
  delete_stale policy (x ∷ secrets) = do
    elim (is_stale policy x) [
      | true ↦ ignore (delete secret_kind (record { name = x.name; namespace = x.namespace }))
      | false ↦ return tt
    ]
    delete_stale policy secrets

  abbrev pub delete_listed :
      DynamicSecretPolicy → Result (List Secret) → State → Result (Unit {0}) × State
  delete_listed policy (ok secrets) = delete_stale policy secrets
  delete_listed policy (err e) = return tt

  unfoldable pub gc_old_secret_revisions : DynamicSecretPolicy → State → Result (Unit {0}) × State
  unfolding delete_stale
  gc_old_secret_revisions policy = do
    secrets ← attempt (
        list_secrets policy.namespace (
          (label_target_workload, policy.spec.workload_selector.name)
          ∷ (label_policy, policy.name)
          ∷ []))
    delete_listed policy secrets
