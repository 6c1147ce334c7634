-- ===== src/Controller/Gc/Stale.antt =====
-- Which secrets `gcOldSecretRevisions` of internal/controller/dynamicsecretpolicy_controller.go
-- deletes.
use dynamic_secret_operator.Prelude.{
  Text, text_eq_iff, Bool-cases, true, false, List, [], ◌∷◌, ◌≡◌, ◌≢◌, ◌⊎◌, inl, inr, refl, arith,
}
use dynamic_secret_operator.Api.{DynamicSecretPolicy}
use dynamic_secret_operator.Api.Pods.{value_of}
use dynamic_secret_operator.Canary.Deployment.{label_target_workload}
use dynamic_secret_operator.Canary.Cleanup.{label_policy}
use dynamic_secret_operator.Workload.Mutate.{label_revision}
use dynamic_secret_operator.Client.{
  Client, Result, ok, err, Secret, secret_kind, ◌>>=◌, ◌>>◌, continue, return, attempt, ignore,
}
use dynamic_secret_operator.Controller.Gc.{
  is_stale, delete_stale, delete_listed, gc_old_secret_revisions,
}

-- The revision that a secret's label gives.
abbrev pub revision_of : Secret → Text
revision_of x = value_of label_revision x.labels

module _ (policy : DynamicSecretPolicy) where
  -- A secret of the desired or of the current revision.
  abbrev pub InUse : Secret → Type 0
  InUse x =
      (revision_of x ≡ policy.status.desired_revision)
      ⊎ (revision_of x ≡ policy.status.current_revision)

  stale_lem :
      (x : Secret)
      → is_stale policy x ≡ true
      → (revision_of x ≢ policy.status.desired_revision)
        × (revision_of x ≢ policy.status.current_revision)
  unfolding is_stale
  stale_lem x h = ground (
    arith,
    text_eq_iff (revision_of x) policy.status.desired_revision,
    text_eq_iff (revision_of x) policy.status.current_revision,
  )

  in_use_lem : (x : Secret) → is_stale policy x ≡ false → InUse x
  unfolding is_stale
  in_use_lem x h = ground (
    arith,
    text_eq_iff (revision_of x) policy.status.desired_revision,
    text_eq_iff (revision_of x) policy.status.current_revision,
  )

module _ (client : Client) (policy : DynamicSecretPolicy) where
  -- From one state to another, the secrets of a list that are not in use are deleted one after
  -- another, whatever each deletion answers, and nothing else is called.
  pub data Collects : List Secret → client.State → client.State → Type 0 where
    ends : {s : client.State} → Collects [] s s
    deletes :
        {x : Secret} {xs : List Secret} {s t : client.State}
        → revision_of x ≢ policy.status.desired_revision
        → revision_of x ≢ policy.status.current_revision
        → Collects xs
            (client.delete secret_kind (record { name = x.name; namespace = x.namespace }) s).1
            t
        → Collects (x ∷ xs) s t
    leaves :
        {x : Secret} {xs : List Secret} {s t : client.State}
        → InUse policy x
        → Collects xs s t
        → Collects (x ∷ xs) s t

  delete_stale-Collects :
      (xs : List Secret) (s : client.State) → Collects xs s (delete_stale client policy xs s).1
  unfolding delete_stale ◌>>◌ continue return ignore
  delete_stale-Collects [] s = ends
  delete_stale-Collects (x ∷ xs) s = elim (Bool-cases (is_stale policy x)) [
    | inl e ↦
        rw e
          (deletes (stale_lem policy x e).0 (stale_lem policy x e).1 (delete_stale-Collects xs _))
    | inr e ↦ rw e (leaves (in_use_lem policy x e) (delete_stale-Collects xs s))
  ]

  -- What becomes of the state behind the listing: nothing more, where it failed.
  abbrev pub Collected : Result (List Secret) × client.State → client.State → Type 0
  Collected (ok xs, s) t = Collects xs s t
  Collected (err e, s) t = t ≡ s

  delete_listed-Collected :
      (r : Result (List Secret) × client.State)
      → Collected r (delete_listed client policy r.0 r.1).1
  unfolding return
  delete_listed-Collected (ok xs, s) = delete_stale-Collects xs s
  delete_listed-Collected (err e, s) = refl

  -- The garbage collection lists the secrets of the policy's namespace with the labels of its
  -- target and its name, and then deletes each of them whose revision is neither the desired nor
  -- the current one, and no other, whatever the deletions answer. Where they cannot be listed it
  -- calls nothing else.
  pub gc_deletes_stale :
      (s : client.State)
      → Collected
          (client.list_secrets policy.namespace
            ((label_target_workload, policy.spec.workload_selector.name)
              ∷ (label_policy, policy.name)
              ∷ [])
            s)
          (gc_old_secret_revisions client policy s).1
  unfolding gc_old_secret_revisions ◌>>=◌ continue attempt
  gc_deletes_stale s = delete_listed-Collected (client.list_secrets policy.namespace _ s)
