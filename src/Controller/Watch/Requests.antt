-- ===== src/Controller/Watch/Requests.antt =====
-- Which policies the mappers of internal/controller/dynamicsecretpolicy_controller.go ask to be
-- reconciled.
use mathlib.Core.List.{Memᴰ}
use mathlib.Core.List.Memᴰ.{head, tail}
use dynamic_secret_operator.Prelude.{
  Text, codes, text_eq, text_eq_iff, text_eq_refl, text_eq_of_ne, sym, ap, subst, Bool, Bool-cases,
  true, false, Option, none, some, List, [], ◌∷◌, if◌then◌else◌, inl, inr, ◌≡◌, ◌≢◌, ◌↔◌, refl,
  arith,
}
use dynamic_secret_operator.Api.{
  DynamicSecretPolicy, K8sSecretSource, SourceType, k8s_secret, get_resolved_source,
}
use dynamic_secret_operator.Api.Pods.{value_of}
use dynamic_secret_operator.Client.{ok, Key, Secret}
use dynamic_secret_operator.Controller.Materialize.{label_managed}
use dynamic_secret_operator.Controller.Watch.{
  ListPolicies, request, requests, is_k8s, reads_secret, find_policies_for_source_secret,
}

-- A request stands for a policy that passes the test.
abbrev pub Requested : (DynamicSecretPolicy → Bool) → List DynamicSecretPolicy → Key → Type 0
Requested f policies key =
    (p : DynamicSecretPolicy) × Memᴰ p policies × (f p ≡ true) × (key ≡ request p)

mem-requests :
    (f : DynamicSecretPolicy → Bool) (policies : List DynamicSecretPolicy) (key : Key)
    → Memᴰ key (requests f policies)
    → Requested f policies key
unfolding requests
mem-requests f [] key m = elim m [ ]
mem-requests f (x ∷ xs) key m = by_test (f x) refl (mem-requests f xs key) m
  where
    later : Requested f xs key → Requested f (x ∷ xs) key
    later (p, i, e, k) = (p, tail i, e, k)

    by_test :
        (b : Bool)
        → f x ≡ b
        → (Memᴰ key (requests f xs) → Requested f xs key)
        → Memᴰ key (if b then request x ∷ requests f xs else requests f xs)
        → Requested f (x ∷ xs) key
    by_test true e ih (head k) = (x, head refl, e, k)
    by_test true e ih (tail n) = later (ih n)
    by_test false e ih n = later (ih n)

requests_mem :
    (f : DynamicSecretPolicy → Bool) (policies : List DynamicSecretPolicy) (p : DynamicSecretPolicy)
    → Memᴰ p policies
    → f p ≡ true
    → Memᴰ (request p) (requests f policies)
unfolding requests
requests_mem f [] p m e = elim m [ ]
requests_mem f (x ∷ xs) p (head k) e = rw (sym k, e) (head refl)
requests_mem f (x ∷ xs) p (tail m) e = by_test (f x) (requests_mem f xs p m e)
  where
    by_test :
        (b : Bool)
        → Memᴰ (request p) (requests f xs)
        → Memᴰ (request p) (if b then request x ∷ requests f xs else requests f xs)
    by_test true i = tail i
    by_test false i = i

-- A policy ingests a Secret: its source is one of Kubernetes, and names this Secret.
abbrev pub Ingests : Secret → DynamicSecretPolicy → Type 0
Ingests secret p =
    ((get_resolved_source p.spec).type ≡ k8s_secret)
    × ((k : K8sSecretSource) × ((get_resolved_source p.spec).k8s_secret_source ≡ some k)
        × (k.name ≡ secret.name))

is_k8s_iff : (t : SourceType) → (is_k8s t ≡ true) ↔ (t ≡ k8s_secret)
is_k8s_iff t = ground arith

names_iff :
    (o : Option K8sSecretSource) (name : Text)
    → ((elim o as (λ _. Bool) [ none ↦ false | some k ↦ text_eq k.name name ]) ≡ true)
      ↔ ((k : K8sSecretSource) × (o ≡ some k) × (k.name ≡ name))
names_iff none name = (λ e. cc, λ (k, e, n). cc)
names_iff (some k) name = (
  λ e. (k, refl, (text_eq_iff k.name name).0 e),
  λ (j, e, n). let same : k ≡ j = cc e in (text_eq_iff k.name name).1 (cc (same, n)),
)

reads_secret-Ingests :
    (secret : Secret) (p : DynamicSecretPolicy)
    → (reads_secret secret.name p ≡ true) ↔ Ingests secret p
unfolding reads_secret
reads_secret-Ingests secret p = ground (
  arith,
  is_k8s_iff (get_resolved_source p.spec).type,
  names_iff (get_resolved_source p.spec).k8s_secret_source secret.name,
)

-- A request, by the namespace and the name of a policy that ingests the Secret.
abbrev pub AsksFor : Secret → List DynamicSecretPolicy → Key → Type 0
AsksFor secret policies key =
    (p : DynamicSecretPolicy) × Memᴰ p policies
    × Ingests secret p
    × (key.name ≡ p.name)
    × (key.namespace ≡ p.namespace)

request_eq :
    (key : Key) (p : DynamicSecretPolicy)
    → key.name ≡ p.name
    → key.namespace ≡ p.namespace
    → key ≡ request p
request_eq key p e f = λ i. record { name = e i; namespace = f i }

Requested-AsksFor :
    (secret : Secret) (policies : List DynamicSecretPolicy) (key : Key)
    → Requested (reads_secret secret.name) policies key ↔ AsksFor secret policies key
Requested-AsksFor secret policies key = (
  λ (p, m, e, k).
      (p, m, (reads_secret-Ingests secret p).0 e, ap (λ q. q.name) k, ap (λ q. q.namespace) k),
  λ (p, m, h, e, f). (p, m, (reads_secret-Ingests secret p).1 h, request_eq key p e f),
)

no_member : (key : Key) (keys : List Key) → keys ≡ [] → Memᴰ key keys → ⊥
no_member key keys e m = elim (subst (Memᴰ key) e m) [ ]

module _ {S : Type 0} (list_policies : ListPolicies S) where
  requests_iff :
      (secret : Secret) (s t : S) (policies : List DynamicSecretPolicy) (key : Key)
      → value_of label_managed secret.labels ≢ codes "true"
      → list_policies secret.namespace s ≡ (ok policies, t)
      → Memᴰ key (find_policies_for_source_secret list_policies secret s).0
        ↔ Requested (reads_secret secret.name) policies key
  unfolding find_policies_for_source_secret
  requests_iff secret s t policies key unmanaged listed =
      let test = text_eq_of_ne (value_of label_managed secret.labels) (codes "true") unmanaged in
      rw (find_policies_for_source_secret, test, listed)
        (
          mem-requests (reads_secret secret.name) policies key,
          λ (p, m, e, k). rw k (requests_mem (reads_secret secret.name) policies p m e),
        )

  managed_ignored :
      (secret : Secret) (s : S)
      → value_of label_managed secret.labels ≡ codes "true"
      → (find_policies_for_source_secret list_policies secret s).0 ≡ []
  unfolding find_policies_for_source_secret
  managed_ignored secret s e = rw (e, text_eq_refl (codes "true"))

  -- Where the policies of its namespace are listed, an event of a Secret asks for the
  -- reconciliation of exactly those of the list that ingest it (whose source is of Kubernetes and
  -- names the Secret), each by its name and namespace; and a Secret that carries the operator's
  -- label of managed secrets asks for none.
  pub find_policies_iff :
      (secret : Secret) (s t : S) (policies : List DynamicSecretPolicy) (key : Key)
      → list_policies secret.namespace s ≡ (ok policies, t)
      → Memᴰ key (find_policies_for_source_secret list_policies secret s).0
        ↔ ((value_of label_managed secret.labels ≢ codes "true") × AsksFor secret policies key)
  find_policies_iff secret s t policies key listed =
      let requested = Requested-AsksFor secret policies key in
      let labels = value_of label_managed secret.labels in
      (
        λ m. elim (Bool-cases (text_eq labels (codes "true"))) [
          | inl e ↦
              absurd (no_member key _ (managed_ignored secret s ((text_eq_iff labels _).0 e)) m)
          | inr e ↦
              let unmanaged : labels ≢ codes "true" =
                λ i. ground (arith, text_eq_iff labels (codes "true")) in
              (unmanaged, requested.0 ((requests_iff secret s t policies key unmanaged listed).0 m))
        ],
        λ (unmanaged, h). (requests_iff secret s t policies key unmanaged listed).1 (requested.1 h),
      )
