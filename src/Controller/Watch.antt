-- ===== src/Controller/Watch.antt =====
-- The two mappers of watch events of internal/controller/dynamicsecretpolicy_controller.go.
pub mod Requests
use dynamic_secret_operator.Prelude.{
  Text, codes, text_eq, Bool, true, false, not, ◌&&◌, Option, none, some, List, [], ◌∷◌,
  if◌then◌else◌,
}
use dynamic_secret_operator.Api.{
  DynamicSecretPolicy, WorkloadKind, rollout, SourceType, k8s_secret, get_resolved_source,
}
use dynamic_secret_operator.Api.Pods.{value_of}
use dynamic_secret_operator.Client.{Result, ok, err, Key, Secret}
use dynamic_secret_operator.Controller.Materialize.{label_managed}

-- `client.List` in a namespace.
abbrev pub ListPolicies : Type 0 → Type 0
ListPolicies S = Text → S → Result (List DynamicSecretPolicy) × S

abbrev pub request : DynamicSecretPolicy → Key
request p = record { name = p.name; namespace = p.namespace }

-- The loop over the policies.
unfoldable pub requests : (DynamicSecretPolicy → Bool) → List DynamicSecretPolicy → List Key
requests p [] = []
requests p (x ∷ xs) = let rest = requests p xs in if p x then request x ∷ rest else rest

-- No request where the policies cannot be listed.
abbrev pub requests_of :
    {S : Type 0}
    → (DynamicSecretPolicy → Bool)
    → Result (List DynamicSecretPolicy) × S
    → List Key × S
requests_of p (ok policies, s) = (requests p policies, s)
requests_of p (err e, s) = ([], s)

abbrev pub is_k8s : SourceType → Bool
is_k8s k8s_secret = true
is_k8s type = false

abbrev is_rollout : WorkloadKind → Bool
is_rollout rollout = true
is_rollout kind = false

-- Whether a policy's source is the Secret of a name.
unfoldable pub reads_secret : Text → DynamicSecretPolicy → Bool
reads_secret name p =
    let src = get_resolved_source p.spec in
    is_k8s src.type && (elim src.k8s_secret_source [ none ↦ false | some k ↦ text_eq k.name name ])

unfoldable pub targets_rollout : Text → DynamicSecretPolicy → Bool
targets_rollout name p =
    is_rollout p.spec.workload_selector.kind && text_eq p.spec.workload_selector.name name

module _ {S : Type 0} (list_policies : ListPolicies S) where
  unfoldable pub find_policies_for_source_secret : Secret → S → List Key × S
  unfolding requests reads_secret value_of
  find_policies_for_source_secret secret s =
      if text_eq (value_of label_managed secret.labels) (codes "true")
      then ([], s)
      else requests_of (reads_secret secret.name) (list_policies secret.namespace s)

  -- For the name and the namespace of a Rollout.
  unfoldable pub find_policies_for_rollout : Key → S → List Key × S
  unfolding requests targets_rollout
  find_policies_for_rollout r s = requests_of (targets_rollout r.name) (list_policies r.namespace s)
