-- ===== src/Canary/NetworkPolicy/Egress.antt =====
-- The egress that the two network policies of internal/canary leave open.
use dynamic_secret_operator.Prelude.{
  ℕ, Text, List, [], ◌∷◌, Option, none, some, map, All, All-imp, ◌⊎◌, inl, inr, ◌≢◌, ◌≡◌, refl,
  arith,
}
use mathlib.Core.List.{Memᴰ}
use dynamic_secret_operator.Api.{
  DynamicSecretPolicy, ValidationProbe, ProbeType, tls, postgresql, mysql, http, job, other_probe,
}
use dynamic_secret_operator.Canary.Endpoint.{Net, extract_target_cidr_and_port}
use dynamic_secret_operator.Canary.Endpoint.Laws.{IsNetworkProbe, ports-ne-nil}
use dynamic_secret_operator.Canary.NetworkPolicy.{
  ip_block, tcp_port, peers, EgressRule, CiliumRule, append_rule, cilium_rule_to, probe_rule,
  probe_rules, build_network_policy, cilium_rule, cilium_rules, build_cilium_network_policy,
  dns_rule, ingress_type, egress_type,
}

-- The probe types that the resource's schema admits.
abbrev pub IsKnown : ValidationProbe → Type 0
IsKnown p = (p.type ≡ job) ⊎ IsNetworkProbe p.type

-- A rule with no peer, or no port, allows all of them.
abbrev pub IsClosed : EgressRule → Type 0
IsClosed r = (r.to ≢ []) × (r.ports ≢ [])

abbrev pub CiliumIsClosed : CiliumRule → Type 0
CiliumIsClosed r = (r.to_cidr_set ≢ []) × (r.cilium_ports ≢ [])

abbrev OptionIs {ℓ} : {A : Type ℓ} → (A → Type 0) → Option A → Type 0
OptionIs P none = Unit
OptionIs P (some a) = P a

All-append_rule {ℓ} :
    {A : Type ℓ} (P : A → Type 0) (o : Option A) (xs : List A)
    → OptionIs P o
    → All P xs
    → All P (append_rule o xs)
All-append_rule P none xs _ h = h
All-append_rule P (some a) xs p h = (p, h)

map-ne-nil {ℓ κ} : {A : Type ℓ} {B : Type κ} (f : A → B) (xs : List A) → xs ≢ [] → map f xs ≢ []
map-ne-nil f [] h = absurd (h refl)
map-ne-nil f (x ∷ xs) h = cc

peers-ne-nil : (cidrs : List Text) → peers cidrs ≢ []
unfolding peers
peers-ne-nil [] = cc
peers-ne-nil (c ∷ cidrs) = cc

-- A Cilium rule is the standard rule of the same probe.
abbrev pub as_standard : CiliumRule → EgressRule
as_standard r = record { to = map ip_block r.to_cidr_set; ports = r.cilium_ports }

append_rule-Mem :
    (oc : Option CiliumRule) (os : Option EgressRule) (cs : List CiliumRule) (rs : List EgressRule)
    → ((c : CiliumRule) → oc ≡ some c → os ≡ some (as_standard c))
    → All (λ r. Memᴰ (as_standard r) rs) cs
    → All (λ r. Memᴰ (as_standard r) (append_rule os rs)) (append_rule oc cs)
append_rule-Mem none none cs rs h m = m
append_rule-Mem none (some r) cs rs h m = All-imp _ _ (λ c k. Memᴰ.tail k) cs m
append_rule-Mem (some c) none cs rs h m = cc (h c refl)
append_rule-Mem (some c) (some r) cs rs h m =
    (Memᴰ.head (cc (h c refl)), All-imp _ _ (λ b k. Memᴰ.tail k) cs m)

module _ (net : Net) where
  targets : Text → ProbeType → List Text × List ℕ
  targets e t = extract_target_cidr_and_port net e t

  probe_rule-IsClosed :
      (e : Text) (t : ProbeType)
      → (t ≡ job) ⊎ IsNetworkProbe t
      → OptionIs IsClosed (probe_rule net t e)
  unfolding probe_rule
  probe_rule-IsClosed e t (inl is_job) = rw is_job tt
  probe_rule-IsClosed e tls (inr p) = (peers-ne-nil _, map-ne-nil tcp_port _ (ports-ne-nil net e p))
  probe_rule-IsClosed e postgresql (inr p) =
      (peers-ne-nil _, map-ne-nil tcp_port _ (ports-ne-nil net e p))
  probe_rule-IsClosed e mysql (inr p) =
      (peers-ne-nil _, map-ne-nil tcp_port _ (ports-ne-nil net e p))
  probe_rule-IsClosed e http (inr p) =
      (peers-ne-nil _, map-ne-nil tcp_port _ (ports-ne-nil net e p))
  probe_rule-IsClosed e job (inr p) = tt
  probe_rule-IsClosed e (other_probe t) (inr p) = elim p [ ]

  probe_rules-IsClosed :
      (ps : List ValidationProbe) → All IsKnown ps → All IsClosed (probe_rules net ps)
  unfolding probe_rules
  probe_rules-IsClosed [] h = tt
  probe_rules-IsClosed (p ∷ ps) (k, h) =
      All-append_rule IsClosed _ _ (probe_rule-IsClosed p.endpoint p.type k)
        (probe_rules-IsClosed ps h)

  -- The canary's NetworkPolicy denies all ingress and, for probes of the schema's types, leaves no
  -- egress rule open: each names at least one peer and at least one port.
  pub build_network_policy-IsClosed :
      (policy : DynamicSecretPolicy)
      → All IsKnown policy.spec.validation_probes
      → let np = build_network_policy net policy in
        (np.policy_types ≡ ingress_type ∷ egress_type ∷ [])
        × (np.ingress ≡ [])
        × All IsClosed np.egress
  unfolding build_network_policy
  build_network_policy-IsClosed policy h =
      let dns : IsClosed dns_rule = ((λ e. cc), (λ e. cc)) in
      (refl, refl, (dns, probe_rules-IsClosed policy.spec.validation_probes h))

  cilium_rule_to-IsClosed :
      (cidrs : List Text) (ports : List ℕ)
      → ports ≢ []
      → OptionIs CiliumIsClosed (cilium_rule_to cidrs ports)
  cilium_rule_to-IsClosed [] ports h = tt
  cilium_rule_to-IsClosed (c ∷ cidrs) ports h = ((λ e. cc), map-ne-nil tcp_port ports h)

  cilium_rule-IsClosed :
      (e : Text) (t : ProbeType)
      → (t ≡ job) ⊎ IsNetworkProbe t
      → OptionIs CiliumIsClosed (cilium_rule net t e)
  unfolding cilium_rule
  cilium_rule-IsClosed e t (inl is_job) = rw is_job tt
  cilium_rule-IsClosed e tls (inr p) = cilium_rule_to-IsClosed _ _ (ports-ne-nil net e p)
  cilium_rule-IsClosed e postgresql (inr p) = cilium_rule_to-IsClosed _ _ (ports-ne-nil net e p)
  cilium_rule-IsClosed e mysql (inr p) = cilium_rule_to-IsClosed _ _ (ports-ne-nil net e p)
  cilium_rule-IsClosed e http (inr p) = cilium_rule_to-IsClosed _ _ (ports-ne-nil net e p)
  cilium_rule-IsClosed e job (inr p) = tt
  cilium_rule-IsClosed e (other_probe t) (inr p) = elim p [ ]

  cilium_rules-IsClosed :
      (ps : List ValidationProbe) → All IsKnown ps → All CiliumIsClosed (cilium_rules net ps)
  unfolding cilium_rules
  cilium_rules-IsClosed [] h = tt
  cilium_rules-IsClosed (p ∷ ps) (k, h) =
      All-append_rule CiliumIsClosed _ _ (cilium_rule-IsClosed p.endpoint p.type k)
        (cilium_rules-IsClosed ps h)

  cilium_rule-standard :
      (t : ProbeType) (e : Text) (c : CiliumRule)
      → cilium_rule net t e ≡ some c
      → probe_rule net t e ≡ some (as_standard c)
  unfolding cilium_rule probe_rule peers
  cilium_rule-standard t e c h = ground arith

  cilium_rules-Mem :
      (ps : List ValidationProbe)
      → All (λ r. Memᴰ (as_standard r) (probe_rules net ps)) (cilium_rules net ps)
  unfolding cilium_rules probe_rules
  cilium_rules-Mem [] = tt
  cilium_rules-Mem (p ∷ ps) =
      append_rule-Mem (cilium_rule net p.type p.endpoint) (probe_rule net p.type p.endpoint)
        (cilium_rules net ps) (probe_rules net ps) (cilium_rule-standard p.type p.endpoint)
        (cilium_rules-Mem ps)

  -- For probes of the schema's types, every probe rule of the Cilium policy names at least one
  -- address and one port, and is a rule of the standard policy: Cilium allows no probe traffic
  -- that the standard policy denies.
  pub build_cilium_network_policy-IsClosed :
      (policy : DynamicSecretPolicy)
      → All IsKnown policy.spec.validation_probes
      → let cnp = build_cilium_network_policy net policy in
        (cnp.ingress ≡ [])
        × All CiliumIsClosed cnp.egress
        × All (λ r. Memᴰ (as_standard r) (build_network_policy net policy).egress) cnp.egress
  unfolding build_cilium_network_policy build_network_policy
  build_cilium_network_policy-IsClosed policy h =
      let probes = policy.spec.validation_probes in
      (
        refl,
        cilium_rules-IsClosed probes h,
        All-imp _ _ (λ c m. Memᴰ.tail m) (cilium_rules net probes) (cilium_rules-Mem probes),
      )
