-- ===== src/Canary/NetworkPolicy.antt =====
-- `BuildNetworkPolicy` and `BuildCiliumNetworkPolicy` of internal/canary. The Cilium policy, an
-- unstructured object in the source, is a record of the parts that vary; its constant parts (the
-- API version, the selectors of the DNS rule) are the constructors.
pub mod Egress
use dynamic_secret_operator.Prelude.{ℕ, Text, codes, Option, none, some, List, [], ◌∷◌, ◌++◌, map}
use dynamic_secret_operator.Api.{
  DynamicSecretPolicy, ValidationProbe, ProbeType, tls, postgresql, mysql, http, job, other_probe,
}
use dynamic_secret_operator.Api.Pods.{Labels}
use dynamic_secret_operator.Canary.Deployment.{canary_labels, label_canary, label_target_workload}
use dynamic_secret_operator.Canary.Endpoint.{Net, extract_target_cidr_and_port}

pub data Protocol : Type 0 where
  tcp udp : Protocol

pub record Port : Type 0 where
  pub protocol : Protocol
  pub number : ℕ

-- The peers that the operator writes: an address block, every pod of the policy's namespace (an
-- empty pod selector), and the pods of any namespace whose `k8s-app` is among the values.
pub data Peer : Type 0 where
  ip_block : Text → Peer
  all_pods : Peer
  k8s_app_in : List Text → Peer

pub record EgressRule : Type 0 where
  pub to : List Peer
  pub ports : List Port

pub data PolicyType : Type 0 where
  ingress_type egress_type : PolicyType

pub record NetworkPolicy : Type 0 where
  pub name : Text
  pub namespace : Text
  pub labels : Labels
  pub pod_selector : Labels
  pub policy_types : List PolicyType
  pub ingress : List EgressRule
  pub egress : List EgressRule

abbrev pub dns_apps : List Text
dns_apps = codes "kube-dns" ∷ codes "coredns" ∷ []

abbrev pub dns_ports : List Port
dns_ports = record { protocol = udp; number = 53 } ∷ record { protocol = tcp; number = 53 } ∷ []

-- The mandatory rule for the cluster's DNS.
abbrev pub dns_rule : EgressRule
dns_rule = record { to = k8s_app_in dns_apps ∷ []; ports = dns_ports }

abbrev pub tcp_port : ℕ → Port
tcp_port n = record { protocol = tcp; number = n }

-- The peers of a rule: the addresses, or the pods of the namespace where there is none.
unfoldable pub peers : List Text → List Peer
peers [] = all_pods ∷ []
peers (c ∷ cidrs) = map ip_block (c ∷ cidrs)

pub record CiliumRule : Type 0 where
  pub cilium_ports : List Port
  pub to_cidr_set : List Text

pub record CiliumNetworkPolicy : Type 0 where
  pub name : Text
  pub namespace : Text
  pub labels : Labels
  pub endpoint_selector : Labels
  pub ingress : List CiliumRule
  -- `toEndpoints` of the DNS rule, and the rules of the probes behind it.
  pub dns_endpoints : List Text
  pub egress : List CiliumRule
  pub owner_name : Text
  pub owner_uid : Text

-- `append(rules, rule)` where there is a rule.
abbrev pub append_rule {ℓ} : {A : Type ℓ} → Option A → List A → List A
append_rule none rules = rules
append_rule (some r) rules = r ∷ rules

-- No address found: the rule is left out.
abbrev pub cilium_rule_to : List Text → List ℕ → Option CiliumRule
cilium_rule_to [] ports = none
cilium_rule_to (c ∷ cidrs) ports =
    some (record { cilium_ports = map tcp_port ports; to_cidr_set = c ∷ cidrs })

module _ (net : Net) where
  -- `probe.Type == ProbeTypeJob` makes the loop continue.
  unfoldable pub probe_rule : ProbeType → Text → Option EgressRule
  probe_rule job endpoint = none
  probe_rule type endpoint =
      let (cidrs, ports) = extract_target_cidr_and_port net endpoint type in
      some (record { to = peers cidrs; ports = map tcp_port ports })

  unfoldable pub probe_rules : List ValidationProbe → List EgressRule
  probe_rules [] = []
  probe_rules (p ∷ probes) = append_rule (probe_rule p.type p.endpoint) (probe_rules probes)

  unfoldable pub build_network_policy : DynamicSecretPolicy → NetworkPolicy
  build_network_policy policy = record {
    name = policy.spec.workload_selector.name ++ codes "-canary-netpol";
    namespace = policy.namespace;
    labels = canary_labels policy.spec.workload_selector.name;
    pod_selector = canary_labels policy.spec.workload_selector.name;
    policy_types = ingress_type ∷ egress_type ∷ [];
    ingress = [];
    egress = dns_rule ∷ probe_rules policy.spec.validation_probes;
  }

  unfoldable pub cilium_rule : ProbeType → Text → Option CiliumRule
  cilium_rule job endpoint = none
  cilium_rule type endpoint =
      let (cidrs, ports) = extract_target_cidr_and_port net endpoint type in
      cilium_rule_to cidrs ports

  unfoldable pub cilium_rules : List ValidationProbe → List CiliumRule
  cilium_rules [] = []
  cilium_rules (p ∷ probes) = append_rule (cilium_rule p.type p.endpoint) (cilium_rules probes)

  unfoldable pub build_cilium_network_policy : DynamicSecretPolicy → CiliumNetworkPolicy
  build_cilium_network_policy policy = record {
    name = policy.spec.workload_selector.name ++ codes "-canary-cilium-netpol";
    namespace = policy.namespace;
    labels =
        (codes "app.kubernetes.io/managed-by", codes "dynamic-secret-operator")
        ∷ canary_labels policy.spec.workload_selector.name;
    endpoint_selector = canary_labels policy.spec.workload_selector.name;
    ingress = [];
    dns_endpoints = dns_apps;
    egress = cilium_rules policy.spec.validation_probes;
    owner_name = policy.name;
    owner_uid = policy.uid;
  }
