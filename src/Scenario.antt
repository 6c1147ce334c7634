-- ===== src/Scenario.antt =====
-- Concrete inputs: a policy, a pod template, a cluster that answers every call with a fixed answer,
-- and the condition helpers on a list. The modules below apply the theorems to them.
pub mod Conditions
pub mod Machine
pub mod Templates
pub mod Canaries
pub mod Probes
pub mod Events
pub mod KeyVault
pub mod Executors
pub mod Completion
pub mod Watch
use dynamic_secret_operator.Prelude.{
  ℕ, Text, codes, Bool, true, false, Option, none, some, List, [], ◌∷◌, ◌++◌,
}
use dynamic_secret_operator.Api.{
  DynamicSecretPolicy, DynamicSecretPolicySpec, DynamicSecretPolicyStatus, SecretSource,
  VaultReference, TargetRef, ValidationProbe, WorkloadKind, ProbeType, secret_object, k8s_secret,
  empty_source,
}
use dynamic_secret_operator.Api.Pods.{PodTemplateSpec, Container, Volume, EnvVar, JobTemplate}
use dynamic_secret_operator.Workload.Mutate.{label_revision}
use dynamic_secret_operator.Canary.Endpoint.{Net}
use dynamic_secret_operator.Client.{
  Client, Result, ok, err, not_found, Workload, Rollout, healthy, Secret, opaque, deployment_object,
}

abbrev pub fresh : DynamicSecretPolicyStatus
fresh = record {
  current_revision = [];
  desired_revision = [];
  consecutive_failures = 0;
  conditions = [];
}

-- A legacy policy for the object "db" of the workload "web".
abbrev pub legacy_spec : WorkloadKind → List ValidationProbe → DynamicSecretPolicySpec
legacy_spec kind probes = record {
  source = none;
  vault_ref = record {
    key_vault_uri = codes "https://v";
    object_name = codes "db";
    object_type = secret_object;
  };
  network_policy = none;
  workload_selector = record { kind = kind; name = codes "web" };
  validation_probes = probes;
  rollback_config = none;
  target_ref = none;
}

abbrev pub policy_of : DynamicSecretPolicySpec → DynamicSecretPolicyStatus → DynamicSecretPolicy
policy_of spec status = record {
  name = codes "p";
  namespace = codes "ns";
  uid = codes "1";
  spec = spec;
  status = status;
}

abbrev pub probe_of : ProbeType → Text → ValidationProbe
probe_of type endpoint = record {
  type = type;
  endpoint = endpoint;
  query_timeout = 0;
  credentials = none;
  job_spec = none;
}

abbrev pub empty_template : PodTemplateSpec
empty_template = record {
  labels = [];
  annotations = [];
  volumes = [];
  containers = [];
  init_containers = [];
  rest = [];
}

-- No name resolves, and every port is 5432.
abbrev pub offline : Net
offline = record {
  parse_url = λ t. none;
  parse_cidr = λ t. none;
  parse_ip = λ t. none;
  split_host_port = λ t. none;
  atoi = λ t. some 5432;
  join_host_port = λ h p. h;
  replace_host = λ u h. u;
  to_lower = λ t. t;
  quote = λ t. b'"' ∷ (t ++ codes "\"");
  lookup_ip = λ t. none;
}

-- The patches of a status, each with the policy as it was read, and the patches of a workload.
pub record World : Type 0 where
  pub patches : List (DynamicSecretPolicy × DynamicSecretPolicyStatus)
  pub promotions : ℕ

abbrev pub web : Workload
web = record {
  name = codes "web";
  namespace = codes "ns";
  labels = [];
  annotations = [];
  template = empty_template;
  rest = [];
}

abbrev missing {ℓ} : {A : Type ℓ} → World → Result A × World
missing s = (err not_found, s)

abbrev succeed : World → Result (Unit {0}) × World
succeed s = (ok tt, s)

-- The secret of a revision that is no longer used.
abbrev pub old_secret : Secret
old_secret = record {
  name = codes "web-db-rev-1";
  namespace = codes "ns";
  labels = (label_revision, codes "1") ∷ [];
  type = opaque;
  entries = [];
  resource_version = [];
}

-- A cluster that holds the policy, the workload "web" and one old secret, and nothing else.
abbrev pub cluster : DynamicSecretPolicy → Client
cluster policy = record {
  State = World;
  get_policy = λ k s. (ok policy, s);
  patch_status = λ new base s. (ok tt, record s { patches = (base, new.status) ∷ s.patches });
  get_workload = λ k n s. (ok web, s);
  patch_workload = λ k w v s. (ok tt, record s { promotions = 1 });
  get_rollout = λ k. missing;
  get_secret = λ k. missing;
  get_job = λ k. missing;
  list_secrets = λ n l s. (ok (old_secret ∷ []), s);
  list_jobs = λ n l s. (ok [], s);
  fetch_vault_secret = λ u n v s. (ok (codes "s3cr3t", codes "1"), s);
  read_secret = λ k. missing;
  unmarshal_object = λ t. none;
  sha256_hex = λ t. t;
  pem_blocks = λ t. [];
  get_application = λ k. missing;
  list_applications = λ s. (ok [], s);
  update_application = λ a. succeed;
  retry_on_conflict = λ m. m;
  auto_patch_enabled = true;
  get_deployment_created = λ k. missing;
  list_canary_pods = λ n l s. (ok [], s);
  create = λ o. succeed;
  delete = λ k n. succeed;
  set_controller_reference = λ p o. ok o;
  has_probe_runner = false;
  run_probe = λ p d. succeed;
  count_metric = λ m n s. s;
  now = λ s. (0, s);
  on_secret_materialized = λ n r. succeed;
}
