-- ===== src/Probes/Job.antt =====
-- The probe Job of internal/probes/job.go: its construction from the policy's template, and the
-- evaluation of its status.
pub mod Laws
use dynamic_secret_operator.Prelude.{
  ℕ, ◌+◌, Text, codes, text_eq, Bool, true, false, ◌&&◌, Option, none, some, List, [], ◌∷◌, ◌++◌,
  map, ltb, if◌then◌else◌,
}
use dynamic_secret_operator.Api.{
  DynamicSecretPolicy, DynamicSecretPolicySpec, TargetRef, JobProbeSpec, ConditionStatus,
  true_status, false_status, unknown_status,
}
use dynamic_secret_operator.Api.Pods.{EnvVar, Container, PodTemplateSpec, JobTemplate}
use dynamic_secret_operator.Workload.Mutate.{mutate_pod_template_spec}
use dynamic_secret_operator.Canary.Cleanup.{label_policy}
use dynamic_secret_operator.Client.{
  Job, JobCondition, JobConditionType, job_complete, job_failed, other_job_condition,
}
use dynamic_secret_operator.Probes.JobName.{derive_probe_job_name}

abbrev pub env_revision_secret_name : Text
env_revision_secret_name = codes "DSO_REVISION_SECRET_NAME"

-- The inner loop of `setOrAppendEnv`: the first variable of that name is set, and where there is
-- none one is appended.
unfoldable pub set_or_append : Text → Text → List EnvVar → List EnvVar
set_or_append key value [] = record { name = key; value = value; value_from = none } ∷ []
set_or_append key value (e ∷ env) =
    if text_eq e.name key
    then record e { value = value; value_from = none } ∷ env
    else e ∷ set_or_append key value env

unfoldable pub set_container_env : Text → Text → Container → Container
set_container_env key value c = record c { env = set_or_append key value c.env }

unfoldable pub set_or_append_env : Text → Text → List Container → List Container
set_or_append_env key value containers = map (set_container_env key value) containers

unfoldable pub inject_revision_secret_env : Text → PodTemplateSpec → PodTemplateSpec
unfolding set_or_append_env
inject_revision_secret_env secret tpl = record tpl {
  init_containers = set_or_append_env env_revision_secret_name secret tpl.init_containers;
  containers = set_or_append_env env_revision_secret_name secret tpl.containers;
}

-- The copy of the policy whose target names no container.
unfoldable pub probe_policy : DynamicSecretPolicy → DynamicSecretPolicy
probe_policy policy = elim policy.spec.target_ref [
  | none ↦ policy
  | some t ↦ record policy {
    spec = record (policy.spec) { target_ref = some (record t { container_name = [] }) };
  }
]

-- `BackoffLimit` is 0 where the template leaves it open.
abbrev pub or_zero : Option ℕ → Option ℕ
or_zero none = some 0
or_zero (some n) = some n

unfoldable pub build_probe_job : DynamicSecretPolicy → JobProbeSpec → Text → Job
unfolding inject_revision_secret_env probe_policy
build_probe_job policy spec secret =
    let tmpl = spec.job_template in
    let mutated =
      mutate_pod_template_spec policy.spec.workload_selector.name (probe_policy policy) secret
        tmpl.template in
    record {
      name = derive_probe_job_name policy.name secret;
      namespace = policy.namespace;
      labels =
          (codes "app.kubernetes.io/managed-by", codes "dynamic-secret-operator")
          ∷ (codes "dso.quantumsys.dev/probe", codes "job")
          ∷ (label_policy, policy.name)
          ∷ [];
      owner_name = policy.name;
      owner_uid = policy.uid;
      spec = record tmpl {
        template = inject_revision_secret_env secret mutated;
        backoff_limit = or_zero tmpl.backoff_limit;
      };
      conditions = [];
      creation_timestamp = none;
    }

pub data ProbeJobState : Type 0 where
  running succeeded job_has_failed timed_out : ProbeJobState

-- The verdict of one condition, if it has one.
unfoldable pub verdict : JobConditionType → ConditionStatus → Option ProbeJobState
verdict job_complete true_status = some succeeded
verdict job_failed true_status = some job_has_failed
verdict type status = none

-- The loop over the conditions: the first verdict.
unfoldable pub first_verdict : List JobCondition → Option ProbeJobState
unfolding verdict
first_verdict [] = none
first_verdict (c ∷ conditions) = elim (verdict c.type c.status) [
  | some state ↦ some state
  | none ↦ first_verdict conditions
]

-- The deadline has passed at the time `now`; times are in seconds.
unfoldable pub is_overdue : Option ℕ → ℕ → ℕ → Bool
is_overdue none timeout now = false
is_overdue (some created) timeout now = ltb 0 timeout && ltb (created + timeout) now

-- The state alone: the errors and the failure logs that come with it are not modelled. A failed
-- or overdue state always comes with an error.
unfoldable pub evaluate_job_status : Job → ℕ → ℕ → ProbeJobState
evaluate_job_status job_object timeout now = elim (first_verdict job_object.conditions) [
  | some state ↦ state
  | none ↦ if is_overdue job_object.creation_timestamp timeout now then timed_out else running
]
