-- ===== src/Client.antt =====
-- What the operator calls and does not implement: the API server behind `client.Client` of
-- controller-runtime, the cloud's secret store, the clock, the metrics, and the condition helpers
-- of apimachinery. Each call takes the state of the world and returns its answer with the next
-- state; nothing is assumed of the answers but what a theorem names. With it the monad of a
-- reconciliation: an error ends it, as `if err != nil { return err }` does.
pub mod Keeps
pub mod Results
use dynamic_secret_operator.Prelude.{
  ℕ, Text, codes, text_eq, text_eq_iff, Bool, true, false, ◌&&◌, Option, none, some, List, [], ◌∷◌,
  ◌==◌, if◌then◌else◌, ◌≡◌, ◌↔◌, refl, arith,
}
use dynamic_secret_operator.Api.{
  ProbeType, ValidationProbe, DynamicSecretPolicy, WorkloadKind, Condition, ConditionType,
  revision_prepared, canary_provisioning, validating, rollout_progressing, promoting, rolled_back,
  circuit_breaker_tripped, other_condition, ConditionStatus, true_status, false_status,
  unknown_status,
}
use dynamic_secret_operator.Api.Pods.{Labels, PodTemplateSpec, JobTemplate}
use dynamic_secret_operator.Canary.Deployment.{Deployment}
use dynamic_secret_operator.Canary.NetworkPolicy.{NetworkPolicy, CiliumNetworkPolicy}

-- An error, by what `apierrors` and `retry` ask of it; wrapping by `%w` keeps that.
pub data Error : Type 0 where
  not_found already_exists conflict : Error
  failed : Text → Error

pub data Result {ℓ} (A : Type ℓ) : Type ℓ where
  ok : A → Result A
  err : Error → Result A

-- `types.NamespacedName`.
pub record Key : Type 0 where
  pub name : Text
  pub namespace : Text

-- The workload kinds share a pod template; the labels and annotations are the object's own.
pub record Workload : Type 0 where
  pub name : Text
  pub namespace : Text
  pub labels : Labels
  pub annotations : Labels
  pub template : PodTemplateSpec
  pub rest : Text

pub data RolloutPhase : Type 0 where
  healthy degraded progressing paused : RolloutPhase
  other_phase : Text → RolloutPhase

-- Of an Argo Rollout, what the reconciler reads; the generation as its decimal text.
pub record Rollout : Type 0 where
  pub generation : Text
  pub observed_generation : Text
  pub phase : RolloutPhase

pub data JobConditionType : Type 0 where
  job_complete job_failed : JobConditionType
  other_job_condition : Text → JobConditionType

pub record JobCondition : Type 0 where
  pub type : JobConditionType
  pub status : ConditionStatus

pub record Job : Type 0 where
  pub name : Text
  pub namespace : Text
  pub labels : Labels
  pub owner_name : Text
  pub owner_uid : Text
  pub spec : JobTemplate
  pub conditions : List JobCondition
  -- `none` is the zero time.
  pub creation_timestamp : Option ℕ

pub data SecretType : Type 0 where
  opaque tls_secret : SecretType

-- `map[string][]byte` as its entries.
abbrev pub SecretData : Type 0
SecretData = List (Text × Text)

pub record Secret : Type 0 where
  pub name : Text
  pub namespace : Text
  pub labels : Labels
  pub type : SecretType
  pub entries : SecretData
  pub resource_version : Text

pub data Object : Type 0 where
  deployment_object : Deployment → Object
  network_policy_object : NetworkPolicy → Object
  cilium_object : CiliumNetworkPolicy → Object
  job_object : Job → Object
  secret_object : Secret → Object

pub data ObjectKind : Type 0 where
  deployment_kind network_policy_kind cilium_kind job_kind secret_kind : ObjectKind

-- The metrics of pkg/telemetry/metrics.go that a reconciliation counts.
pub data Metric : Type 0 where
  rotations_total rotations_failed circuit_breakers_tripped probe_duration : Metric

-- A container's restarts, and the reason for which it waits, if it does.
pub record ContainerStatus : Type 0 where
  pub restart_count : ℕ
  pub waiting_reason : Option Text

-- A pod of the canary, as far as its readiness is decided.
pub record Pod : Type 0 where
  pub name : Text
  pub is_deleting : Bool
  pub is_running : Bool
  pub pod_ip : Text
  -- The statuses of its conditions `Ready`.
  pub ready_conditions : List ConditionStatus
  pub container_statuses : List ContainerStatus

-- Of an Argo CD Application, `spec.ignoreDifferences`.
pub record ResourceIgnoreDifferences : Type 0 where
  pub group : Text
  pub kind : Text
  pub json_pointers : List Text
  pub jq_path_expressions : List Text
  pub rest : Text

pub record Application : Type 0 where
  pub name : Text
  pub namespace : Text
  pub ignore_differences : List ResourceIgnoreDifferences
  pub rest : Text

-- A value of a JSON object: a string, or the text that `json.Marshal` gives of any other value
-- (`none` where it fails).
pub data JsonValue : Type 0 where
  json_string : Text → JsonValue
  json_other : Option Text → JsonValue

-- What the controller returns of a reconciliation: nothing, an immediate requeue, or one after
-- some seconds.
pub data Outcome : Type 0 where
  done requeue : Outcome
  requeue_after : ℕ → Outcome

pub record Client : Type 1 where
  pub State : Type 0
  pub get_policy : Key → State → Result DynamicSecretPolicy × State
  -- `Status().Patch(ctx, policy, client.MergeFrom(base))`.
  pub patch_status : DynamicSecretPolicy → DynamicSecretPolicy → State → Result (Unit {0}) × State
  pub get_workload : WorkloadKind → Key → State → Result Workload × State
  -- The workload as it shall be, and as it was read.
  pub patch_workload : WorkloadKind → Workload → Workload → State → Result (Unit {0}) × State
  pub get_rollout : Key → State → Result Rollout × State
  pub get_secret : Key → State → Result Secret × State
  pub get_job : Key → State → Result Job × State
  pub list_secrets : Text → Labels → State → Result (List Secret) × State
  pub list_jobs : Text → Labels → State → Result (List Job) × State
  -- `azure.SecretFetcher.GetSecret` of a vault, a name and a version: the value and its version.
  pub fetch_vault_secret : Text → Text → Text → State → Result (Text × Text) × State
  -- The uncached reader of `K8sSecretProvider`.
  pub read_secret : Key → State → Result Secret × State
  -- `json.Unmarshal` into a `map[string]interface{}`.
  pub unmarshal_object : Text → Option (List (Text × JsonValue))
  -- SHA-256, printed in hexadecimal.
  pub sha256_hex : Text → Text
  -- The blocks that repeated `pem.Decode` yields: their types and `pem.EncodeToMemory` of each.
  pub pem_blocks : Text → List (Text × Text)
  pub get_application : Key → State → Result Application × State
  pub list_applications : State → Result (List Application) × State
  pub update_application : Application → State → Result (Unit {0}) × State
  -- `retry.RetryOnConflict(retry.DefaultRetry, f)` of client-go.
  pub retry_on_conflict : (State → Result (Unit {0}) × State) → State → Result (Unit {0}) × State
  -- The environment variable ARGOCD_AUTOPATCH_ENABLED is "true", in any case.
  pub auto_patch_enabled : Bool
  pub get_deployment_created : Key → State → Result (Option ℕ) × State
  pub list_canary_pods : Text → Labels → State → Result (List Pod) × State
  pub create : Object → State → Result (Unit {0}) × State
  pub delete : ObjectKind → Key → State → Result (Unit {0}) × State
  -- `controllerutil.SetControllerReference`.
  pub set_controller_reference : DynamicSecretPolicy → Object → Result Object
  -- `r.ProbeRunner != nil`, and the runner or else the executor of the probe's type.
  pub has_probe_runner : Bool
  pub run_probe : ValidationProbe → SecretData → State → Result (Unit {0}) × State
  pub count_metric : Metric → Text → State → State
  pub now : State → ℕ × State
  -- `OnSecretMaterialized`; a nil callback does nothing.
  pub on_secret_materialized : Text → Text → State → Result (Unit {0}) × State

-- The condition helpers of `k8s.io/apimachinery/pkg/api/meta`, by the condition's type.
unfoldable pub type_tag : ConditionType → ℕ
type_tag revision_prepared = 0
type_tag canary_provisioning = 1
type_tag validating = 2
type_tag rollout_progressing = 3
type_tag promoting = 4
type_tag rolled_back = 5
type_tag circuit_breaker_tripped = 6
type_tag (other_condition t) = 7

unfoldable pub type_name : ConditionType → Text
type_name (other_condition t) = t
type_name t = []

unfoldable pub type_eq : ConditionType → ConditionType → Bool
unfolding type_tag type_name
type_eq a b = (type_tag a == type_tag b) && text_eq (type_name a) (type_name b)

abbrev pub is_true_status : Option Condition → Bool
is_true_status none = false
is_true_status (some c) = elim c.status [
  | true_status ↦ true
  | false_status ↦ false
  | unknown_status ↦ false
]

pub record Conditions : Type 0 where
  -- `SetStatusCondition`, `RemoveStatusCondition`, `FindStatusCondition`, `IsStatusConditionTrue`.
  pub set_condition : Condition → List Condition → List Condition
  pub remove_condition : ConditionType → List Condition → List Condition
  pub find_condition : ConditionType → List Condition → Option Condition
  pub is_condition_true : ConditionType → List Condition → Bool
  pub find-set :
      (t : ConditionType) (c : Condition) (cs : List Condition)
      → find_condition t (set_condition c cs)
        ≡ (if type_eq c.type t then some c else find_condition t cs)
  pub find-remove :
      (t u : ConditionType) (cs : List Condition)
      → find_condition t (remove_condition u cs)
        ≡ (if type_eq u t then none else find_condition t cs)
  pub is_condition_true_lem :
      (t : ConditionType) (cs : List Condition)
      → is_condition_true t cs ≡ is_true_status (find_condition t cs)

pub type_eq_iff : (a b : ConditionType) → (type_eq a b ≡ true) ↔ (a ≡ b)
unfolding type_eq
type_eq_iff a b = ground (arith, text_eq_iff (type_name a) (type_name b))

-- A computation that reads and changes the world, and may end in an error.
abbrev pub M {ℓ} : Type 0 → Type ℓ → Type ℓ
M S A = S → Result A × S

unfoldable pub continue {ℓ κ} :
    {S : Type 0} {A : Type ℓ} {B : Type κ} → Result A × S → (A → S → Result B × S) → Result B × S
continue (ok a, s) f = f a s
continue (err e, s) f = (err e, s)

infixl 5 ◌>>=◌ ◌>>◌
unfoldable pub ◌>>=◌ {ℓ κ} :
    {S : Type 0} {A : Type ℓ} {B : Type κ}
    → (S → Result A × S)
    → (A → S → Result B × S)
    → S
    → Result B × S
unfolding continue
◌>>=◌ m f s = continue (m s) f

unfoldable pub ◌>>◌ {ℓ} :
    {S : Type 0} {B : Type ℓ} → (S → Result (Unit {0}) × S) → (S → Result B × S) → S → Result B × S
unfolding continue
◌>>◌ m k s = continue (m s) (λ _. k)

unfoldable pub return {ℓ} : {S : Type 0} {A : Type ℓ} → A → S → Result A × S
return a s = (ok a, s)

unfoldable pub fail {ℓ} : {S : Type 0} {A : Type ℓ} → Error → S → Result A × S
fail e s = (err e, s)

-- A call that does not change the world.
unfoldable pub lift {ℓ} : {S : Type 0} {A : Type ℓ} → Result A → S → Result A × S
lift r s = (r, s)

-- The error as a value, for the calls whose errors the source tests.
unfoldable pub attempt {ℓ} :
    {S : Type 0} {A : Type ℓ} → (S → Result A × S) → S → Result (Result A) × S
attempt m s = (ok (m s).0, (m s).1)

-- `_ = f()`: a call whose error is dropped, or only logged.
unfoldable pub ignore {ℓ} :
    {S : Type 0} {A : Type ℓ} → (S → Result A × S) → S → Result (Unit {0}) × S
ignore m s = (ok tt, (m s).1)

-- A counter's `Inc`, which cannot fail.
unfoldable pub effect : {S : Type 0} → (S → S) → S → Result (Unit {0}) × S
effect f s = (ok tt, f s)

-- A read of the clock, which cannot fail.
unfoldable pub read {ℓ} : {S : Type 0} {A : Type ℓ} → (S → A × S) → S → Result A × S
read f s = (ok (f s).0, (f s).1)

-- `err != nil && !apierrors.IsAlreadyExists(err)` is a failure, as is `client.IgnoreNotFound(err) != nil`.
abbrev pub unless_exists : Result (Unit {0}) → Result (Unit {0})
unless_exists (err already_exists) = ok tt
unless_exists r = r

abbrev pub unless_not_found : Result (Unit {0}) → Result (Unit {0})
unless_not_found (err not_found) = ok tt
unless_not_found r = r

unfoldable pub creating : {S : Type 0} → (S → Result (Unit {0}) × S) → S → Result (Unit {0}) × S
creating m s = (unless_exists (m s).0, (m s).1)

unfoldable pub deleting : {S : Type 0} → (S → Result (Unit {0}) × S) → S → Result (Unit {0}) × S
deleting m s = (unless_not_found (m s).0, (m s).1)
