-- ===== src/Probes/Job/Laws.antt =====
-- What a probe Job of internal/probes/job.go runs with, and when it is given up.
use dynamic_secret_operator.Prelude.{
  ℕ, Text, text_eq, text_eq_refl, text_eq_iff, Option, none, some, List, [], ◌∷◌, All, All-map, ◌≡◌,
  ◌≢◌, ◌↔◌, ◌⊎◌, inl, inr, ◌<◌, ◌+◌, refl, arith, true, if◌then◌else◌,
}
use dynamic_secret_operator.Api.{DynamicSecretPolicy, JobProbeSpec, true_status}
use dynamic_secret_operator.Api.Pods.{EnvVar, Container}
use dynamic_secret_operator.Client.{Job, JobCondition, job_complete, job_failed}
use dynamic_secret_operator.Probes.Job.{
  env_revision_secret_name, set_or_append, set_container_env, set_or_append_env, or_zero,
  build_probe_job, timed_out, verdict, first_verdict, is_overdue, evaluate_job_status,
}

-- The first variable of a name, which is the one that a process sees set.
unfoldable pub env_of : Text → List EnvVar → Option EnvVar
env_of key [] = none
env_of key (e ∷ env) = if text_eq e.name key then some e else env_of key env

abbrev pub SeesSecret : Text → Container → Type 0
SeesSecret secret c =
    env_of env_revision_secret_name c.env
    ≡ some (record { name = env_revision_secret_name; value = secret; value_from = none })

env_of-set_or_append :
    (key value : Text) (env : List EnvVar)
    → env_of key (set_or_append key value env)
      ≡ some (record { name = key; value = value; value_from = none })
unfolding env_of set_or_append
env_of-set_or_append key value [] = rw (text_eq_refl key)
env_of-set_or_append key value (e ∷ env) =
    ground (arith, env_of-set_or_append key value env, text_eq_iff e.name key)

set_or_append_env-SeesSecret :
    (secret : Text) (cs : List Container)
    → All (SeesSecret secret) (set_or_append_env env_revision_secret_name secret cs)
unfolding set_or_append_env set_container_env
set_or_append_env-SeesSecret secret cs =
    All-map (SeesSecret secret) (set_container_env env_revision_secret_name secret)
      (λ c. env_of-set_or_append env_revision_secret_name secret c.env) cs

retries :
    (o : Option ℕ)
    → ((limit : ℕ) × (o ≡ some limit) × (or_zero o ≡ some limit))
      ⊎ ((o ≡ none) × (or_zero o ≡ some 0))
retries none = inr (refl, refl)
retries (some n) = inl (n, refl, refl)

-- Every container and init container of a probe Job sees DSO_REVISION_SECRET_NAME set to the
-- revision's secret as a plain value, whatever the policy's template gives it. The Job's limit of
-- retries is the template's where it has one, and else 0.
pub build_probe_job-SeesSecret :
    (policy : DynamicSecretPolicy) (spec : JobProbeSpec) (secret : Text)
    → let built = build_probe_job policy spec secret in
      All (SeesSecret secret) built.spec.template.containers
      × All (SeesSecret secret) built.spec.template.init_containers
      × (((limit : ℕ) × (spec.job_template.backoff_limit ≡ some limit)
            × (built.spec.backoff_limit ≡ some limit))
          ⊎ ((spec.job_template.backoff_limit ≡ none) × (built.spec.backoff_limit ≡ some 0)))
unfolding build_probe_job
build_probe_job-SeesSecret policy spec secret = (
  set_or_append_env-SeesSecret secret _,
  set_or_append_env-SeesSecret secret _,
  retries spec.job_template.backoff_limit,
)

-- A decisive condition is never a timeout.
first_verdict-ne-timed_out : (cs : List JobCondition) → first_verdict cs ≢ some timed_out
unfolding first_verdict
first_verdict-ne-timed_out [] = cc
first_verdict-ne-timed_out (c ∷ cs) = ground (arith, first_verdict-ne-timed_out cs)

-- A condition that settles nothing: it is not true, or it is neither Complete nor Failed.
abbrev pub Undecided : JobCondition → Type 0
Undecided c = c.status ≡ true_status → (c.type ≢ job_complete) × (c.type ≢ job_failed)

verdict-Undecided : (c : JobCondition) → (verdict c.type c.status ≡ none) ↔ Undecided c
unfolding verdict
verdict-Undecided c = ground arith

first_verdict-Undecided : (cs : List JobCondition) → (first_verdict cs ≡ none) ↔ All Undecided cs
unfolding first_verdict
first_verdict-Undecided [] = ground arith
first_verdict-Undecided (c ∷ cs) = ground (arith, verdict-Undecided c, first_verdict-Undecided cs)

-- A Job is overdue at a time: it was created, the timeout is positive, and the two together lie
-- before that time.
abbrev pub Overdue : Option ℕ → ℕ → ℕ → Type 0
Overdue created timeout now =
    (start : ℕ) × (created ≡ some start) × (0 < timeout) × (start + timeout < now)

is_overdue-Overdue :
    (created : Option ℕ) (timeout now : ℕ)
    → (is_overdue created timeout now ≡ true) ↔ Overdue created timeout now
unfolding is_overdue
is_overdue-Overdue none timeout now = (λ e. cc, λ (start, e, p, q). cc)
is_overdue-Overdue (some start) timeout now = (
  λ e. (start, refl, ground arith, ground arith),
  λ (other, e, p, q). let same : start ≡ other = cc e in ground arith,
)

-- A Job is given up exactly if none of its conditions settles it (a true Complete or Failed), and
-- it has a creation time, a positive timeout, and the two together lie before now. So a finished
-- Job is never timed out, and a timeout of zero never passes.
pub evaluate_job_status-timed_out_iff :
    (j : Job) (timeout now : ℕ)
    → (evaluate_job_status j timeout now ≡ timed_out)
      ↔ (All Undecided j.conditions × Overdue j.creation_timestamp timeout now)
unfolding evaluate_job_status
evaluate_job_status-timed_out_iff j timeout now = ground (
  arith,
  first_verdict-ne-timed_out j.conditions,
  first_verdict-Undecided j.conditions,
  is_overdue-Overdue j.creation_timestamp timeout now,
)
