-- ===== src/Scenario/Probes.antt =====
-- The theorems on probe Jobs, at concrete names and Jobs.
use dynamic_secret_operator.Prelude.{
  ℕ, Text, codes, length, none, some, [], ◌++◌, All, ◌≡◌, ◌↔◌, ◌⊎◌, refl, arith, ◌≤◌,
}
use dynamic_secret_operator.Api.{JobProbeSpec, deployment}
use dynamic_secret_operator.Client.{Job}
use dynamic_secret_operator.Probes.JobName.{derive_probe_job_name, is_alnum}
use dynamic_secret_operator.Probes.JobName.Dns.{IsDnsLabel, derive_probe_job_name-IsDnsLabel}
use dynamic_secret_operator.Probes.JobName.Suffix.{
  EndsWith, IsHash, derive_probe_job_name-EndsWith, derive_probe_job_name_injective,
}
use dynamic_secret_operator.Probes.Job.{build_probe_job, evaluate_job_status, timed_out}
use dynamic_secret_operator.Probes.Job.Laws.{
  SeesSecret, Undecided, Overdue, build_probe_job-SeesSecret, evaluate_job_status-timed_out_iff,
}
use dynamic_secret_operator.Scenario.{fresh, legacy_spec, policy_of, empty_template}

abbrev hash : Text
hash = codes "9f2"

hash-IsHash : IsHash hash
unfolding is_alnum
hash-IsHash = record { chars = ground arith; nonempty = cc }

derive_probe_job_name-IsDnsLabel_example :
    IsDnsLabel (derive_probe_job_name (codes "My_Policy") (codes "web-db-rev-9f2"))
derive_probe_job_name-IsDnsLabel_example =
    derive_probe_job_name-IsDnsLabel (codes "My_Policy") (codes "web-db-rev-9f2")

hash_short : length hash ≤ 24
hash_short = omega arith

derive_probe_job_name-EndsWith_example :
    EndsWith hash (derive_probe_job_name (codes "p") (codes "web-db-rev-" ++ hash))
derive_probe_job_name-EndsWith_example =
    derive_probe_job_name-EndsWith (codes "p") (codes "web-db-rev-") hash hash-IsHash hash_short

derive_probe_job_name_injective_example : hash ≡ hash
derive_probe_job_name_injective_example =
    derive_probe_job_name_injective (codes "p") (codes "web-db-rev-") (codes "web-db-rev-") hash
      hash hash-IsHash hash-IsHash hash_short refl refl

abbrev spec : JobProbeSpec
spec = record {
  timeout_seconds = none;
  job_template = record { template = empty_template; backoff_limit = none; rest = [] };
}

build_probe_job-SeesSecret_example :
    let built = build_probe_job (policy_of (legacy_spec deployment []) fresh) spec (codes "s") in
    All (SeesSecret (codes "s")) built.spec.template.containers
    × All (SeesSecret (codes "s")) built.spec.template.init_containers
    × (((limit : ℕ) × (spec.job_template.backoff_limit ≡ some limit)
          × (built.spec.backoff_limit ≡ some limit))
        ⊎ ((spec.job_template.backoff_limit ≡ none) × (built.spec.backoff_limit ≡ some 0)))
build_probe_job-SeesSecret_example =
    build_probe_job-SeesSecret (policy_of (legacy_spec deployment []) fresh) spec (codes "s")

abbrev old_job : Job
old_job = record {
  name = codes "j";
  namespace = codes "ns";
  labels = [];
  owner_name = codes "p";
  owner_uid = codes "1";
  spec = spec.job_template;
  conditions = [];
  creation_timestamp = some 10;
}

evaluate_job_status-timed_out_iff_example :
    (evaluate_job_status old_job 60 100 ≡ timed_out)
    ↔ (All Undecided old_job.conditions × Overdue old_job.creation_timestamp 60 100)
evaluate_job_status-timed_out_iff_example = evaluate_job_status-timed_out_iff old_job 60 100
