-- ===== src/Controller/Status.antt =====
-- The conditions and the statuses that the handlers of `Reconcile`
-- (internal/controller/dynamicsecretpolicy_controller.go) leave behind.
use dynamic_secret_operator.Prelude.{ℕ, Text, codes, leb, if◌then◌else◌}
use dynamic_secret_operator.Api.{
  DynamicSecretPolicy, DynamicSecretPolicyStatus, Condition, ConditionType, revision_prepared,
  canary_provisioning, validating, rollout_progressing, promoting, circuit_breaker_tripped,
  true_status, false_status,
}
use dynamic_secret_operator.Client.{Conditions}
use dynamic_secret_operator.Controller.Machine.{
  condition, begin_rotation, with_condition, without_condition, finish_rotation, count_failure,
}

-- The policy with another status.
abbrev pub set_status : DynamicSecretPolicy → DynamicSecretPolicyStatus → DynamicSecretPolicy
set_status policy status = record policy { status = status }

-- The five conditions that a handler leaves behind.
abbrev pub tripped_condition : Condition
tripped_condition =
    condition circuit_breaker_tripped true_status (codes "ValidationThresholdExceeded")

abbrev pub prepared_condition : Condition
prepared_condition = condition revision_prepared true_status (codes "Prepared")

abbrev pub completed_condition : Condition
completed_condition = condition promoting true_status (codes "Completed")

abbrev pub progressing_condition : Condition
progressing_condition = condition rollout_progressing true_status (codes "RolloutProgressing")

abbrev pub provisioning_condition : Condition
provisioning_condition = condition canary_provisioning true_status (codes "Provisioning")

abbrev pub probes_running_condition : Condition
probes_running_condition = condition validating true_status (codes "ProbesRunning")

abbrev pub probe_failed_condition : Condition
probe_failed_condition = condition validating false_status (codes "ProbeFailed")

abbrev pub degraded_condition : Condition
degraded_condition = condition rollout_progressing false_status (codes "RolloutDegraded")

-- The statuses that the handlers patch to.
module _ (conds : Conditions) where
  unfoldable pub status_started : Text → DynamicSecretPolicyStatus → DynamicSecretPolicyStatus
  unfolding begin_rotation with_condition
  status_started revision st =
      with_condition conds prepared_condition (begin_rotation conds revision st)

  unfoldable pub status_provisioned : DynamicSecretPolicyStatus → DynamicSecretPolicyStatus
  unfolding without_condition with_condition
  status_provisioned st =
      with_condition conds provisioning_condition (without_condition conds revision_prepared st)

  unfoldable pub status_patched : DynamicSecretPolicyStatus → DynamicSecretPolicyStatus
  unfolding without_condition with_condition
  status_patched st =
      with_condition conds progressing_condition (without_condition conds revision_prepared st)

  unfoldable pub status_validating : DynamicSecretPolicyStatus → DynamicSecretPolicyStatus
  unfolding without_condition with_condition
  status_validating st =
      with_condition conds probes_running_condition (without_condition conds canary_provisioning st)

  -- Behind the state `t`, Validating or RolloutProgressing.
  unfoldable pub status_completed :
      ConditionType → DynamicSecretPolicyStatus → DynamicSecretPolicyStatus
  unfolding without_condition with_condition finish_rotation
  status_completed t st =
      with_condition conds completed_condition
        (without_condition conds t (finish_rotation conds st))

  -- A failure that trips the breaker, or leaves the condition `c`.
  unfoldable pub status_failed :
      ℕ → Condition → DynamicSecretPolicyStatus → DynamicSecretPolicyStatus
  unfolding with_condition count_failure
  status_failed limit c st =
      let counted = count_failure conds st in
      with_condition conds (if leb limit counted.consecutive_failures then tripped_condition else c)
        counted

  unfoldable pub status_tripped : DynamicSecretPolicyStatus → DynamicSecretPolicyStatus
  unfolding with_condition
  status_tripped st = with_condition conds tripped_condition st
