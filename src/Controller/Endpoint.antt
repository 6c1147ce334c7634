-- ===== src/Controller/Endpoint.antt =====
-- `isWorkloadProbe` and `resolveCanaryProbeEndpoint` of
-- internal/controller/dynamicsecretpolicy_controller.go: whether a probe addresses the workload
-- that is rotated, and then the address of its canary.
use dynamic_secret_operator.Prelude.{
  ℕ, ◌+◌, Text, codes, text_eq, has_prefix, contains, is_empty, Bool, true, false, not, ◌&&◌, ◌||◌,
  Option, none, some, List, [], ◌∷◌, ◌++◌, any, ltb, leb, ◌==◌, is_some, if◌then◌else◌,
}
use dynamic_secret_operator.Api.{
  DynamicSecretPolicy, ValidationProbe, ProbeType, tls, ConditionStatus, true_status, false_status,
  unknown_status,
}
use dynamic_secret_operator.Canary.Deployment.{label_canary, label_target_workload}
use dynamic_secret_operator.Canary.Endpoint.{Net}
use dynamic_secret_operator.Client.{
  Client, Result, ok, err, not_found, failed, Outcome, requeue_after, Pod, ContainerStatus, ◌>>=◌,
  return, fail, attempt, read,
}

-- `unicode.IsSpace`.
unfoldable pub is_space : ℕ → Bool
is_space c =
    (leb 9 c && leb c 13)
    || ((c == 32)
        || ((c == 0x85)
            || ((c == 0xa0)
                || ((c == 0x1680)
                    || ((leb 0x2000 c && leb c 0x200a)
                        || ((c == 0x2028)
                            || ((c == 0x2029)
                                || ((c == 0x202f) || ((c == 0x205f) || (c == 0x3000))))))))))

-- `strings.TrimSpace`.
unfoldable pub trim_space_left : Text → Text
unfolding is_space
trim_space_left [] = []
trim_space_left (c ∷ s) = if is_space c then trim_space_left s else c ∷ s

unfoldable pub trim_space_right : Text → Text
unfolding is_space
trim_space_right [] = []
trim_space_right (c ∷ s) =
    let rest = trim_space_right s in if is_empty rest && is_space c then [] else c ∷ rest

unfoldable pub trim_space : Text → Text
unfolding trim_space_left trim_space_right
trim_space s = trim_space_right (trim_space_left s)

abbrev is_tls : ProbeType → Bool
is_tls tls = true
is_tls type = false

abbrev pub is_loopback : Text → Bool
is_loopback host =
    is_empty host
    || (text_eq host (codes "localhost")
        || (text_eq host (codes "127.0.0.1") || text_eq host (codes "::1")))

-- The first pod that is ready, by the loop's conditions.
abbrev is_true_cond : ConditionStatus → Bool
is_true_cond true_status = true
is_true_cond false_status = false
is_true_cond unknown_status = false

unfoldable pub is_ready : Pod → Bool
is_ready pod =
    not pod.is_deleting
    && (pod.is_running && (not (is_empty pod.pod_ip) && any is_true_cond pod.ready_conditions))

unfoldable pub ready_pod : List Pod → Option Pod
unfolding is_ready
ready_pod [] = none
ready_pod (p ∷ pods) = if is_ready p then some p else ready_pod pods

unfoldable pub is_crashing : ContainerStatus → Bool
is_crashing cs = ltb 0 cs.restart_count && (elim cs.waiting_reason [
  | none ↦ false
  | some reason ↦
      text_eq reason (codes "CrashLoopBackOff") || text_eq reason (codes "RunContainerError")
])

unfoldable pub any_crashing : List Pod → Bool
unfolding is_crashing
any_crashing pods = any (λ p. any is_crashing p.container_statuses) pods

-- 45 seconds, or the probe's longer timeout.
abbrev pub canary_timeout : ValidationProbe → ℕ
canary_timeout probe = if ltb 45 probe.query_timeout then probe.query_timeout else 45

unfoldable pub is_late : Option ℕ → ℕ → ℕ → Bool
is_late none timeout time = false
is_late (some created) timeout time = ltb (created + timeout) time

-- `strings.TrimPrefix(s, ":")`.
abbrev trim_colon : Text → Text
trim_colon [] = []
trim_colon (c ∷ s) = if c == b':' then s else c ∷ s

module _ (net : Net) where
  open net use {parse_url, split_host_port, atoi, join_host_port, replace_host, to_lower}

  -- The host of a trimmed endpoint.
  unfoldable pub endpoint_host : Text → Text
  endpoint_host endpoint =
      if contains endpoint (codes "://")
      then elim (parse_url endpoint) [ none ↦ endpoint | some u ↦ u.hostname ]
      else if contains endpoint (codes ":")
      then elim (split_host_port endpoint) [ none ↦ endpoint | some (host, port) ↦ host ]
      else endpoint

  unfoldable pub is_workload_host : Text → Text → Bool
  is_workload_host host target =
      not (is_loopback host) && (text_eq host target || has_prefix host (target ++ codes "."))

  unfoldable pub is_workload_probe : ValidationProbe → Text → Bool
  unfolding endpoint_host is_workload_host trim_space
  is_workload_probe probe target =
      is_tls probe.type
      || (not (is_empty (trim_space probe.endpoint))
          && is_workload_host (to_lower (trim_space (endpoint_host (trim_space probe.endpoint))))
              (to_lower target))

  abbrev join_port : Text → Text → Text
  join_port ip port = if is_empty port then ip else join_host_port ip port

  -- The endpoint with the canary's address for its host.
  unfoldable pub canary_endpoint : Text → Text → Text
  canary_endpoint ip endpoint =
      if contains endpoint (codes "://")
      then elim (parse_url endpoint) [
        | none ↦ endpoint
        | some u ↦ replace_host endpoint (join_port ip u.port)
      ]
      else if contains endpoint (codes ":")
      then elim (split_host_port endpoint) [
        | some (host, port) ↦ join_host_port ip port
        | none ↦ join_host_port ip (trim_colon endpoint)
      ]
      else if is_empty endpoint
      then endpoint
      else if is_some (atoi endpoint)
      then join_host_port ip endpoint
      else ip

-- The probe to run, or the wait for the canary.
pub data Target : Type 0 where
  run : ValidationProbe → Target
  wait : Outcome → Target

module _ (net : Net) (client : Client) where
  open client use {State, get_deployment_created, list_canary_pods, has_probe_runner, now}

  -- No pod is ready: too late, crashing, or to be awaited.
  unfoldable pub await_canary :
      ValidationProbe → Option ℕ → List Pod → State → Result Target × State
  unfolding is_late any_crashing
  await_canary probe created pods = do
    time ← read now
    elim (is_late created (canary_timeout probe) time) [
      | true ↦ fail (failed (codes "canary pod failed to become ready"))
      | false ↦
          if any_crashing pods
          then fail (failed (codes "canary pod is crashing"))
          else return (wait (requeue_after 2))
    ]

  unfoldable pub choose_target :
      ValidationProbe → Option ℕ → List Pod → State → Result Target × State
  unfolding await_canary ready_pod
  choose_target probe created pods = elim (ready_pod pods) [
    | none ↦ await_canary probe created pods
    | some pod ↦
        return (run (record probe { endpoint = canary_endpoint net pod.pod_ip probe.endpoint }))
  ]

  abbrev pub is_nil : List Pod → Bool
  is_nil [] = true
  is_nil (p ∷ pods) = false

  unfoldable pub with_canary :
      DynamicSecretPolicy → ValidationProbe → Result (Option ℕ) → State → Result Target × State
  unfolding choose_target
  with_canary policy probe (err not_found) = return (run probe)
  with_canary policy probe (err e) = fail e
  with_canary policy probe (ok created) = do
    pods ← list_canary_pods policy.namespace (
        (label_canary, codes "true")
        ∷ (label_target_workload, policy.spec.workload_selector.name)
        ∷ [])
    if is_nil pods && has_probe_runner then return (run probe) else choose_target probe created pods

  unfoldable pub resolve_canary_probe_endpoint :
      DynamicSecretPolicy → ValidationProbe → State → Result Target × State
  unfolding with_canary
  resolve_canary_probe_endpoint policy probe =
      let target = policy.spec.workload_selector.name in
      elim (is_workload_probe net probe target) [
        | false ↦ return (run probe)
        | true ↦ do
          created ← attempt (
              get_deployment_created
                (record { name = target ++ codes "-canary"; namespace = policy.namespace }))
          with_canary policy probe created
      ]
