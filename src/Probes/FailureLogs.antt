-- ===== src/Probes/FailureLogs.antt =====
-- `RetrieveFailureLogs` of internal/probes/job.go: the logs that a failed probe Job's error shows.
use dynamic_secret_operator.Prelude.{ℕ, Text, codes, Bool, List, [], ◌∷◌, ◌++◌, take, if◌then◌else◌}
use dynamic_secret_operator.Client.{Result, ok, err}

-- Of a pod of the Job, what is read.
pub record JobPod : Type 0 where
  pub name : Text
  pub has_failed : Bool
  pub container_names : List Text

-- A log as its bytes. What streaming it gives: an error's text, a text with an error while it is read, or all of it.
pub data Streamed : Type 0 where
  not_streamed unread streamed : Text → Streamed

pub record LogSource (S : Type 0) : Type 0 where
  -- Whether the operator has a clientset.
  pub has_kube_client : Bool
  -- The pods with the Job's label in a namespace.
  pub list_job_pods : Text → Text → S → Result (List JobPod) × S
  -- The log of a container of a pod in a namespace, of so many bytes at most.
  pub stream_logs : Text → Text → Text → ℕ → S → Streamed × S

abbrev pub max_failure_log_bytes : ℕ
max_failure_log_bytes = 4096

-- The first failed pod, or else the first.
unfoldable pub failed_pod : JobPod → List JobPod → JobPod
failed_pod first [] = first
failed_pod first (p ∷ pods) = if p.has_failed then p else failed_pod first pods

-- The first container's name.
abbrev pub first_container : List Text → Text
first_container [] = []
first_container (n ∷ names) = n

abbrev pub log_text : Streamed → Text
log_text (not_streamed e) = codes "(failed to stream pod logs: " ++ (e ++ codes ")")
log_text (unread e) = codes "(error reading pod logs: " ++ (e ++ codes ")")
log_text (streamed t) = take max_failure_log_bytes t

module _ {S : Type 0} (logs : LogSource S) where
  open logs use {has_kube_client, list_job_pods, stream_logs}

  abbrev pub logs_of : Text → Result (List JobPod) × S → Text × S
  logs_of namespace (err e, s) = (codes "(no pods found for failed job)", s)
  logs_of namespace (ok [], s) = (codes "(no pods found for failed job)", s)
  logs_of namespace (ok (p ∷ pods), s) =
      let pod = failed_pod p (p ∷ pods) in
      let read =
        stream_logs namespace pod.name (first_container pod.container_names) max_failure_log_bytes
          s in
      (log_text read.0, read.1)

  unfoldable pub retrieve_failure_logs : Text → Text → S → Text × S
  unfolding failed_pod
  retrieve_failure_logs namespace job_name s =
      if has_kube_client
      then logs_of namespace (list_job_pods namespace job_name s)
      else (codes "(log retrieval unavailable: kubernetes client not configured)", s)
