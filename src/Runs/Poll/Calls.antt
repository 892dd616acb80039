-- ===== src/Runs/Poll/Calls.antt =====
-- The calls that a poll of a Job makes, by the statuses that they write.
use a5e.Base.{ℕ, String, Bool, not, ◌||◌, Option, none, some, List, [], ◌∷◌, ◌==◌, string_eq}
use a5e.Base.Result.{Result, ok, err}
use a5e.Runs.{RunLogs}
use a5e.Runs.Poll.{
  S3Config, poll_job_to_completion, collect_logs, named_logs, full_logs, uploaded, archive, gather,
  polled_state, is_positive, pods_or_none, first_pod,
}
use a5e.Cluster.{
  Server, Pod, JobState, read_pod_log, write_log, list_pods, patch_job_ttl, read_job_state,
}
use a5e.Cluster.Core.{get_job, list_pods_for_job, get_pod_log, patch_job}
use a5e.Cluster.Writes.{NoStatus}
use a5e.Effects.Emits.{
  Emits, Emits-pure, Emits-call, Emits-now, Emits-bind, Emits-if, Emits-attempt,
}

module _ {W : Type 0} (srv : Server W) where
  get_pod_log-Emits :
      (namespace pod name : String) → Emits NoStatus (get_pod_log srv namespace pod name)
  unfolding get_pod_log
  get_pod_log-Emits namespace pod name = Emits-call srv (read_pod_log namespace pod name) tt

  collect_logs-Emits :
      (namespace pod : String) (names : List String)
      → Emits NoStatus (collect_logs srv namespace pod names)
  unfolding collect_logs
  collect_logs-Emits namespace pod [] = Emits-pure _
  collect_logs-Emits namespace pod (name ∷ names) =
      Emits-bind _ _ (Emits-attempt _ (get_pod_log-Emits namespace pod name))
        (λ log. Emits-bind _ _ (collect_logs-Emits namespace pod names) (λ rest. Emits-pure _))

  named_logs-Emits :
      (namespace : String) (pod : Pod) (name : Option String)
      → Emits NoStatus (named_logs srv namespace pod name)
  unfolding named_logs
  named_logs-Emits namespace pod none = Emits-pure _
  named_logs-Emits namespace pod (some name) =
      Emits-if (name == "") _ _ (λ e. Emits-pure _)
        (λ e. Emits-bind _ _ (collect_logs-Emits namespace name _) (λ chunks. Emits-pure _))

  full_logs-Emits :
      (namespace : String) (pod : Option Pod) → Emits NoStatus (full_logs srv namespace pod)
  unfolding full_logs
  full_logs-Emits namespace none = Emits-pure _
  full_logs-Emits namespace (some pod) = named_logs-Emits namespace pod pod.name

  uploaded-Emits :
      (config : S3Config) (key : String) (logs : Option RunLogs) (size : Result ℕ)
      → Emits NoStatus (uploaded srv config key logs size)
  unfolding uploaded
  uploaded-Emits config key logs (err e) = Emits-pure _
  uploaded-Emits config key logs (ok size) = Emits-bind _ _ (Emits-now srv) (λ time. Emits-pure _)

  archive-Emits :
      (config : Option S3Config) (key content : String) (logs : Option RunLogs)
      → Emits NoStatus (archive srv config key content logs)
  unfolding archive
  archive-Emits none key content logs = Emits-pure _
  archive-Emits (some config) key content logs =
      Emits-bind _ _ (Emits-attempt _ (Emits-call srv (write_log key content) tt))
        (λ size. uploaded-Emits config key logs size)

  gather-Emits :
      (namespace job_name : String) (s3 : Option S3Config) (key : String) (ttl : ℕ)
      (succeeded : Bool)
      → Emits NoStatus (gather srv namespace job_name s3 key ttl succeeded)
  unfolding gather list_pods_for_job patch_job
  gather-Emits namespace job_name s3 key ttl succeeded =
      Emits-bind _ _ (Emits-attempt _ (Emits-call srv (list_pods namespace job_name) tt)) (λ listed.
        Emits-bind _ _ (full_logs-Emits namespace (first_pod (pods_or_none srv listed))) (λ content.
          Emits-bind _ _ (archive-Emits s3 key content _) (λ logs.
            Emits-bind _ _
              (Emits-attempt _ (Emits-call srv (patch_job_ttl namespace job_name ttl) tt))
              (λ _. Emits-pure _))))

  polled_state-Emits :
      (namespace job_name : String) (s3 : Option S3Config) (key : String) (ttl : ℕ)
      (state : Result JobState)
      → Emits NoStatus (polled_state srv namespace job_name s3 key ttl state)
  unfolding polled_state
  polled_state-Emits namespace job_name s3 key ttl (err e) = Emits-pure _
  polled_state-Emits namespace job_name s3 key ttl (ok job) =
      Emits-if (not (is_positive job.succeeded || is_positive job.failed)) _ _ (λ e. Emits-pure _)
        (λ e. gather-Emits namespace job_name s3 key ttl (is_positive job.succeeded))

  pub poll_job_to_completion-Emits :
      (namespace job_name : String) (s3 : Option S3Config) (key : String) (ttl : ℕ)
      → Emits NoStatus (poll_job_to_completion srv namespace job_name s3 key ttl)
  unfolding poll_job_to_completion get_job
  poll_job_to_completion-Emits namespace job_name s3 key ttl =
      Emits-bind _ _ (Emits-attempt _ (Emits-call srv (read_job_state namespace job_name) tt))
        (λ state. polled_state-Emits namespace job_name s3 key ttl state)
