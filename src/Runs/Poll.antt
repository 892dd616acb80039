-- ===== src/Runs/Poll.antt =====
-- packages/operator/src/controllers/run-controller.ts, `pollJobToCompletion`: one Job to its end,
-- with its logs. `console.error` is left out.
pub mod Calls
use a5e.Base.{
  ℕ, zero, suc, String, ◌<>◌, Bool, true, false, not, ◌||◌, Option, none, some, List, [], ◌∷◌, ◌++◌,
  ◌==◌, string_eq, if◌then◌else◌, keep, ltb,
}
use a5e.Base.Result.{Result, ok, err}
use a5e.Labels.{or_default, join}
use a5e.Runs.{FailedStep, RunLogs, S3Log, PodRef}
use a5e.Runs.Status.{determine_failed_step, main_exit_code}
use a5e.Cluster.{Server, Act, Pod, JobState, write_log, call, now, pure, attempt, ◌>>=◌, ◌>>◌}
use a5e.Cluster.Core.{get_job, list_pods_for_job, get_pod_log, patch_job}

-- The operator's log store, from packages/operator/src/s3/uploader.ts; the credentials only go to
-- the store's client.
pub record S3Config : Type 0 where
  pub bucket : String
  pub endpoint : Option String

pub record JobPollResult : Type 0 where
  pub succeeded : Bool
  pub pod_name : Option String
  pub exit_code : Option ℕ
  pub failed_step : Option FailedStep
  pub logs : Option RunLogs

-- `undefined`, `'not-found'`, or the result.
pub data Polled : Type 0 where
  still_running not_found : Polled
  finished : JobPollResult → Polled

container_names : Pod → List String
container_names pod = keep (λ n. not (n == "")) (pod.init_containers ++ pod.containers)

-- `pods[0]`
first_pod : List Pod → Option Pod
first_pod [] = none
first_pod (pod ∷ pods) = some pod

abbrev pod_name_of : Option Pod → Option String
pod_name_of none = none
pod_name_of (some pod) = pod.name

step_of : Option Pod → Option FailedStep
unfolding determine_failed_step
step_of none = none
step_of (some pod) = determine_failed_step pod

code_of : Option Pod → Option ℕ
unfolding main_exit_code
code_of none = none
code_of (some pod) = main_exit_code pod

-- The log of a container that has one, under its heading.
chunk_of : String → Result String → List String
chunk_of name (ok log) = ("==== " <> (name <> (" ====\n" <> log))) ∷ []
chunk_of name (err e) = []

pod_logs : Option String → Option RunLogs
pod_logs none = none
pod_logs (some name) =
    if name == ""
    then none
    else some (record {
      pod_ref = some (record { name = name; container = "ansible-playbook" });
      s3 = none;
    })

-- `{ ...logs, s3 }`
with_s3 : S3Log → Option RunLogs → RunLogs
with_s3 s3 none = record { pod_ref = none; s3 = some s3 }
with_s3 s3 (some logs) = record logs { s3 = some s3 }

is_positive : Option ℕ → Bool
is_positive n = ltb 0 (or_default 0 n)

module _ {W : Type 0} (srv : Server W) where
  -- The loop over the containers: one that has no log is skipped.
  collect_logs : String → String → List String → Act W (List String)
  unfolding get_pod_log chunk_of
  collect_logs namespace pod [] = pure []
  collect_logs namespace pod (name ∷ names) = do
    log ← attempt (get_pod_log srv namespace pod name)
    rest ← collect_logs namespace pod names
    pure (chunk_of name log ++ rest)

  named_logs : String → Pod → Option String → Act W String
  unfolding collect_logs container_names join
  named_logs namespace pod none = pure ""
  named_logs namespace pod (some pod_name) = if pod_name == "" then pure "" else do
    chunks ← collect_logs namespace pod_name (container_names pod)
    pure (join "\n\n" chunks)

  full_logs : String → Option Pod → Act W String
  unfolding named_logs
  full_logs namespace none = pure ""
  full_logs namespace (some pod) = named_logs namespace pod pod.name

  uploaded : S3Config → String → Option RunLogs → Result ℕ → Act W (Option RunLogs)
  unfolding with_s3
  uploaded config key logs (err e) = pure logs
  uploaded config key logs (ok size) = do
    time ← now srv
    pure (
        some (
          with_s3
            (record {
              bucket = config.bucket;
              key = key;
              endpoint = config.endpoint;
              size_bytes = some size;
              uploaded_at = some time;
            })
            logs))

  -- The upload to the store, if there is one; a failed upload leaves the logs as they are.
  archive : Option S3Config → String → String → Option RunLogs → Act W (Option RunLogs)
  unfolding uploaded
  archive none key content logs = pure logs
  archive (some config) key content logs = do
    size ← attempt (call srv (write_log key content))
    uploaded config key logs size

  pods_or_none : Result (List Pod) → List Pod
  pods_or_none (ok pods) = pods
  pods_or_none (err e) = []

  gather : String → String → Option S3Config → String → ℕ → Bool → Act W Polled
  unfolding list_pods_for_job pods_or_none first_pod full_logs archive pod_logs patch_job code_of
      step_of
  gather namespace job_name s3_config log_key ttl succeeded = do
    listed ← attempt (list_pods_for_job srv namespace job_name)
    let pod = first_pod (pods_or_none listed)
    content ← full_logs namespace pod
    logs ← archive s3_config log_key content (pod_logs (pod_name_of pod))
    attempt (patch_job srv namespace job_name ttl)
    pure (
        finished (record {
          succeeded = succeeded;
          pod_name = pod_name_of pod;
          exit_code = code_of pod;
          failed_step = step_of pod;
          logs = logs;
        }))

  polled_state : String → String → Option S3Config → String → ℕ → Result JobState → Act W Polled
  unfolding gather is_positive
  polled_state namespace job_name s3_config log_key ttl (err e) = pure not_found
  polled_state namespace job_name s3_config log_key ttl (ok job) =
      if not (is_positive job.succeeded || is_positive job.failed)
      then pure still_running
      else gather namespace job_name s3_config log_key ttl (is_positive job.succeeded)

  -- `pollJobToCompletion`
  unfoldable pub poll_job_to_completion :
      String → String → Option S3Config → String → ℕ → Act W Polled
  unfolding get_job polled_state
  poll_job_to_completion namespace job_name s3_config log_key ttl = do
    state ← attempt (get_job srv namespace job_name)
    polled_state namespace job_name s3_config log_key ttl state
