-- ===== src/Cluster.antt =====
-- What the operator asks of the outside: the API server's Jobs, Pods and logs, the status of a run,
-- the log store. They are calls of the module `Effects`. The wrapper
-- packages/operator/src/k8s/core.ts is in the module `Core`.
pub mod Core
pub mod Writes
use a5e.Effects
unfoldable pub use a5e.Effects.{pure, throw, try_catch, attempt, continue, ◌>>=◌, ◌>>◌, call, now}
use a5e.Base.{ℕ, String, Bool, true, false, Option, none, some, List, [], ◌∷◌, ◌++◌}
use a5e.Base.Result.{Result, ok, err, Failure}
use a5e.Jobs.{Job}
use a5e.Runs.{RunStatus}
use a5e.Schedules.{OwnedRun, NewRun, JobStatus}

pub record ContainerStatus : Type 0 where
  pub name : String
  -- `state.terminated.exitCode`
  pub terminated : Option ℕ

pub record Pod : Type 0 where
  pub name : Option String
  pub init_container_statuses : List ContainerStatus
  pub container_statuses : List ContainerStatus
  pub init_containers : List String
  pub containers : List String

-- `status.succeeded` and `status.failed` of a Job.
pub record JobState : Type 0 where
  pub succeeded : Option ℕ
  pub failed : Option ℕ

pub data Call : Type 0 where
  create_namespaced_job : (namespace : String) (job : Job) → Call
  read_namespaced_job : (namespace name : String) → Call
  read_job_state : (namespace name : String) → Call
  patch_job_ttl : (namespace name : String) (ttl : ℕ) → Call
  delete_namespaced_job : (namespace name : String) → Call
  list_pods : (namespace job_name : String) → Call
  read_pod_log : (namespace pod container : String) → Call
  patch_run_status : (namespace name : String) (status : RunStatus) → Call
  write_log : (key content : String) → Call
  list_owned_runs : (namespace label_selector : String) → Call
  create_run : (namespace : String) (run : NewRun) → Call
  cancel_owned_run : (namespace name : String) → Call
  delete_run : (namespace name : String) → Call
  patch_job_status : (namespace name : String) (status : JobStatus) → Call

-- The name of a Job, its state, pods, a log, the size of what was stored, runs, the name of a run.
abbrev pub Reply : Call → Type 0
Reply (create_namespaced_job _ _) = String
Reply (read_namespaced_job _ _) = String
Reply (read_job_state _ _) = JobState
Reply (patch_job_ttl _ _ _) = Unit
Reply (delete_namespaced_job _ _) = Unit
Reply (list_pods _ _) = List Pod
Reply (read_pod_log _ _ _) = String
Reply (patch_run_status _ _ _) = Unit
Reply (write_log _ _) = ℕ
Reply (list_owned_runs _ _) = List OwnedRun
Reply (create_run _ _) = String
Reply (cancel_owned_run _ _) = Unit
Reply (delete_run _ _) = Unit
Reply (patch_job_status _ _ _) = Unit

abbrev pub Server : Type 0 → Type 0
Server W = Effects.Server Call Reply W

abbrev pub Trace : Type 0 → Type 0
Trace W = Effects.Trace Call W

abbrev pub Act : Type 0 → Type 0 → Type 0
Act W A = Effects.Act Call W A
