-- ===== src/Runs.antt =====
-- The data of an `AnsibleRun`: packages/schemas/src/runs.ts and common.ts. Times are the strings
-- that the program writes. The fields that the operator only passes on (`extraVars`, `stats`,
-- `resolvedPlaybookRevision`) are left out.
pub mod Status
pub mod Poll
pub mod Shards
pub mod Control
pub mod Reconcile
pub mod Slots
pub mod Writes
pub mod Starts
use a5e.Base.{ℕ, String, Bool, Option, none, List}
use a5e.Jobs.{AnsibleOptions, Resources}
use a5e.Refs.{Ref}

pub data RunPhase : Type 0 where
  pending resolving running succeeded failed error cancelled : RunPhase

pub data FailedStep : Type 0 where
  git_clone dependency_install playbook : FailedStep

pub record S3Log : Type 0 where
  pub bucket : String
  pub key : String
  pub endpoint : Option String
  pub size_bytes : Option ℕ
  pub uploaded_at : Option String

pub record PodRef : Type 0 where
  pub name : String
  pub container : String

pub record RunLogs : Type 0 where
  pub pod_ref : Option PodRef
  pub s3 : Option S3Log

pub record RunShardStatus : Type 0 where
  pub index : ℕ
  pub hosts : List String
  pub phase : Option RunPhase
  pub start_time : Option String
  pub completion_time : Option String
  pub job_ref : Option String
  pub pod_name : Option String
  pub exit_code : Option ℕ
  pub failed_step : Option FailedStep
  pub logs : Option RunLogs

pub data ConditionStatus : Type 0 where
  holds fails unknown : ConditionStatus

pub record Condition : Type 0 where
  pub type : String
  pub status : ConditionStatus
  pub reason : String
  pub message : String
  pub observed_generation : Option ℕ
  pub last_transition_time : String

pub record RunStatus : Type 0 where
  pub observed_generation : Option ℕ
  pub conditions : Option (List Condition)
  pub phase : Option RunPhase
  pub start_time : Option String
  pub completion_time : Option String
  pub job_ref : Option String
  pub pod_name : Option String
  pub exit_code : Option ℕ
  pub failed_step : Option FailedStep
  pub resolved_inventory_config_map_ref : Option String
  pub logs : Option RunLogs
  pub shards : Option (List RunShardStatus)

pub record ParallelConfig : Type 0 where
  pub enabled : Bool
  pub max_amount_of_hosts : ℕ
  pub max_concurrent_runs : ℕ

pub record RunSpec : Type 0 where
  pub playbook_ref : Ref
  pub inventory_ref : Ref
  pub ansible_options : Option AnsibleOptions
  pub timeout_seconds : Option ℕ
  pub ttl_seconds_after_finished : Option ℕ
  pub service_account_name : Option String
  pub resources : Option Resources
  pub parallel : Option ParallelConfig
  pub cancel : Option Bool

-- The object as the controller's cache holds it.
pub record Run : Type 0 where
  pub name : String
  pub namespace : String
  pub uid : String
  pub generation : Option ℕ
  pub spec : RunSpec
  pub status : Option RunStatus

abbrev pub no_status : RunStatus
no_status = record {
  observed_generation = none;
  conditions = none;
  phase = none;
  start_time = none;
  completion_time = none;
  job_ref = none;
  pod_name = none;
  exit_code = none;
  failed_step = none;
  resolved_inventory_config_map_ref = none;
  logs = none;
  shards = none;
}
