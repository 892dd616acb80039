-- ===== src/Schedules.antt =====
-- The data of an `AnsibleJob`, a schedule that spawns runs: packages/schemas/src/jobs.ts. The extra
-- variables of the template, which are only passed on, are left out.
pub mod History
pub mod Control
pub mod Spawning
use a5e.Base.{ℕ, String, Bool, Option, List}
use a5e.Jobs.{AnsibleOptions, Resources}
use a5e.Refs.{Ref}
use a5e.Runs.{RunPhase, Condition, ParallelConfig}

pub record JobTemplate : Type 0 where
  pub playbook_ref : Ref
  pub inventory_ref : Ref
  pub ansible_options : Option AnsibleOptions
  pub timeout_seconds : Option ℕ
  pub ttl_seconds_after_finished : Option ℕ
  pub service_account_name : Option String
  pub resources : Option Resources
  pub parallel : Option ParallelConfig

pub data ConcurrencyPolicy : Type 0 where
  allow forbid replace : ConcurrencyPolicy

pub record JobSpec : Type 0 where
  pub template : JobTemplate
  pub schedule : Option String
  pub suspend : Bool
  pub concurrency_policy : ConcurrencyPolicy
  pub successful_runs_history_limit : ℕ
  pub failed_runs_history_limit : ℕ

-- As a patch, a field that is `none` is not sent.
pub record JobStatus : Type 0 where
  pub observed_generation : Option ℕ
  pub conditions : Option (List Condition)
  pub last_schedule_time : Option String
  pub last_run_ref : Option String
  pub active : Option (List String)

pub record AnsibleJob : Type 0 where
  pub name : String
  pub namespace : String
  pub uid : String
  pub generation : Option ℕ
  pub creation_timestamp : String
  pub spec : JobSpec
  pub status : Option JobStatus

-- A run as `listOwnedRuns` returns it. `created` is the number of its creation time, 0 without one.
pub record OwnedRun : Type 0 where
  pub name : String
  pub phase : Option RunPhase
  pub created : ℕ

-- The object that `spawnRun` creates.
pub record NewRun : Type 0 where
  pub generate_name : String
  pub job_label : String
  pub owner_name : String
  pub owner_uid : String
  pub template : JobTemplate
