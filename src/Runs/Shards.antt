-- ===== src/Runs/Shards.antt =====
-- packages/operator/src/controllers/run-controller.ts: the shards of a parallel run, `startShardJob`,
-- `pollShardJob` and the loops over shards.
pub mod Steps
use a5e.Base.{
  ℕ, zero, suc, ◌-◌, String, ◌<>◌, Bool, true, false, ◌&&◌, ◌||◌, Option, none, some, List, [], ◌∷◌,
  ◌++◌, ◌==◌, string_eq, if◌then◌else◌, ltb, not, tally, some_of, every, find,
}
use a5e.Base.Decimal.{show_nat}
use a5e.Base.Result.{Result, ok, err}
use a5e.Labels.{or_default}
use a5e.Refs.{or_else}
use a5e.Inventory.{ResolvedGroup}
use a5e.Sharding.{HostShard, limit_for_host_names}
use a5e.Jobs.{AnsibleOptions, GitSource, SshKeyMount, JobBuildInput, build_job_spec}
use a5e.Runs.{
  RunPhase, pending, running, succeeded, failed, error, RunShardStatus, RunStatus, FailedStep, Run,
}
use a5e.Runs.Status.{is_terminal_shard, patch_status}
use a5e.Runs.Poll.{
  S3Config, JobPollResult, Polled, still_running, not_found, finished, poll_job_to_completion,
}
use a5e.Cluster.{Server, Act, now, pure, throw, attempt, ◌>>=◌, ◌>>◌}
use a5e.Cluster.Core.{create_job}

-- `PreparedRun`; the owner reference is the run's own name and uid.
pub record PreparedRun : Type 0 where
  pub groups : List ResolvedGroup
  pub inventory_config_map_name : String
  pub ssh_key_mounts : List SshKeyMount
  pub extra_vars_config_map_name : String
  pub entry_point : String
  pub playbook_config_map_name : Option String
  pub git_source : Option GitSource
  pub playbook_path : Option String
  pub has_dependencies : Bool
  pub requirements_config_map_name : Option String

-- The result of `prepareRunResources`.
pub data Preparation : Type 0 where
  requeue : Preparation
  prepared : PreparedRun → Preparation

abbrev pub is_some : Option RunShardStatus → Bool
is_some none = false
is_some (some s) = true

-- `void`, or `{ requeueAfterMs }`.
pub data ReconcileResult : Type 0 where
  done : ReconcileResult
  requeue_after : ℕ → ReconcileResult

-- `jobBuildInputFor`
unfoldable pub job_build_input :
    Run → String → PreparedRun → Option String → Option AnsibleOptions → JobBuildInput
job_build_input obj runner_image prep name_suffix options_override = record {
  run_name = obj.name;
  run_uid = obj.uid;
  namespace = obj.namespace;
  runner_image = runner_image;
  name_suffix = name_suffix;
  inventory_config_map_name = prep.inventory_config_map_name;
  playbook_config_map_name = prep.playbook_config_map_name;
  git_source = prep.git_source;
  playbook_path = prep.playbook_path;
  entry_point = prep.entry_point;
  has_dependencies = prep.has_dependencies;
  requirements_config_map_name = prep.requirements_config_map_name;
  extra_vars_config_map_name = prep.extra_vars_config_map_name;
  ssh_key_mounts = prep.ssh_key_mounts;
  ansible_options = or_else options_override obj.spec.ansible_options;
  timeout_seconds = obj.spec.timeout_seconds;
  service_account_name = obj.spec.service_account_name;
  resources = obj.spec.resources;
}

abbrev no_options : AnsibleOptions
no_options = record {
  verbosity = none;
  tags = none;
  skip_tags = none;
  limit = none;
  check_mode = none;
  forks = none;
}

-- `baseLimit ? `${baseLimit}:&${shard.limit}` : shard.limit`
shard_limit : Option String → String → String
shard_limit none limit = limit
shard_limit (some base) limit = if base == "" then limit else base <> (":&" <> limit)

unfoldable pub shard_options : Option AnsibleOptions → String → AnsibleOptions
unfolding shard_limit
shard_options none limit = record no_options { limit = some (shard_limit none limit) }
shard_options (some o) limit = record o { limit = some (shard_limit o.limit limit) }

abbrev pub is_running : RunShardStatus → Bool
is_running s = elim s.phase [ some running ↦ true | _ ↦ false ]

abbrev pub is_pending : RunShardStatus → Bool
is_pending s = elim s.phase [ some pending ↦ true | _ ↦ false ]

abbrev pub is_succeeded : RunShardStatus → Bool
is_succeeded s = elim s.phase [ some succeeded ↦ true | _ ↦ false ]

-- `s.phase && TERMINAL_SHARD_PHASES.has(s.phase)`
abbrev pub is_finished : RunShardStatus → Bool
is_finished s = elim s.phase [ some phase ↦ is_terminal_shard phase | none ↦ false ]

-- The status of a shard that waits for a slot.
abbrev pub pending_shard : HostShard → RunShardStatus
pending_shard shard = record {
  index = shard.index;
  hosts = shard.host_names;
  phase = some pending;
  start_time = none;
  completion_time = none;
  job_ref = none;
  pod_name = none;
  exit_code = none;
  failed_step = none;
  logs = none;
}

-- The shard of a status, with a limit for the groups as they are now.
unfoldable pub requeued_shard : List ResolvedGroup → RunShardStatus → HostShard
unfolding limit_for_host_names
requeued_shard groups s = record {
  index = s.index;
  host_names = s.hosts;
  limit = limit_for_host_names groups s.hosts;
}

abbrev pub ended_phase : Bool → RunPhase
ended_phase true = succeeded
ended_phase false = failed

-- The status of a shard after a poll; `none` is `undefined`, nothing changed.
unfoldable pub polled_shard : RunShardStatus → String → Polled → Option RunShardStatus
polled_shard shard time still_running = none
polled_shard shard time not_found =
    some (record shard { phase = some error; completion_time = some time })
polled_shard shard time (finished result) = some (record shard {
  phase = some (ended_phase result.succeeded);
  completion_time = some time;
  pod_name = result.pod_name;
  exit_code = result.exit_code;
  failed_step = result.failed_step;
  logs = result.logs;
})

-- The status of the whole run once every shard has ended.
unfoldable pub first_unsuccessful : List RunShardStatus → Option RunShardStatus
first_unsuccessful shards = find (λ s. not (is_succeeded s)) shards

unfoldable pub overall_phase : List RunShardStatus → RunPhase
unfolding first_unsuccessful
overall_phase shards = elim (first_unsuccessful shards) [ none ↦ succeeded | some s ↦ failed ]

unfoldable pub step_of_first : List RunShardStatus → Option FailedStep
unfolding first_unsuccessful
step_of_first shards = elim (first_unsuccessful shards) [ none ↦ none | some s ↦ s.failed_step ]

module _ {W : Type 0} (srv : Server W) where
  -- `startShardJob`
  unfoldable pub start_shard_job : String → Run → PreparedRun → HostShard → Act W RunShardStatus
  unfolding create_job build_job_spec job_build_input shard_options
  start_shard_job runner_image obj prep shard = do
    job ← create_job srv obj.namespace (
        build_job_spec (
          job_build_input obj runner_image prep (some (show_nat shard.index))
            (some (shard_options obj.spec.ansible_options shard.limit))))
    time ← now srv
    pure (record (pending_shard shard) {
      phase = some running;
      start_time = some time;
      job_ref = some job;
    })

  -- The loop of `startParallelRun`; `started` are the statuses made so far.
  unfoldable pub start_shards :
      String
      → Run
      → PreparedRun
      → ℕ
      → List HostShard
      → List RunShardStatus
      → Act W (List RunShardStatus)
  unfolding start_shard_job
  start_shards runner_image obj prep max_concurrent_runs [] started = pure started
  start_shards runner_image obj prep max_concurrent_runs (shard ∷ shards) started = do
    status ←
        if ltb (tally is_running started) max_concurrent_runs
        then start_shard_job runner_image obj prep shard
        else pure (pending_shard shard)
    start_shards runner_image obj prep max_concurrent_runs shards (started ++ (status ∷ []))

  -- `pollShardJob`
  unfoldable pub poll_shard_job :
      String
      → String
      → RunShardStatus
      → Option String
      → Option S3Config
      → ℕ
      → Act W (Option RunShardStatus)
  unfolding poll_job_to_completion polled_shard
  poll_shard_job namespace run_name shard none s3_config ttl = pure none
  poll_shard_job namespace run_name shard (some job) s3_config ttl = do
    polled ←
        poll_job_to_completion srv namespace job s3_config
          (namespace <> ("/" <> (run_name <> ("/shard-" <> (show_nat shard.index <> "/log.txt")))))
          ttl
    time ← now srv
    pure (polled_shard shard time polled)

  unfoldable pub poll_if_running :
      String → String → RunShardStatus → Option S3Config → ℕ → Act W (Option RunShardStatus)
  unfolding poll_shard_job
  poll_if_running namespace run_name shard s3_config ttl =
      if is_running shard
      then poll_shard_job namespace run_name shard shard.job_ref s3_config ttl
      else pure none

  -- The first loop of `pollParallelRun`: the statuses, and whether one changed.
  unfoldable pub poll_shards :
      String
      → String
      → List RunShardStatus
      → Option S3Config
      → ℕ
      → Act W (List RunShardStatus × Bool)
  unfolding poll_if_running
  poll_shards namespace run_name [] s3_config ttl = pure ([], false)
  poll_shards namespace run_name (shard ∷ shards) s3_config ttl = do
    polled ← poll_if_running namespace run_name shard s3_config ttl
    (rest, changed) ← poll_shards namespace run_name shards s3_config ttl
    pure (or_default shard polled ∷ rest, is_some polled || changed)
