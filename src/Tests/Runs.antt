-- ===== src/Tests/Runs.antt =====
-- Runs against two small servers: one that answers every call, and one that refuses to create Jobs.
use a5e.Base.{
  String, ℕ, suc, ◌≡◌, refl, Bool, true, false, Option, none, some, List, [], ◌∷◌, ◌++◌, arith,
}
use a5e.Base.Result.{Result, ok, err, Failure}
use a5e.Refs.{Ref}
use a5e.Runs.{
  RunPhase, pending, resolving, running, error, RunShardStatus, RunStatus, no_status,
  ParallelConfig, Run,
}
use a5e.Runs.Status.{is_terminal, patch_status, merged_status}
use a5e.Runs.Shards.{PreparedRun, Preparation, prepared}
use a5e.Runs.Control.{poll_parallel_run, start_parallel_run}
use a5e.Runs.Writes.{ParallelStep, poll_parallel_run-ParallelStep}
use a5e.Runs.Starts.{StartWrite, start_parallel_run-StartOver}
use a5e.Runs.Reconcile.{reconcile_run, start_run, mark_resolving, start_prepared}
use a5e.Runs.Reconcile.Ends.{Cancels, reconcile_run-Cancels}
use a5e.Runs.Reconcile.Failures.{
  preparing, starting, HasMessage, start_run-thrown, start_run-uncaught,
}
use a5e.Cluster.{
  Server, Act, Trace, Call, Reply, create_namespaced_job, read_namespaced_job, read_job_state,
  patch_job_ttl, delete_namespaced_job, list_pods, read_pod_log, patch_run_status, write_log,
  list_owned_runs, create_run, cancel_owned_run, delete_run, patch_job_status, JobState, pure, now,
  throw, try_catch, call, ◌>>=◌,
}
use a5e.Effects.Emits.{Emits, Grows, Emits-pure}
use a5e.Cluster.Writes.{Writes}
use a5e.Tests.Hosts.{groups}

abbrev ended_job : JobState
ended_job = record { succeeded = some 1; failed = none }

abbrev answer : (c : Call) → ℕ → Result (Reply c) × ℕ
answer (create_namespaced_job _ job) w = (ok job.name, suc w)
answer (read_namespaced_job _ name) w = (ok name, w)
answer (read_job_state _ _) w = (ok ended_job, w)
answer (patch_job_ttl _ _ _) w = (ok tt, w)
answer (delete_namespaced_job _ _) w = (ok tt, w)
answer (list_pods _ _) w = (ok [], w)
answer (read_pod_log _ _ _) w = (ok "", w)
answer (patch_run_status _ _ _) w = (ok tt, w)
answer (write_log _ _) w = (ok 0, w)
answer (list_owned_runs _ _) w = (ok [], w)
answer (create_run _ run) w = (ok run.generate_name, w)
answer (cancel_owned_run _ _) w = (ok tt, w)
answer (delete_run _ _) w = (ok tt, w)
answer (patch_job_status _ _ _) w = (ok tt, w)

abbrev pub server : Server ℕ
server = record { perform = answer; clock = λ w. "2026-01-01T00:00:00Z" }

abbrev refused : Failure
refused = record { code = some 403; message = "jobs.batch is forbidden" }

abbrev refuse : (c : Call) → ℕ → Result (Reply c) × ℕ
refuse (create_namespaced_job _ job) w = (err refused, w)
refuse (read_namespaced_job _ name) w = (ok name, w)
refuse (read_job_state _ _) w = (ok ended_job, w)
refuse (patch_job_ttl _ _ _) w = (ok tt, w)
refuse (delete_namespaced_job _ _) w = (ok tt, w)
refuse (list_pods _ _) w = (ok [], w)
refuse (read_pod_log _ _ _) w = (ok "", w)
refuse (patch_run_status _ _ _) w = (ok tt, w)
refuse (write_log _ _) w = (ok 0, w)
refuse (list_owned_runs _ _) w = (ok [], w)
refuse (create_run _ run) w = (ok run.generate_name, w)
refuse (cancel_owned_run _ _) w = (ok tt, w)
refuse (delete_run _ _) w = (ok tt, w)
refuse (patch_job_status _ _ _) w = (ok tt, w)

abbrev refusing : Server ℕ
refusing = record { perform = refuse; clock = λ w. "2026-01-01T00:00:00Z" }

abbrev pub start : Trace ℕ
start = record { world = 0; calls = [] }

abbrev ref : String → Ref
ref kind = record { kind = kind; name = "site"; namespace = none }

abbrev two_at_a_time : ParallelConfig
two_at_a_time = record { enabled = true; max_amount_of_hosts = 1; max_concurrent_runs = 1 }

abbrev run_of : Option ParallelConfig → Option Bool → RunStatus → Run
run_of parallel cancel status = record {
  name = "nightly";
  namespace = "dev";
  uid = "u1";
  generation = some 1;
  spec = record {
    playbook_ref = ref "AnsiblePlaybook";
    inventory_ref = ref "AnsibleInventory";
    ansible_options = none;
    timeout_seconds = none;
    ttl_seconds_after_finished = none;
    service_account_name = none;
    resources = none;
    parallel = parallel;
    cancel = cancel;
  };
  status = some status;
}

abbrev shard : ℕ → String → RunPhase → Option String → RunShardStatus
shard index host phase job = record {
  index = index;
  hosts = host ∷ [];
  phase = some phase;
  start_time = none;
  completion_time = none;
  job_ref = job;
  pod_name = none;
  exit_code = none;
  failed_step = none;
  logs = none;
}

abbrev two_shards : List RunShardStatus
two_shards = shard 0 "web" running (some "nightly-0") ∷ shard 1 "db" pending none ∷ []

abbrev running_status : RunStatus
running_status = record no_status { phase = some running; shards = some two_shards }

abbrev parallel_run : Run
parallel_run = run_of (some two_at_a_time) none running_status

abbrev prep : PreparedRun
prep = record {
  groups = groups;
  inventory_config_map_name = "nightly-inventory";
  ssh_key_mounts = [];
  extra_vars_config_map_name = "nightly-vars";
  entry_point = "site.yml";
  playbook_config_map_name = some "nightly-playbook";
  git_source = none;
  playbook_path = none;
  has_dependencies = false;
  requirements_config_map_name = none;
}

abbrev prepare : Act ℕ Preparation
prepare = pure (prepared prep)

poll_parallel_run-ParallelStep_example :
    Emits
      (Writes (ParallelStep parallel_run 1 two_shards))
      (poll_parallel_run server "runner:1" parallel_run none prepare 1 two_shards)
poll_parallel_run-ParallelStep_example =
    poll_parallel_run-ParallelStep server "runner:1" parallel_run none prepare 1 two_shards
      (omega arith) (Emits-pure (prepared prep))

start_parallel_run-StartOver_example :
    Emits
      (Writes (StartWrite server "runner:1" parallel_run prep two_at_a_time))
      (start_parallel_run server "runner:1" parallel_run prep two_at_a_time)
start_parallel_run-StartOver_example =
    start_parallel_run-StartOver server "runner:1" parallel_run prep two_at_a_time

abbrev cancelled_run : Run
cancelled_run = run_of (some two_at_a_time) (some true) running_status

reconcile_run-Cancels_example :
    (new : List Call) × ((reconcile_run server "runner:1" cancelled_run none prepare start).1.calls
      ≡ [] ++ new)
    × Cancels server "runner:1" cancelled_run ("nightly-0" ∷ []) new
unfolding is_terminal
reconcile_run-Cancels_example =
    reconcile_run-Cancels server "runner:1" cancelled_run none prepare running start refl refl refl

abbrev resolving_run : Option ParallelConfig → Run
resolving_run parallel = run_of parallel none (record no_status { phase = some resolving })

-- The server refuses the Job of the run.
job_refused :
    starting refusing "runner:1" (resolving_run none) prepare start
    ≡ (err refused, (starting refusing "runner:1" (resolving_run none) prepare start).1)
unfolding ◌>>=◌ mark_resolving pure start_prepared try_catch call throw
job_refused = refl

-- A parallel run without a status yet, and the trace once it is prepared.
abbrev new_run : Run
new_run = run_of (some two_at_a_time) none no_status

abbrev resolved : Trace ℕ
resolved = (preparing refusing "runner:1" new_run prepare start).1

run_prepared : preparing refusing "runner:1" new_run prepare start ≡ (ok (prepared prep), resolved)
unfolding ◌>>=◌ mark_resolving patch_status merged_status now call pure
run_prepared = refl

shard_refused :
    (start_parallel_run refusing "runner:1" new_run prep two_at_a_time resolved).0 ≡ err refused
unfolding start_parallel_run ◌>>=◌ try_catch call throw mark_resolving patch_status merged_status
    now pure
shard_refused = refl

start_run-thrown_example :
    (status : RunStatus) × ((start_run refusing "runner:1"
        (resolving_run none)
        prepare
        start).1.calls
      ≡ (starting refusing "runner:1" (resolving_run none) prepare start).1.calls
        ++ (patch_run_status "dev" "nightly" status ∷ []))
    × (status.phase ≡ some error)
    × HasMessage refusing "runner:1"
        (resolving_run none)
        "jobs.batch is forbidden"
        status.conditions
start_run-thrown_example =
    start_run-thrown refusing "runner:1" (resolving_run none) prepare refused start
      (starting refusing "runner:1" (resolving_run none) prepare start).1 job_refused

start_run-uncaught_example :
    ((start_run refusing "runner:1" new_run prepare start).0 ≡ err refused)
    × Grows (Writes (λ status. status.phase ≡ some resolving)) start resolved
    × Grows
        (Writes (StartWrite refusing "runner:1" new_run prep two_at_a_time))
        resolved
        (start_run refusing "runner:1" new_run prepare start).1
start_run-uncaught_example =
    start_run-uncaught refusing "runner:1" new_run prepare prep two_at_a_time refused start resolved
      (Emits-pure (prepared prep)) run_prepared refl shard_refused
