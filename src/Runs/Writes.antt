-- ===== src/Runs/Writes.antt =====
-- What a parallel run writes to the status of its run.
use a5e.Base.{
  String, ℕ, zero, suc, ◌-◌, ◌≤◌, ◌≡◌, refl, Bool, true, false, ◌&&◌, ◌||◌, Option, none, some,
  List, [], ◌∷◌, tally, every, some_of, if◌then◌else◌, arith, ltb, ◌==◌, string_eq,
}
use a5e.Base.Result.{Result, ok, err}
use a5e.Sharding.{HostShard}
use a5e.Jobs.{Job}
use a5e.Runs.{RunPhase, RunShardStatus, RunStatus, Run}
use a5e.Runs.Status.{status_of, patch_status, merged_status, Override}
use a5e.Runs.Poll.{S3Config}
use a5e.Runs.Poll.Calls.{poll_job_to_completion-Emits}
use a5e.Runs.Shards.{
  PreparedRun, Preparation, prepared, requeue, is_running, is_finished, is_pending, overall_phase,
  step_of_first, poll_shards, poll_shard_job, poll_if_running, start_shard_job, requeued_shard,
}
use a5e.Runs.Shards.Steps.{ShardStep, Pointwise, Pointwise-both, tally-PollStep}
use a5e.Runs.Control.{
  refill, finish_parallel, save_shards, poll_parallel_run, fill_slots, fill_prepared, after_start,
}
use a5e.Runs.Slots.{poll_shards-PollStep, refill-Refilled}
use a5e.Cluster.{Server, Act, create_namespaced_job, read_namespaced_job, patch_run_status}
use a5e.Cluster.Core.{create_job}
use a5e.Cluster.Writes.{Writes, NoStatus, Emits-Writes}
use a5e.Effects.Emits.{
  Emits, Emits-pure, Emits-throw, Emits-call, Emits-now, Emits-bind, Emits-bind_ensured, Emits-if,
  Emits-attempt, Emits-try_catch,
}

-- The phase stays while a shard has not ended, and is the outcome of all once they have.
abbrev pub PhaseOf : Run → List RunShardStatus → Option RunPhase → Type 0
PhaseOf obj shards phase =
    if every is_finished shards
    then phase ≡ some (overall_phase shards)
    else phase ≡ (status_of obj).phase

-- A status that one reconcile of a parallel run may write.
abbrev pub ParallelStep : Run → ℕ → List RunShardStatus → RunStatus → Type 0
ParallelStep obj max_concurrent_runs before status =
    (after : List RunShardStatus) × (status.shards ≡ some after)
    × Pointwise ShardStep before after
    × (tally is_running after ≤ max_concurrent_runs)
    × PhaseOf obj after status.phase

module _ {W : Type 0} (srv : Server W) where
  pub create_job-Emits :
      (namespace : String) (job : Job) → Emits NoStatus (create_job srv namespace job)
  unfolding create_job
  create_job-Emits namespace job =
      Emits-try_catch _ _ (Emits-call srv (create_namespaced_job namespace job) tt) (λ e.
        Emits-if _ _ _
          (λ h.
            Emits-if (job.name == "") _ _ (λ h. Emits-throw e)
              (λ h. Emits-call srv (read_namespaced_job namespace job.name) tt))
          (λ h. Emits-throw e))

  poll_shard_job-Emits :
      (namespace run_name : String) (s : RunShardStatus) (job : Option String)
      (s3 : Option S3Config) (ttl : ℕ)
      → Emits NoStatus (poll_shard_job srv namespace run_name s job s3 ttl)
  unfolding poll_shard_job
  poll_shard_job-Emits namespace run_name s none s3 ttl = Emits-pure _
  poll_shard_job-Emits namespace run_name s (some job) s3 ttl =
      Emits-bind _ _ (poll_job_to_completion-Emits srv namespace job s3 _ ttl)
        (λ polled. Emits-bind _ _ (Emits-now srv) (λ time. Emits-pure _))

  poll_shards-Emits :
      (namespace run_name : String) (shards : List RunShardStatus) (s3 : Option S3Config) (ttl : ℕ)
      → Emits NoStatus (poll_shards srv namespace run_name shards s3 ttl)
  unfolding poll_shards poll_if_running
  poll_shards-Emits namespace run_name [] s3 ttl = Emits-pure _
  poll_shards-Emits namespace run_name (s ∷ shards) s3 ttl =
      Emits-bind _ _
        (Emits-if (is_running s) _ _
          (λ h. poll_shard_job-Emits namespace run_name s s.job_ref s3 ttl) (λ h. Emits-pure _))
        (λ r.
          Emits-bind _ _ (poll_shards-Emits namespace run_name shards s3 ttl)
            (λ rest. Emits-pure _))

  pub start_shard_job-Emits :
      (runner_image : String) (obj : Run) (prep : PreparedRun) (shard : HostShard)
      → Emits NoStatus (start_shard_job srv runner_image obj prep shard)
  unfolding start_shard_job
  start_shard_job-Emits runner_image obj prep shard =
      Emits-bind _ _ (create_job-Emits obj.namespace _)
        (λ job. Emits-bind _ _ (Emits-now srv) (λ time. Emits-pure _))

module _ {W : Type 0} (srv : Server W) (runner_image : String) (obj : Run) where
  after_start-Emits :
      (s : RunShardStatus) (shards : List RunShardStatus)
      (later : Act W (List RunShardStatus × Bool)) (r : Result RunShardStatus)
      → Emits NoStatus later
      → Emits NoStatus (after_start s shards later r)
  unfolding after_start
  after_start-Emits s shards later (err e) k = Emits-pure _
  after_start-Emits s shards later (ok started) k = Emits-bind _ _ k (λ r. Emits-pure _)

  fill_slots-Emits :
      (prep : PreparedRun) (free : ℕ) (shards : List RunShardStatus)
      → Emits NoStatus (fill_slots srv runner_image obj prep free shards)
  unfolding fill_slots
  fill_slots-Emits prep zero shards = Emits-pure _
  fill_slots-Emits prep (suc free) [] = Emits-pure _
  fill_slots-Emits prep (suc free) (s ∷ shards) =
      Emits-if (is_pending s) _ _
        (λ p.
          Emits-bind _ _
            (Emits-attempt _
              (start_shard_job-Emits srv runner_image obj prep (requeued_shard prep.groups s)))
            (λ r. after_start-Emits s shards _ r (fill_slots-Emits prep free shards)))
        (λ p. Emits-bind _ _ (fill_slots-Emits prep (suc free) shards) (λ r. Emits-pure _))

  fill_prepared-Emits :
      (free : ℕ) (shards : List RunShardStatus) (r : Result Preparation)
      → Emits NoStatus (fill_prepared srv runner_image obj free shards r)
  unfolding fill_prepared
  fill_prepared-Emits free shards (ok (prepared prep)) = fill_slots-Emits prep free shards
  fill_prepared-Emits free shards (ok requeue) = Emits-pure _
  fill_prepared-Emits free shards (err e) = Emits-pure _

  refill-Emits :
      (prepare : Act W Preparation) (max_concurrent_runs : ℕ) (shards : List RunShardStatus)
      → Emits NoStatus prepare
      → Emits NoStatus (refill srv runner_image obj prepare max_concurrent_runs shards)
  unfolding refill
  refill-Emits prepare m shards h =
      Emits-if (ltb 0 (m - tally is_running shards) && some_of is_pending shards) _ _
        (λ e.
          Emits-bind _ _ (Emits-attempt _ h)
            (fill_prepared-Emits (m - tally is_running shards) shards))
        (λ e. Emits-pure _)

  pub patch_status-Emits :
      (P : RunStatus → Type 0) (patch : RunStatus → RunStatus) (phase : Option RunPhase)
      (override : Option Override)
      → ((time : String) → P (merged_status obj patch phase override time))
      → Emits (Writes P) (patch_status srv obj patch phase override)
  unfolding patch_status
  patch_status-Emits P patch phase override h = Emits-bind _ _ (Emits-now srv) (λ time.
      Emits-call srv
        (patch_run_status obj.namespace obj.name (merged_status obj patch phase override time))
        (h time))

  phase_ended :
      (after : List RunShardStatus)
      → every is_finished after ≡ true
      → PhaseOf obj after (some (overall_phase after))
  phase_ended after e = rw e refl

  phase_kept :
      (after : List RunShardStatus)
      → every is_finished after ≡ false
      → PhaseOf obj after (status_of obj).phase
  phase_kept after e = rw e refl

  module _ (max_concurrent_runs : ℕ) (before : List RunShardStatus) where
    abbrev Saved : List RunShardStatus → Type 0
    Saved after = Pointwise ShardStep before after × (tally is_running after ≤ max_concurrent_runs)

    abbrev ended_patch : List RunShardStatus → String → RunStatus → RunStatus
    ended_patch after time s = record s {
      completion_time = some time;
      failed_step = step_of_first after;
      shards = some after;
    }

    abbrev kept_patch : List RunShardStatus → RunStatus → RunStatus
    kept_patch after s = record s { shards = some after }

    ended_write :
        (after : List RunShardStatus) (time again : String)
        → Saved after
        → every is_finished after ≡ true
        → ParallelStep obj max_concurrent_runs before
            (merged_status obj (ended_patch after time) (some (overall_phase after)) none again)
    unfolding merged_status
    ended_write after time again (h, b) e = (after, refl, h, b, phase_ended after e)

    kept_write :
        (after : List RunShardStatus) (again : String)
        → Saved after
        → every is_finished after ≡ false
        → ParallelStep obj max_concurrent_runs before
            (merged_status obj (kept_patch after) none none again)
    unfolding merged_status
    kept_write after again (h, b) e = (after, refl, h, b, phase_kept after e)

    finish_parallel-Emits :
        (after : List RunShardStatus)
        → Saved after
        → every is_finished after ≡ true
        → Emits
            (Writes (ParallelStep obj max_concurrent_runs before))
            (finish_parallel srv runner_image obj after)
    unfolding finish_parallel
    finish_parallel-Emits after h e = Emits-bind _ _ (Emits-now srv) (λ time.
        Emits-bind _ _
          (patch_status-Emits _ (ended_patch after time) (some (overall_phase after)) none
            (λ again. ended_write after time again h e))
          (λ _. Emits-pure _))

    save_shards-Emits :
        (changed : Bool) (after : List RunShardStatus)
        → Saved after
        → every is_finished after ≡ false
        → Emits
            (Writes (ParallelStep obj max_concurrent_runs before))
            (save_shards srv runner_image obj changed after)
    unfolding save_shards
    save_shards-Emits false after h e = Emits-pure _
    save_shards-Emits true after h e =
        Emits-bind _ _
          (patch_status-Emits _ (kept_patch after) none none (λ again. kept_write after again h e))
          (λ _. Emits-pure _)

  -- Each status that one poll of a parallel run writes is a step from the shards that it was given,
  -- where at most `max_concurrent_runs` of them run: shard by shard, in order, a shard stays as it
  -- is, or a running shard ends, or a pending one starts; at most `max_concurrent_runs` run
  -- afterwards; and the phase is the outcome of the shards if all of them have ended, and the
  -- phase that was there otherwise. The action that prepares the resources writes no run's status.
  pub poll_parallel_run-ParallelStep :
      (s3_config : Option S3Config) (prepare : Act W Preparation) (max_concurrent_runs : ℕ)
      (shards : List RunShardStatus)
      → tally is_running shards ≤ max_concurrent_runs
      → Emits NoStatus prepare
      → Emits
          (Writes (ParallelStep obj max_concurrent_runs shards))
          (poll_parallel_run srv runner_image obj s3_config prepare max_concurrent_runs shards)
  unfolding poll_parallel_run
  poll_parallel_run-ParallelStep s3_config prepare m shards b h =
      Emits-bind_ensured _ _ (Emits-Writes _ _ (poll_shards-Emits srv _ _ shards s3_config _))
        (poll_shards-PollStep srv _ _ shards s3_config _)
        (λ (polled, changed) (p, u).
          Emits-bind_ensured _ _ (Emits-Writes _ _ (refill-Emits prepare m polled h))
            (refill-Refilled srv runner_image obj prepare m polled)
            (λ (updated, filled) ((q, v), c).
              let saved : Saved m shards updated = (
                Pointwise-both shards polled updated p q,
                c (omega (arith, tally-PollStep shards polled p)),
              ) in
              Emits-if (every is_finished updated) _ _
                (λ e. finish_parallel-Emits m shards updated saved e)
                (λ e. save_shards-Emits m shards (changed || filled) updated saved e)))
