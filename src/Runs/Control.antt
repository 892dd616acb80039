-- ===== src/Runs/Control.antt =====
-- packages/operator/src/controllers/run-controller.ts: `startParallelRun` and `pollParallelRun`.
-- `prepareRunResources` comes as an action, `prepare`. `freeSlots`, which the source may drive
-- below zero, is a subtraction that stops there: the source only asks whether it is positive.
-- `console.error` is left out.
use a5e.Base.{
  ℕ, zero, suc, ◌-◌, String, Bool, true, false, ◌&&◌, ◌||◌, Option, none, some, List, [], ◌∷◌,
  string_eq, if◌then◌else◌, ltb, tally, some_of, every,
}
use a5e.Base.Result.{Result, ok, err}
use a5e.Labels.{or_default}
use a5e.Sharding.{HostShard, shard_hosts}
use a5e.Runs.{running, succeeded, RunShardStatus, ParallelConfig, Run}
use a5e.Runs.Status.{patch_status}
use a5e.Runs.Poll.{S3Config}
use a5e.Runs.Shards.{
  PreparedRun, Preparation, requeue, prepared, ReconcileResult, done, requeue_after, is_running,
  is_pending, is_finished, requeued_shard, overall_phase, step_of_first, start_shard_job,
  start_shards, poll_shards,
}
use a5e.Cluster.{Server, Act, now, pure, throw, attempt, ◌>>=◌, ◌>>◌}
use a5e.Base.Result.{thrown}

module _ {W : Type 0} where
  -- What follows a start in the loop below: an error ends the loop.
  unfoldable pub after_start :
      RunShardStatus
      → List RunShardStatus
      → Act W (List RunShardStatus × Bool)
      → Result RunShardStatus
      → Act W (List RunShardStatus × Bool)
  after_start s shards later (err e) = pure (s ∷ shards, false)
  after_start s shards later (ok started) = do (rest, changed) ← later; pure (started ∷ rest, true)

module _ {W : Type 0} (srv : Server W) (runner_image : String) (obj : Run) where
  -- The loop of `pollParallelRun` that starts pending shards while slots are free. It ends where a
  -- start throws, and keeps what was started before.
  unfoldable pub fill_slots :
      PreparedRun → ℕ → List RunShardStatus → Act W (List RunShardStatus × Bool)
  unfolding start_shard_job requeued_shard after_start
  fill_slots prep zero shards = pure (shards, false)
  fill_slots prep (suc free) [] = pure ([], false)
  fill_slots prep (suc free) (s ∷ shards) =
      let skip = (do
        (rest, changed) ← fill_slots prep (suc free) shards
        pure (s ∷ rest, changed)) in
      let start = (do
        started ← attempt (start_shard_job srv runner_image obj prep (requeued_shard prep.groups s))
        after_start s shards (fill_slots prep free shards) started) in
      if is_pending s then start else skip

  unfoldable pub fill_prepared :
      ℕ → List RunShardStatus → Result Preparation → Act W (List RunShardStatus × Bool)
  unfolding fill_slots
  fill_prepared free shards (ok (prepared prep)) = fill_slots prep free shards
  fill_prepared free shards (ok requeue) = pure (shards, false)
  fill_prepared free shards (err e) = pure (shards, false)

  -- The `if (freeSlots > 0 && hasPending)` of `pollParallelRun`.
  unfoldable pub refill :
      Act W Preparation → ℕ → List RunShardStatus → Act W (List RunShardStatus × Bool)
  unfolding fill_prepared
  refill prepare max_concurrent_runs shards =
      let free = max_concurrent_runs - tally is_running shards in
      if ltb 0 free && some_of is_pending shards
      then (do preparation ← attempt prepare; fill_prepared free shards preparation)
      else pure (shards, false)

  unfoldable pub finish_parallel : List RunShardStatus → Act W ReconcileResult
  unfolding patch_status overall_phase step_of_first
  finish_parallel shards = do
    time ← now srv
    patch_status srv obj
        (λ s. record s {
          completion_time = some time;
          failed_step = step_of_first shards;
          shards = some shards;
        })
        (some (overall_phase shards)) none
    pure done

  unfoldable pub save_shards : Bool → List RunShardStatus → Act W ReconcileResult
  unfolding patch_status
  save_shards false shards = pure (requeue_after 5000)
  save_shards true shards = do
    patch_status srv obj (λ s. record s { shards = some shards }) none none
    pure (requeue_after 5000)

  -- `pollParallelRun`
  unfoldable pub poll_parallel_run :
      Option S3Config → Act W Preparation → ℕ → List RunShardStatus → Act W ReconcileResult
  unfolding poll_shards refill finish_parallel save_shards
  poll_parallel_run s3_config prepare max_concurrent_runs shards = do
    (polled, changed) ←
        poll_shards srv obj.namespace obj.name shards s3_config
          (or_default 3600 obj.spec.ttl_seconds_after_finished)
    (updated, filled) ← refill prepare max_concurrent_runs polled
    if every is_finished updated
        then finish_parallel updated
        else save_shards (changed || filled) updated

  -- `startParallelRun`, given the shards.
  unfoldable pub run_shards : PreparedRun → ℕ → List HostShard → Act W ReconcileResult
  unfolding patch_status start_shards
  run_shards prep max_concurrent_runs [] = do
    time ← now srv
    patch_status srv obj
        (λ s. record s {
          start_time = some time;
          completion_time = some time;
          resolved_inventory_config_map_ref = some prep.inventory_config_map_name;
          shards = some [];
        })
        (some succeeded) none
    pure done
  run_shards prep max_concurrent_runs (first ∷ shards) = do
    statuses ← start_shards srv runner_image obj prep max_concurrent_runs (first ∷ shards) []
    time ← now srv
    patch_status srv obj
        (λ s. record s {
          start_time = some time;
          resolved_inventory_config_map_ref = some prep.inventory_config_map_name;
          shards = some statuses;
        })
        (some running) none
    pure (requeue_after 3000)

  -- The schema keeps `maxAmountOfHosts` positive, and then the cut into shards ends; the case of
  -- a cut that does not end stands as an error.
  unfoldable pub run_cut : PreparedRun → ℕ → Option (List HostShard) → Act W ReconcileResult
  unfolding run_shards
  run_cut prep max_concurrent_runs none = throw (thrown "the shards of a run have no hosts")
  run_cut prep max_concurrent_runs (some shards) = run_shards prep max_concurrent_runs shards

  -- `startParallelRun`
  unfoldable pub start_parallel_run : PreparedRun → ParallelConfig → Act W ReconcileResult
  unfolding run_cut shard_hosts
  start_parallel_run prep parallel =
      run_cut prep parallel.max_concurrent_runs
        (shard_hosts prep.groups parallel.max_amount_of_hosts)
