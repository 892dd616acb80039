-- ===== src/Runs/Reconcile.antt =====
-- packages/operator/src/controllers/run-controller.ts: `startRun`, `pollRun` and `reconcileRun`.
-- `prepareRunResources` comes as an action, `prepare`. `console.error` is left out.
pub mod Ends
pub mod Failures
use a5e.Base.{
  ℕ, String, ◌<>◌, Bool, true, false, not, Option, none, some, List, [], ◌∷◌, if◌then◌else◌,
}
use a5e.Base.Result.{Failure, thrown}
use a5e.Labels.{or_default}
use a5e.Jobs.{build_job_spec}
use a5e.Runs.{
  RunPhase, resolving, running, error, cancelled, RunShardStatus, RunStatus, ParallelConfig, Run,
}
use a5e.Runs.Status.{is_terminal, status_of, patch_status, Override}
use a5e.Runs.Poll.{S3Config, Polled, still_running, not_found, finished, poll_job_to_completion}
use a5e.Runs.Shards.{
  PreparedRun, Preparation, requeue, prepared, ReconcileResult, done, requeue_after,
  job_build_input, ended_phase,
}
use a5e.Runs.Control.{start_parallel_run, poll_parallel_run}
use a5e.Cluster.{Server, Act, now, pure, throw, attempt, try_catch, ◌>>=◌, ◌>>◌}
use a5e.Cluster.Core.{create_job, delete_job}

-- What the `try` block of `startRun` returns: a result, or the promise of `startParallelRun`. The
-- promise is returned without `await`, so the `catch` does not see its rejection.
pub data StartOutcome : Type 0 where
  returned : ReconcileResult → StartOutcome
  parallel_promise : PreparedRun → ParallelConfig → StartOutcome

abbrev pub is_resolving : Option RunPhase → Bool
is_resolving (some resolving) = true
is_resolving _ = false

abbrev pub parallel_of : Option ParallelConfig → Option ParallelConfig
parallel_of none = none
parallel_of (some parallel) = if parallel.enabled then some parallel else none

module _ {W : Type 0} (srv : Server W) (runner_image : String) (obj : Run) where
  unfoldable pub mark_resolving : Act W Unit
  unfolding patch_status
  mark_resolving =
      if not (is_resolving (status_of obj).phase)
      then patch_status srv obj (λ s. s) (some resolving) none
      else pure tt

  start_single : PreparedRun → Act W ReconcileResult
  unfolding create_job build_job_spec job_build_input patch_status
  start_single prep = do
    job ←
        create_job srv obj.namespace
          (build_job_spec (job_build_input obj runner_image prep none none))
    time ← now srv
    patch_status srv obj
        (λ s. record s {
          start_time = some time;
          job_ref = some job;
          resolved_inventory_config_map_ref = some prep.inventory_config_map_name;
        })
        (some running) none
    pure (requeue_after 3000)

  unfoldable pub start_prepared : Preparation → Option ParallelConfig → Act W StartOutcome
  unfolding start_single
  start_prepared requeue parallel = pure (returned (requeue_after 3000))
  start_prepared (prepared prep) (some parallel) = pure (parallel_promise prep parallel)
  start_prepared (prepared prep) none = do result ← start_single prep; pure (returned result)

  unfoldable pub start_failed : Failure → Act W StartOutcome
  unfolding patch_status
  start_failed e = do
    time ← now srv
    patch_status srv obj (λ s. record s { completion_time = some time }) (some error)
        (some (record { reason = "Error"; message = e.message }))
    pure (returned done)

  unfoldable pub settle : StartOutcome → Act W ReconcileResult
  unfolding start_parallel_run
  settle (returned result) = pure result
  settle (parallel_promise prep parallel) = start_parallel_run srv runner_image obj prep parallel

  -- `startRun`
  unfoldable pub start_run : Act W Preparation → Act W ReconcileResult
  unfolding mark_resolving start_prepared start_failed settle
  start_run prepare = do
    outcome ←
        try_catch
          (do mark_resolving; prep ← prepare; start_prepared prep (parallel_of obj.spec.parallel))
          start_failed
    settle outcome

  polled_run : String → Polled → Act W ReconcileResult
  unfolding patch_status
  polled_run job_name still_running = pure (requeue_after 5000)
  polled_run job_name not_found = do
    time ← now srv
    patch_status srv obj (λ s. record s { completion_time = some time }) (some error)
        (some (record {
          reason = "JobNotFound";
          message = "Job " <> (obj.namespace <> ("/" <> (job_name <> " not found")));
        }))
    pure done
  polled_run job_name (finished result) = do
    time ← now srv
    patch_status srv obj
        (λ s. record s {
          completion_time = some time;
          pod_name = result.pod_name;
          exit_code = result.exit_code;
          failed_step = result.failed_step;
          logs = result.logs;
        })
        (some (ended_phase result.succeeded)) none
    pure done

  -- `pollRun`
  unfoldable pub poll_run : Option S3Config → String → Act W ReconcileResult
  unfolding poll_job_to_completion polled_run
  poll_run s3_config job_name = do
    result ←
        poll_job_to_completion srv obj.namespace job_name s3_config
          (obj.namespace <> ("/" <> (obj.name <> "/log.txt")))
          (or_default 3600 obj.spec.ttl_seconds_after_finished)
    polled_run job_name result

  -- `if (jobRef) await deleteJob(…).catch(() => undefined)`
  delete_if_any : Option String → Act W Unit
  unfolding delete_job
  delete_if_any none = pure tt
  delete_if_any (some job) = do attempt (delete_job srv obj.namespace job); pure tt

  delete_shard_jobs : List RunShardStatus → Act W Unit
  unfolding delete_if_any
  delete_shard_jobs [] = pure tt
  delete_shard_jobs (shard ∷ shards) = do delete_if_any shard.job_ref; delete_shard_jobs shards

  cancel_run : RunStatus → Act W ReconcileResult
  unfolding delete_if_any delete_shard_jobs patch_status
  cancel_run status = do
    delete_if_any status.job_ref
    delete_shard_jobs (or_default [] status.shards)
    time ← now srv
    patch_status srv obj (λ s. record s { completion_time = some time }) (some cancelled) none
    pure done

  -- `pollParallelRun` reads `obj.spec.parallel!.maxConcurrentRuns` before anything else.
  poll_parallel :
      Option S3Config
      → Act W Preparation
      → List RunShardStatus
      → Option ParallelConfig
      → Act W ReconcileResult
  unfolding poll_parallel_run
  poll_parallel s3_config prepare shards none =
      throw (thrown "undefined is not an object (evaluating 'obj.spec.parallel.maxConcurrentRuns')")
  poll_parallel s3_config prepare shards (some parallel) =
      poll_parallel_run srv runner_image obj s3_config prepare parallel.max_concurrent_runs shards

  -- `status.phase === 'Running'`: with shards, with a Job, or with neither.
  poll_running :
      Option S3Config
      → Act W Preparation
      → Option (List RunShardStatus)
      → Option String
      → Act W ReconcileResult
  unfolding poll_parallel poll_run start_run
  poll_running s3_config prepare (some shards) job =
      poll_parallel s3_config prepare shards obj.spec.parallel
  poll_running s3_config prepare none (some job) = poll_run s3_config job
  poll_running s3_config prepare none none = start_run prepare

  reconcile_phase :
      Option S3Config
      → Act W Preparation
      → RunStatus
      → Bool
      → Option RunPhase
      → Act W ReconcileResult
  unfolding is_terminal cancel_run poll_running start_run
  reconcile_phase s3_config prepare status cancel none = start_run prepare
  reconcile_phase s3_config prepare status cancel (some running) =
      if cancel
      then cancel_run status
      else poll_running s3_config prepare status.shards status.job_ref
  reconcile_phase s3_config prepare status cancel (some phase) =
      if is_terminal phase
      then pure done
      else if cancel
      then cancel_run status
      else start_run prepare

  -- `reconcileRun`
  unfoldable pub reconcile_run : Option S3Config → Act W Preparation → Act W ReconcileResult
  unfolding reconcile_phase
  reconcile_run s3_config prepare =
      let status = status_of obj in
      reconcile_phase s3_config prepare status (or_default false obj.spec.cancel) status.phase
