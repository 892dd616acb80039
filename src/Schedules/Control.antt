-- ===== src/Schedules/Control.antt =====
-- packages/operator/src/controllers/ansiblejob-controller.ts, `reconcileAnsibleJobs`, and
-- base-reconciler.ts, `patchReadyCondition`. Two functions come as parameters: `fire_time` is the
-- last time of a schedule up to a given one, from the package cron-parser, and `time_of` is the
-- number of milliseconds of a time that is written as text.
use a5e.Base.{
  ℕ, String, ◌<>◌, Bool, true, false, not, ◌&&◌, Option, none, some, List, [], ◌∷◌, map, ◌==◌,
  string_eq, nat_eq, option_eq, if◌then◌else◌, keep, find, ltb,
}
use a5e.Base.Result.{Result, ok, err}
use a5e.Labels.{or_default}
use a5e.Runs.{Condition, ConditionStatus, holds, fails, unknown}
use a5e.Schedules.{ConcurrencyPolicy, allow, forbid, replace, JobStatus, AnsibleJob, OwnedRun}
use a5e.Schedules.History.{is_active, runs_to_delete}
use a5e.Cluster.{
  Server, Act, call, now, pure, attempt, ◌>>=◌, ◌>>◌, list_owned_runs, create_run, cancel_owned_run,
  delete_run, patch_job_status,
}

abbrev no_patch : JobStatus
no_patch = record {
  observed_generation = none;
  conditions = none;
  last_schedule_time = none;
  last_run_ref = none;
  active = none;
}

abbrev pub job_status : AnsibleJob → JobStatus
job_status obj = or_default no_patch obj.status

abbrev same_status : ConditionStatus → ConditionStatus → Bool
same_status holds holds = true
same_status fails fails = true
same_status unknown unknown = true
same_status _ _ = false

abbrev status_for : Bool → ConditionStatus
status_for true = holds
status_for false = fails

-- The time of the last change of the condition's status.
transition_time : Option Condition → ConditionStatus → String → String
transition_time none status time = time
transition_time (some previous) status time =
    if same_status previous.status status then previous.last_transition_time else time

is_unchanged : Option Condition → ConditionStatus → String → String → Option ℕ → Bool
is_unchanged none status reason message generation = false
is_unchanged (some previous) status reason message generation =
    same_status previous.status status
    && (previous.reason == reason
        && (previous.message == message && previous.observed_generation == generation))

module _ {W : Type 0} (srv : Server W) where
  -- `patchReadyCondition`, given the conditions that the object has.
  unfoldable pub patch_ready_condition :
      AnsibleJob → List Condition → Bool → String → String → Act W Unit
  unfolding transition_time is_unchanged
  patch_ready_condition obj existing ready reason message = do
    time ← now srv
    let previous = find (λ c. c.type == "Ready") existing
    let status = status_for ready
    let condition : Condition = record {
      type = "Ready";
      status = status;
      reason = reason;
      message = message;
      observed_generation = obj.generation;
      last_transition_time = transition_time previous status time;
    }
    if is_unchanged previous status reason message obj.generation
        then pure tt
        else call srv (
            patch_job_status obj.namespace obj.name (record no_patch {
              conditions = some (condition ∷ keep (λ c. not (c.type == "Ready")) existing);
              observed_generation = obj.generation;
            }))

  -- `listOwnedRuns`
  unfoldable pub owned_runs : AnsibleJob → Act W (List OwnedRun)
  owned_runs obj = call srv (list_owned_runs obj.namespace ("a5e.k8s.rocks/job=" <> obj.name))

  -- `spawnRun`
  unfoldable pub spawn_run : AnsibleJob → Act W String
  spawn_run obj = call srv (
      create_run obj.namespace (record {
        generate_name = obj.name <> "-";
        job_label = obj.name;
        owner_name = obj.name;
        owner_uid = obj.uid;
        template = obj.spec.template;
      }))

  unfoldable pub delete_runs : String → List OwnedRun → Act W Unit
  delete_runs namespace [] = pure tt
  delete_runs namespace (run ∷ runs) = do
    attempt (call srv (delete_run namespace run.name))
    delete_runs namespace runs

  -- `pruneHistory`
  unfoldable pub prune_history : String → List OwnedRun → ℕ → ℕ → Act W Unit
  unfolding delete_runs runs_to_delete
  prune_history namespace runs successful_limit failed_limit =
      delete_runs namespace (runs_to_delete runs successful_limit failed_limit)

  unfoldable pub cancel_runs : String → List OwnedRun → Act W Unit
  cancel_runs namespace [] = pure tt
  cancel_runs namespace (run ∷ runs) = do
    call srv (cancel_owned_run namespace run.name)
    cancel_runs namespace runs

  unfoldable pub skip_occurrence : AnsibleJob → Act W Unit
  skip_occurrence obj = do
    time ← now srv
    call srv (
        patch_job_status obj.namespace obj.name
          (record no_patch { last_schedule_time = some time }))

  unfoldable pub start_occurrence : AnsibleJob → Act W Unit
  unfolding spawn_run
  start_occurrence obj = do
    run ← spawn_run obj
    time ← now srv
    call srv (
        patch_job_status obj.namespace obj.name
          (record no_patch { last_schedule_time = some time; last_run_ref = some run }))

  -- What a due occurrence does, given the active runs.
  unfoldable pub on_due : AnsibleJob → List OwnedRun → ConcurrencyPolicy → Act W Unit
  unfolding skip_occurrence start_occurrence cancel_runs
  on_due obj [] policy = start_occurrence obj
  on_due obj (run ∷ runs) forbid = skip_occurrence obj
  on_due obj (run ∷ runs) replace = do cancel_runs obj.namespace (run ∷ runs); start_occurrence obj
  on_due obj (run ∷ runs) allow = start_occurrence obj

  module _ (fire_time : String → String → Result ℕ) (time_of : String → ℕ) where
    unfoldable pub last_time : AnsibleJob → Option String → ℕ
    last_time obj none = time_of obj.creation_timestamp
    last_time obj (some time) = if time == "" then time_of obj.creation_timestamp else time_of time

    unfoldable pub if_due : AnsibleJob → ℕ → Act W Unit
    unfolding last_time owned_runs is_active on_due
    if_due obj due_since =
        if ltb (last_time obj (job_status obj).last_schedule_time) due_since && not obj.spec.suspend
        then (do
          runs ← owned_runs obj
          on_due obj (keep is_active runs) obj.spec.concurrency_policy)
        else pure tt

    -- The last part of `reconcileAnsibleJobs`, after the schedule.
    unfoldable pub finish_job : AnsibleJob → Act W Unit
    unfolding owned_runs prune_history is_active patch_ready_condition
    finish_job obj = do
      runs ← owned_runs obj
      prune_history obj.namespace runs obj.spec.successful_runs_history_limit
          obj.spec.failed_runs_history_limit
      call srv (
          patch_job_status obj.namespace obj.name (record no_patch {
            active = some (map (λ r. r.name) (keep is_active runs));
            observed_generation = obj.generation;
          }))
      patch_ready_condition obj (or_default [] (job_status obj).conditions) true "Ready"
          "job is valid"

    unfoldable pub with_fire_time : AnsibleJob → Result ℕ → Act W Unit
    unfolding if_due finish_job patch_ready_condition
    with_fire_time obj (err e) =
        patch_ready_condition obj (or_default [] (job_status obj).conditions) false
          "InvalidSchedule" e.message
    with_fire_time obj (ok due_since) = do if_due obj due_since; finish_job obj

    unfoldable pub on_schedule : AnsibleJob → Option String → Act W Unit
    unfolding with_fire_time finish_job
    on_schedule obj none = finish_job obj
    on_schedule obj (some schedule) =
        if schedule == ""
        then finish_job obj
        else (do time ← now srv; with_fire_time obj (fire_time schedule time))

    -- `reconcileAnsibleJobs`
    unfoldable pub reconcile_ansible_jobs : AnsibleJob → Act W Unit
    unfolding on_schedule
    reconcile_ansible_jobs obj = on_schedule obj obj.spec.schedule
