-- ===== src/Schedules/Spawning.antt =====
-- How many runs a reconcile of an `AnsibleJob` creates.
use a5e.Base.{
  ℕ, ◌+◌, refl, Bool, true, false, not, ◌&&◌, Option, none, some, List, [], ◌∷◌, String, arith, ltb,
  if◌then◌else◌, Bool-cases, inl, inr, keep, ◌==◌, string_eq,
}
use a5e.Base.Result.{Result, ok, err}
use a5e.Labels.{or_default}
use a5e.Runs.{Condition}
use a5e.Schedules.{AnsibleJob, OwnedRun, ConcurrencyPolicy, allow, forbid, replace}
use a5e.Schedules.History.{is_active}
use a5e.Schedules.Control.{
  patch_ready_condition, owned_runs, spawn_run, delete_runs, prune_history, cancel_runs,
  skip_occurrence, start_occurrence, on_due, last_time, if_due, finish_job, with_fire_time,
  on_schedule, reconcile_ansible_jobs, job_status,
}
use a5e.Cluster.{
  Server, Act, Call, pure, create_run, cancel_owned_run, delete_run, patch_job_status,
  list_owned_runs,
}
use a5e.Effects.Makes.{
  Makes, Makes-pure, Makes-attempt, Makes-le, Makes-if, Makes-call, Makes-one, Makes-now,
  Makes-bind,
}

abbrev pub creates_run : Call → Bool
creates_run (create_run _ _) = true
creates_run _ = false

module _ {W : Type 0} (srv : Server W) where
  delete_runs-Makes :
      (namespace : String) (runs : List OwnedRun)
      → Makes creates_run 0 (delete_runs srv namespace runs)
  unfolding delete_runs
  delete_runs-Makes namespace [] = Makes-pure 0 tt
  delete_runs-Makes namespace (run ∷ runs) =
      Makes-bind 0 0 _ _ (Makes-attempt 0 _ (Makes-call srv 0 (delete_run namespace run.name) refl))
        (λ _. delete_runs-Makes namespace runs)

  cancel_runs-Makes :
      (namespace : String) (runs : List OwnedRun)
      → Makes creates_run 0 (cancel_runs srv namespace runs)
  unfolding cancel_runs
  cancel_runs-Makes namespace [] = Makes-pure 0 tt
  cancel_runs-Makes namespace (run ∷ runs) =
      Makes-bind 0 0 _ _ (Makes-call srv 0 (cancel_owned_run namespace run.name) refl)
        (λ _. cancel_runs-Makes namespace runs)

  patch_ready_condition-Makes :
      (obj : AnsibleJob) (existing : List Condition) (ready : Bool) (reason message : String)
      → Makes creates_run 0 (patch_ready_condition srv obj existing ready reason message)
  unfolding patch_ready_condition
  patch_ready_condition-Makes obj existing ready reason message =
      Makes-bind 0 0 _ _ (Makes-now srv 0) (λ time.
        Makes-if 0 _ _ _ (Makes-pure 0 tt)
          (Makes-call srv 0 (patch_job_status obj.namespace obj.name _) refl))

  start_occurrence-Makes : (obj : AnsibleJob) → Makes creates_run 1 (start_occurrence srv obj)
  unfolding start_occurrence spawn_run
  start_occurrence-Makes obj =
      Makes-bind 1 0 _ _ (Makes-one srv (create_run obj.namespace _)) (λ run.
        Makes-bind 0 0 _ _ (Makes-now srv 0)
          (λ time. Makes-call srv 0 (patch_job_status obj.namespace obj.name _) refl))

  on_due-Makes :
      (obj : AnsibleJob) (active : List OwnedRun) (policy : ConcurrencyPolicy)
      → Makes creates_run 1 (on_due srv obj active policy)
  unfolding on_due skip_occurrence
  on_due-Makes obj [] policy = start_occurrence-Makes obj
  on_due-Makes obj (run ∷ runs) forbid =
      Makes-bind 0 1 _ _ (Makes-now srv 0)
        (λ time. Makes-call srv 1 (patch_job_status obj.namespace obj.name _) refl)
  on_due-Makes obj (run ∷ runs) replace =
      Makes-bind 0 1 _ _ (cancel_runs-Makes obj.namespace (run ∷ runs))
        (λ _. start_occurrence-Makes obj)
  on_due-Makes obj (run ∷ runs) allow = start_occurrence-Makes obj

  owned_runs-Makes : (obj : AnsibleJob) → Makes creates_run 0 (owned_runs srv obj)
  unfolding owned_runs
  owned_runs-Makes obj = Makes-call srv 0 (list_owned_runs obj.namespace _) refl

  Makes-unless :
      (c suspended : Bool) (m : Act W Unit)
      → Makes creates_run 1 m
      → Makes creates_run (if suspended then 0 else 1) (if c && not suspended then m else pure tt)
  Makes-unless true true m h = Makes-pure 0 tt
  Makes-unless true false m h = h
  Makes-unless false true m h = Makes-pure 0 tt
  Makes-unless false false m h = Makes-pure 1 tt

  module _ (fire_time : String → String → Result ℕ) (time_of : String → ℕ) where
    if_due-Makes :
        (obj : AnsibleJob) (due_since : ℕ)
        → Makes creates_run
            (if obj.spec.suspend then 0 else 1)
            (if_due srv fire_time time_of obj due_since)
    unfolding if_due
    if_due-Makes obj due_since =
        Makes-unless
          (ltb (last_time srv fire_time time_of obj (job_status obj).last_schedule_time) due_since)
          obj.spec.suspend _
          (Makes-bind 0 1 _ _ (owned_runs-Makes obj)
            (λ runs. on_due-Makes obj (keep is_active runs) obj.spec.concurrency_policy))

    finish_job-Makes :
        (obj : AnsibleJob) → Makes creates_run 0 (finish_job srv fire_time time_of obj)
    unfolding finish_job prune_history
    finish_job-Makes obj = Makes-bind 0 0 _ _ (owned_runs-Makes obj) (λ runs.
        Makes-bind 0 0 _ _ (delete_runs-Makes obj.namespace _) (λ _.
          Makes-bind 0 0 _ _ (Makes-call srv 0 (patch_job_status obj.namespace obj.name _) refl)
            (λ _.
              patch_ready_condition-Makes obj (or_default [] (job_status obj).conditions) true
                "Ready" "job is valid")))

    with_fire_time-Makes :
        (obj : AnsibleJob) (r : Result ℕ)
        → Makes creates_run
            (if obj.spec.suspend then 0 else 1)
            (with_fire_time srv fire_time time_of obj r)
    unfolding with_fire_time
    with_fire_time-Makes obj (err e) =
        Makes-le 0 _ _
          (patch_ready_condition-Makes obj (or_default [] (job_status obj).conditions) false
            "InvalidSchedule" e.message)
          (omega arith)
    with_fire_time-Makes obj (ok due_since) =
        let n : ℕ = if obj.spec.suspend then 0 else 1 in
        Makes-le (n + 0) n _
          (Makes-bind n 0 _ _ (if_due-Makes obj due_since) (λ _. finish_job-Makes obj))
          (omega arith)

    -- The number of runs that one reconcile may create: none without a schedule, and none for a
    -- suspended job.
    abbrev pub quota : Option String → Bool → ℕ
    quota none suspended = 0
    quota (some schedule) suspended = if schedule == "" then 0 else (if suspended then 0 else 1)

    on_schedule-Makes :
        (obj : AnsibleJob) (schedule : Option String)
        → Makes creates_run
            (quota schedule obj.spec.suspend)
            (on_schedule srv fire_time time_of obj schedule)
    unfolding on_schedule
    on_schedule-Makes obj none = finish_job-Makes obj
    on_schedule-Makes obj (some schedule) = elim (Bool-cases (schedule == "")) [
      | inl t ↦ rw t (finish_job-Makes obj)
      | inr f ↦
          let n : ℕ = if obj.spec.suspend then 0 else 1 in
          rw f (
            Makes-le (0 + n) n _
              (Makes-bind 0 n _ _ (Makes-now srv 0)
                (λ time. with_fire_time-Makes obj (fire_time schedule time)))
              (omega arith))
    ]

    -- One reconcile of an `AnsibleJob` asks for at most one new run, however many occurrences were
    -- missed, and for none if the job is suspended or has no schedule. It asks in this way whatever
    -- the server answers.
    pub reconcile_ansible_jobs-Makes :
        (obj : AnsibleJob)
        → Makes creates_run
            (quota obj.spec.schedule obj.spec.suspend)
            (reconcile_ansible_jobs srv fire_time time_of obj)
    unfolding reconcile_ansible_jobs
    reconcile_ansible_jobs-Makes obj = on_schedule-Makes obj obj.spec.schedule
