-- ===== src/Runs/Status.antt =====
-- packages/operator/src/controllers/run-controller.ts: the phases, `patchRunStatus`, and what a
-- finished Pod tells about the run.
use a5e.Base.{
  ℕ, zero, suc, String, ◌<>◌, Bool, true, false, not, ◌&&◌, Option, none, some, List, [], ◌∷◌, ◌==◌,
  string_eq, if◌then◌else◌, find,
}
use a5e.Labels.{or_default}
use a5e.Refs.{or_else}
use a5e.Runs.{
  RunPhase, pending, resolving, running, succeeded, failed, error, cancelled, FailedStep, git_clone,
  dependency_install, playbook, Condition, holds, fails, RunStatus, Run, no_status,
}
use a5e.Cluster.{Server, Act, Pod, ContainerStatus, patch_run_status, call, now, ◌>>=◌}

-- `TERMINAL_PHASES.has(phase)`
unfoldable pub is_terminal : RunPhase → Bool
is_terminal succeeded = true
is_terminal failed = true
is_terminal error = true
is_terminal cancelled = true
is_terminal _ = false

-- `TERMINAL_SHARD_PHASES.has(phase)`
unfoldable pub is_terminal_shard : RunPhase → Bool
is_terminal_shard succeeded = true
is_terminal_shard failed = true
is_terminal_shard error = true
is_terminal_shard _ = false

-- The phase as it is written, and in lower case.
abbrev phase_name : RunPhase → String
phase_name pending = "Pending"
phase_name resolving = "Resolving"
phase_name running = "Running"
phase_name succeeded = "Succeeded"
phase_name failed = "Failed"
phase_name error = "Error"
phase_name cancelled = "Cancelled"

abbrev phase_lower : RunPhase → String
phase_lower pending = "pending"
phase_lower resolving = "resolving"
phase_lower running = "running"
phase_lower succeeded = "succeeded"
phase_lower failed = "failed"
phase_lower error = "error"
phase_lower cancelled = "cancelled"

-- The optional `{ reason, message }`.
pub record Override : Type 0 where
  pub reason : String
  pub message : String

abbrev pub status_of : Run → RunStatus
status_of obj = or_default no_status obj.status

reason_of : Option Override → RunPhase → String
reason_of none phase = phase_name phase
reason_of (some o) phase = o.reason

message_of : Option Override → RunPhase → String
message_of none phase = "run is " <> phase_lower phase
message_of (some o) phase = o.message

run_condition : Run → RunPhase → Option Override → String → Condition
unfolding reason_of message_of
run_condition obj phase override time = record {
  type = "Ready";
  status = elim phase [ succeeded ↦ holds | _ ↦ fails ];
  reason = reason_of override phase;
  message = message_of override phase;
  observed_generation = obj.generation;
  last_transition_time = time;
}

-- The status that `patchRunStatus` sends: the object's status, the patch's fields over it, the
-- generation, and a condition where the patch has a phase. `patch` writes the patch's other fields.
unfoldable pub merged_status :
    Run → (RunStatus → RunStatus) → Option RunPhase → Option Override → String → RunStatus
unfolding run_condition
merged_status obj patch none override time = record (patch (status_of obj)) {
  observed_generation = obj.generation;
}
merged_status obj patch (some phase) override time = record (patch (status_of obj)) {
  observed_generation = obj.generation;
  phase = some phase;
  conditions = some (run_condition obj phase override time ∷ []);
}

module _ {W : Type 0} (srv : Server W) where
  -- `patchRunStatus`
  unfoldable pub patch_status :
      Run → (RunStatus → RunStatus) → Option RunPhase → Option Override → Act W Unit
  unfolding merged_status
  patch_status obj patch phase override = do
    time ← now srv
    call srv (patch_run_status obj.namespace obj.name (merged_status obj patch phase override time))

-- `STEP_BY_INIT_CONTAINER[name]`
step_by_init_container : String → Option FailedStep
step_by_init_container name =
    if name == "fetch-content"
    then some git_clone
    else if name == "install-dependencies"
    then some dependency_install
    else none

exited_badly : Option ℕ → Bool
exited_badly none = false
exited_badly (some zero) = false
exited_badly (some (suc n)) = true

-- The loop over the init containers; the first failed one with a known name is the step.
init_step : List ContainerStatus → Option FailedStep
unfolding step_by_init_container exited_badly
init_step [] = none
init_step (s ∷ rest) =
    let later = init_step rest in
    if exited_badly s.terminated && not (s.name == "")
    then or_else (step_by_init_container s.name) later
    else later

main_status : Pod → Option ContainerStatus
main_status pod = find (λ c. c.name == "ansible-playbook") pod.container_statuses

main_step : Option ContainerStatus → Option FailedStep
unfolding exited_badly
main_step none = none
main_step (some main) = if exited_badly main.terminated then some playbook else none

-- `determineFailedStep`
unfoldable pub determine_failed_step : Pod → Option FailedStep
unfolding init_step main_status main_step
determine_failed_step pod =
    or_else (init_step pod.init_container_statuses) (main_step (main_status pod))

exit_of : Option ContainerStatus → Option ℕ
exit_of none = none
exit_of (some main) = main.terminated

-- `mainExitCode`
unfoldable pub main_exit_code : Pod → Option ℕ
unfolding main_status exit_of
main_exit_code pod = exit_of (main_status pod)
