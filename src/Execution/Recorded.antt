-- ===== src/Execution/Recorded.antt =====
-- execution_event.go: the checks of `applyExecutionRecorded` on a decoded record.
use fabricrunner.Prelude.{
  ℕ, Bool, false, not, ◌&&◌, Option, none, some, List, [], ◌∷◌, eqb, is_some, ◌==◌, ◌!=◌, Text,
  text_beq, text_eq, message, err, Check, ◌>>=◌, ◌>>◌, fail_if, prefix_error, all_checks, is_neg,
}
use fabricrunner.Id.{FabricId, validate_id}
use fabricrunner.Strings.{validate_sha256}
use fabricrunner.Domain.{
  validate_class, WorkloadState, workload_state_eq, WorkloadState-discrete, Step, StepState,
  step_state_eq, StepState-discrete,
}
use fabricrunner.Event.{Event}
use fabricrunner.Execution.{
  ExecutionStage, policy_evaluated, routing_decided, loop_event, finished, sandbox, approval,
  budget, cleanup, compaction, request, resumed, other_stage, execution_stage_eq,
  ExecutionStage-discrete, ExecutionRecord, Earlier, scan_earlier, payload_count,
}
use fabricrunner.Execution.Stages.{
  check_compaction, check_approval, check_budget, check_cleanup, check_sandbox, check_policy,
  check_routing, check_result,
}
use fabricrunner.Execution.LoopStage.{check_loop}

-- `!ok || step.State != StepRunning`
unfoldable pub is_running : Option Step → Bool
unfolding StepState-discrete
is_running none = false
is_running (some s) = s.state == StepState.running

module _ (json_valid : Text → Bool) (sha256 : List ℕ → List ℕ) where
  -- The switch on the stage, for the workload of that ID.
  unfoldable pub check_stage : FabricId → Event → Earlier → ExecutionRecord → ExecutionStage → Check
  unfolding validate_sha256 check_compaction check_approval check_budget check_cleanup check_sandbox
      check_policy check_routing check_loop check_result
  check_stage workload e earlier r request =
      prefix_error "request digest" (validate_sha256 r.request_sha256)
  check_stage workload e earlier r resumed =
      prefix_error "request digest" (validate_sha256 r.request_sha256)
  check_stage workload e earlier r compaction =
      check_compaction json_valid r.classification e.sequence r.compaction_record
  check_stage workload e earlier r approval = check_approval workload r.step_id r.approval_record
  check_stage workload e earlier r budget = check_budget r.budget_record
  check_stage workload e earlier r cleanup = check_cleanup r.cleanup_record
  check_stage workload e earlier r sandbox = check_sandbox r.sandbox_event
  check_stage workload e earlier r policy_evaluated =
      check_policy sha256 workload r.step_id e.attempt_id r.manifest r.verdict
  check_stage workload e earlier r routing_decided =
      check_routing workload r.step_id e.attempt_id r.turn r.routing
  check_stage workload e earlier r loop_event = check_loop json_valid r.turn earlier r.loop
  check_stage workload e earlier r finished = check_result r.result
  check_stage workload e earlier r (other_stage s) = err (message "unknown execution stage")

  -- All of the checks, in the code's order.
  unfoldable pub check_record :
      WorkloadState
      → FabricId
      → Option Step
      → List ExecutionRecord
      → Event
      → ExecutionRecord
      → Check
  unfolding is_running validate_id text_beq scan_earlier validate_class payload_count check_stage
      WorkloadState-discrete ExecutionStage-discrete
  check_record state workload step recorded e r = do
    all_checks (
        fail_if (state != WorkloadState.running)
          (message "execution record requires a running workload")
        ∷ fail_if (not (is_running step)) (message "execution record requires a running step")
        ∷ validate_id e.attempt_id
        ∷ fail_if (e.correlation_id != workload)
            (message "execution correlation does not match workload")
        ∷ [])
    earlier ←
        scan_earlier r.step_id r.turn (record { previous_loop = none; last_routing = none })
          recorded
    all_checks (
        fail_if (is_neg r.turn) (message "negative turn")
        ∷ validate_class r.classification
        ∷ fail_if (not (eqb (payload_count r) 1))
            (message "execution record must have exactly one payload")
        ∷ check_stage workload e earlier r r.stage
        ∷ fail_if (r.stage != policy_evaluated && is_some r.manifest)
            (message "unexpected manifest")
        ∷ [])
