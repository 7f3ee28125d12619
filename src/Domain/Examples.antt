-- ===== src/Domain/Examples.antt =====
-- The theorems on transitions at one step and one workload.
use fabricrunner.Prelude.{
  ◌≡◌, refl, ◌⊎◌, inl, inr, true, false, List, [], ◌∷◌, text, text_eq, ok, err, pos,
}
use fabricrunner.Id.{sample_id}
use fabricrunner.Domain.{
  Step, Workload, StepState, WorkloadState, StepState-discrete, WorkloadState-discrete, Budget,
  tool, Time, transition_step, transition_workload, can_transition_step, can_transition_workload,
  bad_transition,
}
use fabricrunner.Domain.Transitions.{
  ◌⟶◌, transition_step_exact, cancel_or_stuck, follow_step, follow_workload, Visits,
  lease_before_run, run_before_end,
}

abbrev some_budget : Budget
some_budget = record {
  max_steps = pos 3;
  max_input_tokens = pos 1000;
  max_output_tokens = pos 500;
  max_model_calls = pos 1;
  max_tool_calls = pos 1;
  max_child_steps = pos 0;
  max_cost = pos 100;
  max_wall_time = pos 1000;
}

abbrev step_at : StepState → Time → Step
step_at state updated = record {
  id = sample_id;
  workload_id = sample_id;
  parent_step_id = [];
  kind = tool;
  state = state;
  requirements = record {
    modalities = [];
    required_tools = [];
    min_context_tokens = pos 0;
    min_quality_class = [];
    allowed_zones = [];
    native_tool_use = false;
    structured_output = false;
  };
  budget = some_budget;
  attempt = pos 1;
  idempotency_key = text "key";
  created_at = pos 5;
  updated_at = updated;
}

abbrev workload_at : WorkloadState → Time → Workload
workload_at state updated = record {
  id = sample_id;
  session_id = sample_id;
  goal = text "goal";
  state = state;
  budget = some_budget;
  created_at = pos 5;
  updated_at = updated;
}

abbrev step_path : List (StepState × Time)
step_path = (StepState.ready, pos 6) ∷ (StepState.leased, pos 7) ∷ (StepState.running, pos 8) ∷ []

abbrev workload_path : List (WorkloadState × Time)
workload_path = (WorkloadState.running, pos 6) ∷ (WorkloadState.succeeded, pos 9) ∷ []

transition_step_exact_example :
    ((StepState.ready ⟶ StepState.leased)
      × (transition_step (step_at StepState.ready (pos 6)) StepState.leased (pos 7)
          ≡ ok (step_at StepState.leased (pos 7))))
    ⊎ (¬ (StepState.ready ⟶ StepState.leased)
        × (transition_step (step_at StepState.ready (pos 6)) StepState.leased (pos 7)
            ≡ err bad_transition))
transition_step_exact_example =
    transition_step_exact (step_at StepState.ready (pos 6)) StepState.leased (pos 7)

cancel_or_stuck_example :
    (can_transition_step StepState.leased StepState.cancelled ≡ true)
    ⊎ ((t : StepState) → can_transition_step StepState.leased t ≡ false)
cancel_or_stuck_example = cancel_or_stuck StepState.leased

step_follows :
    follow_step (step_at StepState.pending (pos 5)) step_path
    ≡ ok (step_at StepState.running (pos 8))
unfolding follow_step transition_step can_transition_step StepState-discrete
step_follows = refl

lease_before_run_example : Visits StepState.leased step_path
lease_before_run_example =
    lease_before_run (step_at StepState.pending (pos 5)) (step_at StepState.running (pos 8))
      step_path refl step_follows (inl refl)

workload_follows :
    follow_workload (workload_at WorkloadState.created (pos 5)) workload_path
    ≡ ok (workload_at WorkloadState.succeeded (pos 9))
unfolding follow_workload transition_workload can_transition_workload WorkloadState-discrete
workload_follows = refl

run_before_end_example : Visits WorkloadState.running workload_path
run_before_end_example =
    run_before_end (workload_at WorkloadState.created (pos 5))
      (workload_at WorkloadState.succeeded (pos 9)) workload_path refl workload_follows
      (inr (inl refl))
