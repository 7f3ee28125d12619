-- ===== src/Projection/Examples.antt =====
-- The theorems on projections at a workload that is created and then runs, with every payload taken
-- for JSON, one digest for all, and one decoded value for each type of event.
use fabricrunner.Prelude.{
  ℕ, ◌≡◌, refl, ◌≢◌, Bool, true, none, List, [], ◌∷◌, arith, length, Text, text, Text-discrete,
  text_eq, message, ok, err, all_checks, pos, ℤ-discrete,
}
use native.Mathlib.Decide.{ℕ_discrete}
use fabricrunner.Id.{sample_id}
use fabricrunner.Domain.{Budget, Workload, WorkloadState, can_transition_workload}
use fabricrunner.Event.{AggregateRef, EventDraft, Event, make_event}
use fabricrunner.Store.{Streams, stream, stream_key, Source, append}
use fabricrunner.Projection.{Decoders, at_end, WorkloadProjection}
use fabricrunner.Projection.Apply.{apply, apply_all, load_projection}
use fabricrunner.Projection.Coherent.{IsCoherent, no_step}
use fabricrunner.Projection.Moves.{Moves, apply-Moves}
use fabricrunner.Projection.Replayed.{IsReplayed, load_projection-IsReplayed}
use fabricrunner.Projection.Incremental.{go_on, load_projection-append}

abbrev any_json : Text → Bool
any_json s = true

abbrev one_digest : List ℕ → List ℕ
one_digest bytes = 1 ∷ 2 ∷ 3 ∷ []

abbrev no_budget : Budget
no_budget = record {
  max_steps = pos 0;
  max_input_tokens = pos 0;
  max_output_tokens = pos 0;
  max_model_calls = pos 0;
  max_tool_calls = pos 0;
  max_child_steps = pos 0;
  max_cost = pos 0;
  max_wall_time = pos 0;
}

abbrev fixed : Decoders
fixed = record {
  created =
      λ s. ok (record { session_id = sample_id; goal = text "goal"; budget = no_budget }, at_end);
  transitioned = λ s.
      ok (record { from_state = WorkloadState.created; to_state = WorkloadState.running }, at_end);
  step_created = λ s. err (message "no step");
  step_transitioned = λ s. err (message "no step");
  recorded = λ s. err (message "no record");
}

abbrev workload_ref : AggregateRef
workload_ref = record { kind = text "workload"; id = sample_id }

abbrev draft : Text → EventDraft
draft kind = record {
  kind = kind;
  schema_version = 1;
  causation_id = [];
  correlation_id = sample_id;
  attempt_id = [];
  payload = text "{}";
}

abbrev event : ℕ → Text → Event
event n kind = make_event any_json one_digest workload_ref n (draft kind) (pos 100) sample_id

abbrev created_event : Event
created_event = event 1 (text "workload.created")

abbrev running_event : Event
running_event = event 2 (text "workload.transitioned")

abbrev workload_in : WorkloadState → Workload
workload_in state = record {
  id = sample_id;
  session_id = sample_id;
  goal = text "goal";
  state = state;
  budget = no_budget;
  created_at = pos 100;
  updated_at = pos 100;
}

abbrev projected : ℕ → WorkloadState → WorkloadProjection
projected version state = record {
  aggregate = workload_ref;
  version = version;
  workload = workload_in state;
  steps = [];
  execution = [];
}

abbrev one_stored : Streams
one_stored = (stream_key workload_ref, created_event ∷ []) ∷ []

abbrev two_stored : Streams
two_stored = (stream_key workload_ref, created_event ∷ running_event ∷ []) ∷ []

runs :
    apply fixed any_json one_digest (projected 1 WorkloadState.created) running_event
    ≡ ok (projected 2 WorkloadState.running)
unfolding apply all_checks ℤ-discrete ℕ_discrete Text-discrete make_event can_transition_workload
runs = refl

created-IsCoherent : IsCoherent (projected 1 WorkloadState.created)
created-IsCoherent = record {
  filed = λ id s f. absurd (no_step id s f);
  named = λ h. refl;
  bare = λ h. refl;
}

apply-Moves_example : Moves (projected 1 WorkloadState.created) (projected 2 WorkloadState.running)
apply-Moves_example =
    apply-Moves fixed any_json one_digest (projected 1 WorkloadState.created)
      (projected 2 WorkloadState.running) running_event created-IsCoherent runs

loaded :
    load_projection fixed any_json one_digest none go_on workload_ref one_stored
    ≡ ok (projected 1 WorkloadState.created)
unfolding load_projection all_checks ℤ-discrete ℕ_discrete Text-discrete make_event
loaded = refl

load_projection-IsReplayed_example :
    (stream (stream_key workload_ref) one_stored ≢ [])
    × (sample_id ≡ workload_ref.id)
    × IsReplayed workload_ref
        (length (stream (stream_key workload_ref) one_stored))
        (projected 1 WorkloadState.created)
load_projection-IsReplayed_example =
    load_projection-IsReplayed fixed any_json one_digest none go_on workload_ref one_stored
      (projected 1 WorkloadState.created) loaded

abbrev ticking : Source
ticking i = (pos 100, ok sample_id)

appended :
    append any_json one_digest none workload_ref 1 ticking
      (draft (text "workload.transitioned") ∷ [])
      one_stored
    ≡ (two_stored, ok (running_event ∷ []))
unfolding append all_checks ℤ-discrete ℕ_discrete make_event
appended = refl

load_projection-append_example :
    load_projection fixed any_json one_digest none go_on workload_ref two_stored
    ≡ apply_all fixed any_json one_digest go_on 0
        (running_event ∷ [])
        (projected 1 WorkloadState.created)
load_projection-append_example =
    load_projection-append fixed any_json one_digest none workload_ref 1 ticking
      (draft (text "workload.transitioned")) [] one_stored two_stored (running_event ∷ [])
      (projected 1 WorkloadState.created) (omega arith) loaded appended
