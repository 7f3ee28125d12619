-- ===== src/Store/Examples.antt =====
-- The theorems on events and on the store at one aggregate and two drafts, with every payload taken
-- for JSON and one digest for all.
use fabricrunner.Prelude.{
  ℕ, ◌+◌, ◌≡◌, refl, Bool, true, none, List, [], ◌∷◌, arith, Text, text, text_eq, ok, err,
  all_checks, pos, ℤ-discrete,
}
use native.Mathlib.Decide.{ℕ_discrete}
use fabricrunner.Id.{sample_id, sample_id-validates}
use fabricrunner.Event.{
  AggregateRef, EventDraft, Event, draft_of, make_event, new_event, validate_event,
  new_event-validates,
}
use fabricrunner.Store.{Streams, stream, stream_key, Source, conflict, admit, append, load}
use fabricrunner.Store.Append.{Outcome, IsNumbered, append-Outcome}
use fabricrunner.Store.Versions.{append-IsNumbered, load-append, second-conflict}

abbrev any_json : Text → Bool
any_json s = true

abbrev one_digest : List ℕ → List ℕ
one_digest bytes = 1 ∷ 2 ∷ 3 ∷ []

abbrev workload_ref : AggregateRef
workload_ref = record { kind = text "workload"; id = sample_id }

abbrev created_draft : EventDraft
created_draft = record {
  kind = text "workload.created";
  schema_version = 1;
  causation_id = [];
  correlation_id = sample_id;
  attempt_id = [];
  payload = text "{}";
}

abbrev ticking : Source
ticking i = (pos (100 + i), ok sample_id)

abbrev first_event : Event
first_event = make_event any_json one_digest workload_ref 1 created_draft (pos 100) sample_id

abbrev after_first : Streams
after_first = (stream_key workload_ref, first_event ∷ []) ∷ []

event_made :
    new_event any_json one_digest workload_ref 1 created_draft (pos 100) (ok sample_id)
    ≡ ok first_event
unfolding new_event all_checks ℤ-discrete ℕ_discrete
event_made = refl

new_event-validates_example :
    (validate_event any_json one_digest first_event ≡ ok tt)
    × (draft_of first_event ≡ created_draft)
    × (first_event.aggregate ≡ workload_ref)
    × (first_event.sequence ≡ 1)
    × (first_event.occurred_at ≡ pos 100)
new_event-validates_example =
    new_event-validates any_json one_digest workload_ref 1 created_draft (pos 100) sample_id
      first_event sample_id-validates event_made

first_append :
    append any_json one_digest none workload_ref 0 ticking (created_draft ∷ []) []
    ≡ (after_first, ok (first_event ∷ []))
unfolding append all_checks ℤ-discrete ℕ_discrete
first_append = refl

append-Outcome_example :
    Outcome any_json one_digest workload_ref 0
      (created_draft ∷ [])
      []
      after_first
      (ok (first_event ∷ []))
append-Outcome_example =
    append-Outcome any_json one_digest none workload_ref 0 ticking (created_draft ∷ []) []
      after_first (ok (first_event ∷ [])) (omega arith) first_append

empty-IsNumbered : IsNumbered []
unfolding stream
empty-IsNumbered key = tt

append-IsNumbered_example : IsNumbered after_first
append-IsNumbered_example =
    append-IsNumbered any_json one_digest none workload_ref 0 ticking (created_draft ∷ []) []
      after_first (ok (first_event ∷ [])) empty-IsNumbered (omega arith) first_append

load-append_example : load none workload_ref 0 after_first ≡ ok (first_event ∷ [])
load-append_example =
    load-append any_json one_digest none workload_ref 0 ticking created_draft [] [] after_first
      (first_event ∷ []) (omega arith) first_append

admitted : admit any_json none workload_ref (created_draft ∷ []) ≡ ok tt
unfolding admit all_checks
admitted = refl

second-conflict_example :
    append any_json one_digest none workload_ref 0 ticking (created_draft ∷ []) after_first
    ≡ (after_first, err conflict)
second-conflict_example =
    second-conflict any_json one_digest none workload_ref 0 ticking ticking created_draft
      created_draft [] [] [] after_first (first_event ∷ []) (omega arith) first_append admitted
