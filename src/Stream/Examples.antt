-- ===== src/Stream/Examples.antt =====
-- The theorems on streams at a stream of two events, with every text taken for JSON.
use fabricrunner.Prelude.{
  ℕ, ◌^◌, ◌≡◌, refl, ◌↔◌, Bool, true, none, some, List, [], ◌∷◌, arith, is_some, get_elem?, Text,
  text_eq, all_checks,
}
use fabricrunner.Turn.{
  ModelEventType, event_start, event_stop, ModelEventType-discrete, ModelEvent, other_stop,
  stop_end_turn, StopReason,
}
use fabricrunner.Stream.{ModelStream, Received, received, end_of_stream, drain_stream}
use fabricrunner.Stream.Protocol.{IsStream}
use fabricrunner.Stream.Receiving.{Yields}
use fabricrunner.Stream.Drained.{drain_stream-terminates, drain_stream_iff}

abbrev any_json : Text → Bool
any_json s = true

abbrev plain_event : ModelEventType → ℕ → StopReason → ModelEvent
plain_event kind sequence stop = record {
  kind = kind;
  sequence = sequence;
  text_value = [];
  tool_call_delta = none;
  tool_call = none;
  usage = none;
  stop = stop;
  error = none;
  extension = [];
}

abbrev two_events : List ModelEvent
two_events = plain_event event_start 1 (other_stop []) ∷ plain_event event_stop 2 stop_end_turn ∷ []

abbrev recv_two : ℕ → Received
recv_two i = elim (get_elem? two_events i) [ none ↦ end_of_stream | some e ↦ received e ]

abbrev stream_of_two : ModelStream
stream_of_two = record { recv = recv_two; closed = none }

recv_two-Yields : Yields recv_two 0 two_events
recv_two-Yields = (refl, (refl, refl))

drained : drain_stream any_json (some stream_of_two) 3 ≡ some (two_events, none)
unfolding drain_stream all_checks ModelEventType-discrete
drained = refl

drain_stream-terminates_example :
    is_some (drain_stream any_json (some stream_of_two) (2 ^ 64)) ≡ true
drain_stream-terminates_example =
    drain_stream-terminates any_json recv_two none (2 ^ 64) (omega arith)

drain_stream_iff_example :
    (drain_stream any_json (some stream_of_two) 3 ≡ some (two_events, none))
    ↔ IsStream any_json two_events
drain_stream_iff_example =
    drain_stream_iff any_json recv_two 3 two_events recv_two-Yields (omega arith) (omega arith)
