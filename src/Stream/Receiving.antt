-- ===== src/Stream/Receiving.antt =====
-- model.go: what the calls of Recv give DrainStream, and how it closes.
use fabricrunner.Prelude.{
  ℕ, ◌+◌, ◌≡◌, refl, sym, ap, ◌∙◌, ◌≢◌, Bool, true, false, not, Option, none, some, List, [], ◌∷◌,
  arith, eqb, is_some, ◌==◌, holds_iff, Text, text_eq, Error, fail_if-ok, >>-eq-ok,
}
use fabricrunner.Turn.{
  event_start, ModelEventType-discrete, model_event_type_eq, ModelEvent, validate_model_event,
}
use fabricrunner.Stream.{Received, received, end_of_stream, failed, close_with, join}
use fabricrunner.Stream.Protocol.{IsValid}

-- The calls of `Recv` from the i-th return the events, and then the end of the stream.
abbrev pub Yields : (ℕ → Received) → ℕ → List ModelEvent → Type 0
Yields recv i [] = recv i ≡ end_of_stream
Yields recv i (e ∷ es) = (recv i ≡ received e) × Yields recv (i + 1) es

pub nonzero_sequence :
    (json_valid : Text → Bool) (e : ModelEvent) → IsValid json_valid e → e.sequence ≢ 0
unfolding validate_model_event
nonzero_sequence json_valid e h = ground (arith, fail_if-ok (eqb e.sequence 0) _ (>>-eq-ok _ _ h).0)

pub started_kind :
    (e : ModelEvent) (started : Bool)
    → started ≡ not (e.kind == event_start)
    → started ≡ true
    → e.kind ≢ event_start
started_kind e started s h k =
    ground (arith, (holds_iff (ModelEventType-discrete e.kind event_start)).1 k)

abbrev pub Drained : Type 0
Drained = Option (List ModelEvent × Option Error)

pub not_failed :
    (d : Drained) (out events : List ModelEvent) (f : Error)
    → d ≡ some (out, none)
    → d ≢ some (events, some f)
not_failed d out events f h g = cc (ap failure (sym h ∙ g))
  where
    failure : Drained → Bool
    failure (some (es, some f)) = true
    failure _ = false

pub is_some-close_with :
    (closed : Option Error) (d : Drained) → is_some d ≡ true → is_some (close_with closed d) ≡ true
unfolding close_with
is_some-close_with closed none h = h
is_some-close_with closed (some (events, failure)) h = refl

pub unjoined :
    (d : Drained) (es : List ModelEvent) → close_with none d ≡ some (es, none) → d ≡ some (es, none)
unfolding close_with join
unjoined none es h = cc
unjoined (some (events, none)) es h = h
unjoined (some (events, some f)) es h = absurd (not_failed _ es events f h refl)

pub data IsReceived (r : Received) : Type 0 where
  at_end : r ≡ end_of_stream → IsReceived r
  at_failure : (f : Error) (c : Option Error) → r ≡ failed f c → IsReceived r
  at_event : (e : ModelEvent) → r ≡ received e → IsReceived r

pub received-cases : (r : Received) → IsReceived r
received-cases (received e) = at_event e refl
received-cases end_of_stream = at_end refl
received-cases (failed f c) = at_failure f c refl
