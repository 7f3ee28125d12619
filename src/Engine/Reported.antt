-- ===== src/Engine/Reported.antt =====
-- loop/engine.go: what a turn that was consumed without an error has read and reported.
use fabricrunner.Prelude.{
  ℕ, zero, suc, ◌+◌, ◌%◌, ◌^◌, ◌<◌, ◌≡◌, refl, sym, ap, ◌∙◌, subst, inl, inr, Bool, true, none,
  some, List, [], ◌∷◌, ◌++◌, arith, is_some, length, append_one-append, append_nil, Text, text_eq,
  ok, ℤ,
}
use fabricrunner.Domain.{Budget}
use fabricrunner.Model.{ModelRef}
use fabricrunner.Turn.{ModelEvent}
use fabricrunner.Stream.{
  ModelStreamValidator, new_validator, accept, complete, Received, received, ModelStream, drain,
  drain_stream, close_with, join, error_of,
}
use fabricrunner.Stream.Receiving.{Yields, at_end, at_failure, at_event, received-cases}
use fabricrunner.Stream.Protocol.{IsStream}
use fabricrunner.Stream.Shape.{Starts-IsStream}
use fabricrunner.Stream.Drained.{drain-Starts, drain_at_end, drain_at_event}
use fabricrunner.Loop.{LoopResult}
use fabricrunner.Engine.{LoopContext, context_result, LoopEmitter, emit}
use fabricrunner.Engine.Budgeted.{IsWithin, gather-IsWithin, context_result-usage}
use fabricrunner.Engine.Turns.{
  TurnState, model_report, gather, take_event, with_emitter, consume, consume_turn, no_data,
}
use fabricrunner.Engine.Steps.{
  reports, HasSink, Consumption, left, three, no_failure, unclosed, emit-ok, check_cases,
  take_event-ok,
}

module _ (json_valid : Text → Bool) (turn : ℤ) (model : ModelRef) (b : Budget) where
  -- What a turn that was consumed without an error has read, with what it left.
  record Consumed (recv : ℕ → Received) (fuel i : ℕ) (v : ModelStreamValidator)
      (s after : TurnState) : Type 0 where
    events : List ModelEvent
    yielded : Yields recv i events
    short : length events < fuel
    drained :
        (kept : List ModelEvent) → drain json_valid recv fuel i v kept ≡ some (kept ++ events, none)
    within : IsWithin b s.result.usage → IsWithin b after.result.usage
    given : after.emitter.given ≡ s.emitter.given ++ reports turn model s.emitter.sequence events

  module _ (at_head on_failure : ℕ → LoopContext) (recv : ℕ → Received) where
    consume_all : ℕ → ℕ → ModelStreamValidator → TurnState → Consumption
    consume_all = consume json_valid turn model b at_head on_failure recv

    -- The state behind the test of the context.
    abbrev entered : ℕ → TurnState → TurnState
    entered i s = record s { result = (context_result (at_head i) s.result).0 }

    consume-live :
        (fuel i : ℕ) (v : ModelStreamValidator) (s after : TurnState)
        → consume json_valid turn model b at_head on_failure recv (suc fuel) i v s
          ≡ some (after, none)
        → (context_result (at_head i) s.result).1 ≡ ok tt
    unfolding consume
    consume-live fuel i v s after h = elim (check_cases (context_result (at_head i) s.result).1) [
      | inl l ↦ l
      | inr (e, l) ↦ absurd (no_failure _ refl (rw (l, consume) at h))
    ]

    -- One event in front of the rest.
    one_more :
        (fuel i : ℕ) (v w : ModelStreamValidator) (s s₁ after : TurnState) (e : ModelEvent)
        → HasSink s.emitter
        → recv i ≡ received e
        → (accept json_valid v e ≡ (w, ok tt))
          × (emit s.emitter (model_report turn model e) ≡ (s₁.emitter, ok tt))
          × (gather b (with_emitter (entered i s) s₁.emitter) e e.kind ≡ (s₁, ok tt))
        → (HasSink s₁.emitter → Consumed recv fuel (i + 1) w s₁ after)
        → Consumed recv (suc fuel) i v s after
    one_more fuel i v w s s₁ after e k q (a, m, g) rest =
        let (number, report, sink) = emit-ok s.emitter s₁.emitter (model_report turn model e) k m in
        let r = rest (ap is_some sink ∙ k) in
        record {
          events = e ∷ r.events;
          yielded = (q, r.yielded);
          short = (let shorter = r.short in omega (arith, shorter));
          drained = λ kept.
              drain_at_event json_valid recv fuel i v w kept e q a
              ∙ r.drained (kept ++ e ∷ [])
              ∙ ap (λ es. some (es, none)) (append_one-append kept r.events e);
          within = λ x. r.within (
              gather-IsWithin b (with_emitter (entered i s) s₁.emitter) s₁ e e.kind
                (subst (IsWithin b) (sym (context_result-usage (at_head i) s.result)) x) g);
          given =
              r.given
              ∙ ap (λ n. s₁.emitter.given ++ reports turn model n r.events) number
              ∙ ap (λ l. l ++ reports turn model ((s.emitter.sequence + 1) % 2 ^ 64) r.events)
                  report
              ∙ append_one-append s.emitter.given _ _;
        }

    consume-Consumed :
        (fuel i : ℕ) (v : ModelStreamValidator) (s after : TurnState)
        → HasSink s.emitter
        → consume json_valid turn model b at_head on_failure recv fuel i v s ≡ some (after, none)
        → Consumed recv fuel i v s after
    unfolding consume drain error_of
    consume-Consumed zero i v s after k h = absurd (cc h)
    consume-Consumed (suc fuel) i v s after k h =
        let l = consume-live fuel i v s after h in
        elim (received-cases (recv i)) [
          | at_failure e x q ↦ absurd (no_failure _ refl (rw (l, q, consume) at h))
          | at_end q ↦ elim (check_cases (complete v)) [
            | inr (x, c) ↦ absurd (no_failure _ refl (rw (l, q, c, consume) at h))
            | inl c ↦
                (let same : entered i s ≡ after = left (rw (l, q, c, consume) at h) in
                  record {
                    events = [];
                    yielded = q;
                    short = omega arith;
                    drained = λ kept.
                        drain_at_end json_valid recv fuel i v kept q
                        ∙ ap (λ r. some (kept, error_of r)) c
                        ∙ ap (λ es. some (es, none)) (sym (append_nil kept));
                    within = λ w.
                        subst (λ x. IsWithin b x.result.usage) same
                          (subst (IsWithin b) (sym (context_result-usage (at_head i) s.result)) w);
                    given = ap (λ x. x.emitter.given) (sym same) ∙ sym (append_nil s.emitter.given);
                  })
          ]
          | at_event e q ↦
              elim (check_cases (take_event json_valid turn model b v (entered i s) e).2) [
                | inr (x, t) ↦ absurd (no_failure _ refl (rw (l, q, t, consume) at h))
                | inl t ↦
                    (let next = take_event json_valid turn model b v (entered i s) e in
                      one_more fuel i v next.0 s next.1 after e k q
                        (take_event-ok json_valid turn model b v next.0 (entered i s) next.1 e
                          (three next t))
                        (λ k'.
                          consume-Consumed fuel (i + 1) next.0 next.1 after k'
                            (rw (l, q, t, consume) at h)))
              ]
        ]

  -- If consumeTurn ends without an error within a number of calls of Recv, on an emitter with a sink,
  -- then Recv returns some events and after them io.EOF; these are a whole stream: a start event,
  -- events that neither start nor end a stream, and one stop or error event, each valid, and numbered
  -- 1, 2, 3 and so on; DrainStream, within that number of calls too, returns them without an error;
  -- and the sink was given exactly one report for each of them, in their order, numbered on from
  -- before.
  pub consume_turn-drained :
      (at_head on_failure : ℕ → LoopContext) (stream : ModelStream) (r : LoopResult)
      (m : LoopEmitter) (fuel : ℕ) (after : TurnState)
      → is_some m.sink ≡ true
      → consume_turn json_valid turn model b at_head on_failure (some stream) r m fuel
        ≡ some (after, none)
      → (events : List ModelEvent) × Yields stream.recv 0 events
        × IsStream json_valid events
        × (drain_stream json_valid (some stream) fuel ≡ some (events, none))
        × (after.emitter.given ≡ m.given ++ reports turn model m.sequence events)
  unfolding consume_turn drain_stream close_with join
  consume_turn-drained at_head on_failure stream r m fuel after k h =
      let (consumed, closed) = unclosed stream.closed _ after h in
      let c =
        consume-Consumed at_head on_failure stream.recv fuel 0 new_validator
          (record { gathered = no_data; result = r; emitter = m }) after k consumed in
      (
        c.events,
        c.yielded,
        Starts-IsStream json_valid c.events (
            drain-Starts json_valid stream.recv fuel c.events c.events c.yielded c.short
              (c.drained [])),
        rw (closed, c.drained []) refl,
        c.given,
      )

  -- If no count is negative or above its budget, and consumeTurn ends without an error, on an emitter
  -- with a sink, then no count of the result is negative or above its budget.
  pub consume_turn-IsWithin :
      (at_head on_failure : ℕ → LoopContext) (stream : ModelStream) (r : LoopResult)
      (m : LoopEmitter) (fuel : ℕ) (after : TurnState)
      → is_some m.sink ≡ true
      → IsWithin b r.usage
      → consume_turn json_valid turn model b at_head on_failure (some stream) r m fuel
        ≡ some (after, none)
      → IsWithin b after.result.usage
  unfolding consume_turn
  consume_turn-IsWithin at_head on_failure stream r m fuel after k w h =
      (consume-Consumed at_head on_failure stream.recv fuel 0 new_validator
          (record { gathered = no_data; result = r; emitter = m }) after k
          (unclosed stream.closed _ after h).0).within
        w
