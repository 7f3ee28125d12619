-- ===== src/Engine/Ends.antt =====
-- loop/engine.go: consumeTurn ends on every stream.
use fabricrunner.Prelude.{
  ℕ, zero, suc, ◌+◌, ◌^◌, ◌≤◌, ◌<◌, ◌≡◌, refl, sym, ap, ◌∙◌, inl, inr, Bool, true, Option, none,
  some, arith, is_some, Text, text_eq, Error, ok, ℤ,
}
use fabricrunner.Domain.{Budget}
use fabricrunner.Model.{ModelRef}
use fabricrunner.Turn.{ModelEvent}
use fabricrunner.Stream.{ModelStreamValidator, new_validator, complete, Received, ModelStream}
use fabricrunner.Stream.Protocol.{refused, accepted, accept-Accepts}
use fabricrunner.Stream.Receiving.{at_end, at_failure, at_event, received-cases, nonzero_sequence}
use fabricrunner.Loop.{LoopResult}
use fabricrunner.Engine.{LoopContext, context_result, LoopEmitter}
use fabricrunner.Engine.Turns.{TurnState, no_data, take_event, consume, close_turn, consume_turn}
use fabricrunner.Engine.Steps.{Consumption, check_cases, three, take_event-ok}

is_some-close_turn :
    (closed : Option Error) (c : Consumption)
    → is_some c ≡ true
    → is_some (close_turn closed c) ≡ true
unfolding close_turn
is_some-close_turn closed none h = h
is_some-close_turn closed (some (s, failure)) h = refl

module _ (json_valid : Text → Bool) (turn : ℤ) (model : ModelRef) (b : Budget) where
  -- An event that was taken has the next number.
  taken_number :
      (v : ModelStreamValidator) (s : TurnState) (e : ModelEvent)
      → v.last_sequence < 2 ^ 64
      → (take_event json_valid turn model b v s e).2 ≡ ok tt
      → ((take_event json_valid turn model b v s e).0.last_sequence ≡ v.last_sequence + 1)
        × (v.last_sequence + 1 < 2 ^ 64)
  taken_number v s e h t =
      let next = take_event json_valid turn model b v s e in
      let (a, m, g) = take_event-ok json_valid turn model b v next.0 s next.1 e (three next t) in
      elim (accept-Accepts json_valid v e) [
        | refused f r ↦ absurd (cc (r, ap (λ p. p.1) a))
        | accepted r valid terminal started q ↦
            (let same = ap (λ p. p.0.last_sequence) (sym a ∙ r) in
              (
                omega (arith, same, q, h, nonzero_sequence json_valid e valid),
                omega (arith, q, h, nonzero_sequence json_valid e valid),
              ))
      ]

  module _ (at_head on_failure : ℕ → LoopContext) where
    consume-ends :
        (recv : ℕ → Received) (fuel i : ℕ) (v : ModelStreamValidator) (s : TurnState)
        → v.last_sequence < 2 ^ 64
        → 2 ^ 64 ≤ fuel + v.last_sequence
        → is_some (consume json_valid turn model b at_head on_failure recv fuel i v s) ≡ true
    unfolding consume
    consume-ends recv zero i v s h k = absurd (omega arith)
    consume-ends recv (suc fuel) i v s h k =
        let r = context_result (at_head i) s.result in
        let entered = record s { result = r.0 } in
        elim (check_cases r.1) [
          | inr (x, l) ↦ rw (l, consume) refl
          | inl l ↦ elim (received-cases (recv i)) [
            | at_failure e x q ↦ rw (l, q, consume) refl
            | at_end q ↦ elim (check_cases (complete v)) [
              | inr (x, c) ↦ rw (l, q, c, consume) refl
              | inl c ↦ rw (l, q, c, consume) refl
            ]
            | at_event e q ↦ elim (check_cases (take_event json_valid turn model b v entered e).2) [
              | inr (x, t) ↦ rw (l, q, t, consume) refl
              | inl t ↦
                  (let (number, fits) = taken_number v entered e h t in
                    let next = take_event json_valid turn model b v entered e in
                    rw (l, q, t, consume)
                      (consume-ends recv fuel (i + 1) next.0 next.1 (omega (arith, number, fits))
                        (omega (arith, number, k))))
            ]
          ]
        ]

    -- Whatever the stream, the contexts and the sink return, consumeTurn ends after at most 2^64 calls of
    -- Recv.
    pub consume_turn-terminates :
        (stream : Option ModelStream) (r : LoopResult) (m : LoopEmitter) (fuel : ℕ)
        → 2 ^ 64 ≤ fuel
        → is_some (consume_turn json_valid turn model b at_head on_failure stream r m fuel) ≡ true
    unfolding consume_turn
    consume_turn-terminates none r m fuel h = refl
    consume_turn-terminates (some stream) r m fuel h = is_some-close_turn stream.closed _ (
        consume-ends stream.recv fuel 0 new_validator
          (record { gathered = no_data; result = r; emitter = m }) (omega arith) (omega arith))
