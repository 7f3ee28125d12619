-- ===== src/Stream/Drained.antt =====
-- model.go: DrainStream. It always ends, and it returns the events without an error exactly where
-- they are a whole stream.
use fabricrunner.Prelude.{
  ℕ, zero, suc, ◌+◌, ◌%◌, ◌^◌, ◌≤◌, ◌<◌, ◌≡◌, refl, sym, ap, ◌∙◌, subst, ◌≢◌, ◌↔◌, inl, inr, Bool,
  true, false, not, Option, none, some, List, [], ◌∷◌, ◌++◌, arith, Bool-cases, is_some, length,
  append_one-append, ◌==◌, holds_iff, Text, text_eq, Error, ok, all_checks,
}
use fabricrunner.Turn.{event_start, ModelEventType-discrete, model_event_type_eq, ModelEvent}
use fabricrunner.Stream.{
  ModelStreamValidator, new_validator, is_terminal, accept, complete, Received, received,
  end_of_stream, drain, drain_stream, close_with, error_of,
}
use fabricrunner.Stream.Protocol.{
  state_after, IsValid, IsStream, Continues, Starts, refused, accepted, accept-Accepts, accept-pass,
  complete-unfinished, complete-pass,
}
use fabricrunner.Stream.Shape.{Starts-IsStream, IsStream-Starts}
use fabricrunner.Stream.Receiving.{
  Yields, nonzero_sequence, started_kind, not_failed, is_some-close_with, unjoined, received-cases,
  at_end, at_failure, at_event,
}

module _ (json_valid : Text → Bool) (recv : ℕ → Received) where
  -- Where an event is received, what the loop does next.
  data Next (fuel i : ℕ) (v : ModelStreamValidator) (events : List ModelEvent) (e : ModelEvent)
      : Type 0 where
    stops :
        (f : Error)
        → drain json_valid recv (suc fuel) i v events ≡ some (events, some f)
        → Next fuel i v events e
    goes_on :
        drain json_valid recv (suc fuel) i v events
          ≡ drain json_valid recv fuel (i + 1) (state_after e) (events ++ e ∷ [])
        → IsValid json_valid e
        → v.terminal ≡ false
        → v.started ≡ not (e.kind == event_start)
        → e.sequence ≡ (v.last_sequence + 1) % 2 ^ 64
        → Next fuel i v events e

  drain-Next :
      (fuel i : ℕ) (v : ModelStreamValidator) (events : List ModelEvent) (e : ModelEvent)
      → recv i ≡ received e
      → Next fuel i v events e
  unfolding drain
  drain-Next fuel i v events e h = elim (accept-Accepts json_valid v e) [
    | refused f a ↦ stops f (rw (h, drain) (rw a refl))
    | accepted a valid t s q ↦
        goes_on
          (rw (h, drain)
            (rw (ap (λ p. p.1) a)
              (ap (λ p. drain json_valid recv fuel (i + 1) p.0 (events ++ e ∷ [])) a)))
          valid t s q
  ]

  -- `DrainStream` ends on every stream: an event that it accepts has the next number of a uint64,
  -- and number 0 is refused.
  drain-ends :
      (fuel i : ℕ) (v : ModelStreamValidator) (events : List ModelEvent)
      → v.last_sequence < 2 ^ 64
      → 2 ^ 64 ≤ fuel + v.last_sequence
      → is_some (drain json_valid recv fuel i v events) ≡ true
  unfolding drain
  drain-ends zero i v events b h = absurd (omega arith)
  drain-ends (suc fuel) i v events b h = elim (received-cases (recv i)) [
    | at_end e ↦ rw (e, drain) refl
    | at_failure f c e ↦ rw (e, drain) refl
    | at_event event e ↦ elim (drain-Next fuel i v events event e) [
      | stops f a ↦ rw a refl
      | goes_on a valid t s q ↦ rw a (
          drain-ends fuel (i + 1) (state_after event) (events ++ event ∷ [])
            (omega (arith, q, nonzero_sequence json_valid event valid))
            (omega (arith, q, nonzero_sequence json_valid event valid)))
    ]
  ]

  drain-ended :
      (fuel i : ℕ) (v : ModelStreamValidator) (kept out es : List ModelEvent)
      → Yields recv i es
      → length es < fuel
      → v.terminal ≡ true
      → drain json_valid recv fuel i v kept ≡ some (out, none)
      → es ≡ []
  drain-ended fuel i v kept out [] y l t h = refl
  drain-ended zero i v kept out (e ∷ es) y l t h = absurd (omega arith)
  drain-ended (suc fuel) i v kept out (e ∷ es) y l t h = elim (drain-Next fuel i v kept e y.0) [
    | stops f a ↦ absurd (not_failed _ out kept f h a)
    | goes_on a valid terminal s q ↦ absurd (cc (t, terminal))
  ]

  pub drain_at_end :
      (fuel i : ℕ) (v : ModelStreamValidator) (kept : List ModelEvent)
      → recv i ≡ end_of_stream
      → drain json_valid recv (suc fuel) i v kept ≡ some (kept, error_of (complete v))
  unfolding drain
  drain_at_end fuel i v kept h = rw (h, drain) refl

  pub drain_at_event :
      (fuel i : ℕ) (v w : ModelStreamValidator) (kept : List ModelEvent) (e : ModelEvent)
      → recv i ≡ received e
      → accept json_valid v e ≡ (w, ok tt)
      → drain json_valid recv (suc fuel) i v kept
        ≡ drain json_valid recv fuel (i + 1) w (kept ++ e ∷ [])
  unfolding drain
  drain_at_event fuel i v w kept e h a =
      rw (h, drain)
        (rw (ap (λ p. p.1) a) (ap (λ p. drain json_valid recv fuel (i + 1) p.0 (kept ++ e ∷ [])) a))

  -- The number that `Accept` asks for, where it is a uint64 and not 0.
  accepted_number :
      (v : ModelStreamValidator) (e : ModelEvent)
      → v.last_sequence < 2 ^ 64
      → IsValid json_valid e
      → e.sequence ≡ (v.last_sequence + 1) % 2 ^ 64
      → (e.sequence ≡ v.last_sequence + 1) × (e.sequence < 2 ^ 64)
  accepted_number v e b valid q = (
    omega (arith, q, nonzero_sequence json_valid e valid),
    omega (arith, q, nonzero_sequence json_valid e valid),
  )

  drain-Continues :
      (fuel i : ℕ) (v : ModelStreamValidator) (kept out es : List ModelEvent)
      → Yields recv i es
      → length es < fuel
      → v.started ≡ true
      → v.terminal ≡ false
      → v.last_sequence < 2 ^ 64
      → drain json_valid recv fuel i v kept ≡ some (out, none)
      → Continues json_valid v.last_sequence es
  unfolding error_of
  drain-Continues zero i v kept out es y l s t b h = absurd (omega arith)
  drain-Continues (suc fuel) i v kept out [] y l s t b h = absurd (
      not_failed _ out kept _ h (
        drain_at_end fuel i v kept y
        ∙ ap (λ c. some (kept, error_of c)) (complete-unfinished v s t)))
  drain-Continues (suc fuel) i v kept out (e ∷ es) y l s t b h =
      elim (drain-Next fuel i v kept e y.0) [
        | stops f a ↦ absurd (not_failed _ out kept f h a)
        | goes_on a valid terminal started q ↦
            let number = accepted_number v e b valid q in
            (
              valid,
              number.0,
              started_kind e v.started started s,
              elim (Bool-cases (is_terminal e.kind)) [
                | inl k ↦ inl (
                  k,
                  drain-ended fuel (i + 1) (state_after e) _ out es y.1 (omega arith) k (sym a ∙ h),
                )
                | inr k ↦ inr (
                  k,
                  subst (λ n. Continues json_valid n es) number.0
                      (drain-Continues fuel (i + 1) (state_after e) _ out es y.1 (omega arith) refl
                        k number.1 (sym a ∙ h)),
                )
              ],
            )
      ]

  not_started_kind :
      (e : ModelEvent) (s : Bool)
      → s ≡ true
      → e.kind ≢ event_start
      → s ≡ not (e.kind == event_start)
  not_started_kind e s h k = elim (Bool-cases (e.kind == event_start)) [
    | inl t ↦ absurd (k ((holds_iff (ModelEventType-discrete e.kind event_start)).0 t))
    | inr t ↦ rw t h
  ]

  drain_finished :
      (fuel i : ℕ) (v : ModelStreamValidator) (kept es : List ModelEvent)
      → Yields recv i es
      → length es < fuel
      → v.started ≡ true
      → v.terminal ≡ true
      → es ≡ []
      → drain json_valid recv fuel i v kept ≡ some (kept, none)
  unfolding error_of
  drain_finished zero i v kept es y l s t e = absurd (omega arith)
  drain_finished (suc fuel) i v kept [] y l s t e =
      drain_at_end fuel i v kept y ∙ ap (λ c. some (kept, error_of c)) (complete-pass v s t)
  drain_finished (suc fuel) i v kept (x ∷ es) y l s t e = cc

  drain-pass :
      (fuel i : ℕ) (v : ModelStreamValidator) (kept es : List ModelEvent)
      → Yields recv i es
      → length es < fuel
      → v.started ≡ true
      → v.terminal ≡ false
      → v.last_sequence + length es < 2 ^ 64
      → Continues json_valid v.last_sequence es
      → drain json_valid recv fuel i v kept ≡ some (kept ++ es, none)
  drain-pass zero i v kept es y l s t b c = absurd (omega arith)
  drain-pass (suc fuel) i v kept [] y l s t b c = absurd c
  drain-pass (suc fuel) i v kept (e ∷ es) y l s t b (valid, number, kind, rest) =
      drain_at_event fuel i v (state_after e) kept e y.0
        (accept-pass json_valid v e valid t (not_started_kind e v.started s kind) (omega arith))
      ∙ (elim rest [
        | inl (k, none_left) ↦
            drain_finished fuel (i + 1) (state_after e) (kept ++ e ∷ []) es y.1 (omega arith) refl k
              none_left
            ∙ ap (λ l. some (kept ++ e ∷ l, none)) (sym none_left)
        | inr (k, more) ↦
            drain-pass fuel (i + 1) (state_after e) (kept ++ e ∷ []) es y.1 (omega arith) refl k
              (omega arith) (subst (λ n. Continues json_valid n es) (sym number) more)
            ∙ ap (λ l. some (l, none)) (append_one-append kept es e)
      ])

  start_kind :
      (e : ModelEvent) (s : Bool)
      → s ≡ false
      → s ≡ not (e.kind == event_start)
      → e.kind ≡ event_start
  start_kind e s h k = (holds_iff (ModelEventType-discrete e.kind event_start)).0 (ground arith)

  start_not_terminal : (e : ModelEvent) → e.kind ≡ event_start → is_terminal e.kind ≡ false
  unfolding is_terminal ModelEventType-discrete
  start_not_terminal e h = rw h refl

  pub drain-Starts :
      (fuel : ℕ) (out es : List ModelEvent)
      → Yields recv 0 es
      → length es < fuel
      → drain json_valid recv fuel 0 new_validator [] ≡ some (out, none)
      → Starts json_valid es
  unfolding error_of complete all_checks
  drain-Starts zero out es y l h = absurd (omega arith)
  drain-Starts (suc fuel) out [] y l h =
      absurd (not_failed _ out [] _ h (drain_at_end fuel 0 new_validator [] y))
  drain-Starts (suc fuel) out (e ∷ es) y l h = elim (drain-Next fuel 0 new_validator [] e y.0) [
    | stops f a ↦ absurd (not_failed _ out [] f h a)
    | goes_on a valid terminal started q ↦
        let number = accepted_number new_validator e (omega arith) valid q in
        let kind = start_kind e false refl started in
        (
          valid,
          number.0,
          kind,
          subst (λ n. Continues json_valid n es) number.0
              (drain-Continues fuel 1 (state_after e) _ out es y.1 (omega arith) refl
                (start_not_terminal e kind) number.1 (sym a ∙ h)),
        )
  ]

  Starts-drain :
      (fuel : ℕ) (es : List ModelEvent)
      → Yields recv 0 es
      → length es < fuel
      → length es < 2 ^ 64
      → Starts json_valid es
      → drain json_valid recv fuel 0 new_validator [] ≡ some (es, none)
  Starts-drain zero es y l b s = absurd (omega arith)
  Starts-drain (suc fuel) [] y l b s = absurd s
  Starts-drain (suc fuel) (e ∷ es) y l b (valid, number, kind, more) =
      drain_at_event fuel 0 new_validator (state_after e) [] e y.0 (
        accept-pass json_valid new_validator e valid refl
          (rw ((holds_iff (ModelEventType-discrete e.kind event_start)).1 kind) refl)
          (omega (arith, number)))
      ∙ drain-pass fuel 1 (state_after e) (e ∷ []) es y.1 (omega arith) refl
          (start_not_terminal e kind) (omega (arith, number))
          (subst (λ n. Continues json_valid n es) (sym number) more)

  -- Whatever the stream returns, `DrainStream` ends after at most 2^64 calls of `Recv`.
  pub drain_stream-terminates :
      (closed : Option Error) (fuel : ℕ)
      → 2 ^ 64 ≤ fuel
      → is_some (drain_stream json_valid (some (record { recv = recv; closed = closed })) fuel)
        ≡ true
  unfolding drain_stream close_with
  drain_stream-terminates closed fuel h =
      is_some-close_with closed (drain json_valid recv fuel 0 new_validator [])
        (drain-ends fuel 0 new_validator [] (omega arith) (omega arith))

  -- Where `Recv` returns the events `es`, fewer than 2^64, and then `io.EOF`, and `Close` returns no
  -- error, `DrainStream` returns `es` without an error exactly where `es` is a whole stream: a
  -- start event, events that neither start nor end a stream, and one stop or error event, each
  -- valid, and numbered 1, 2, 3 and so on.
  pub drain_stream_iff :
      (fuel : ℕ) (es : List ModelEvent)
      → Yields recv 0 es
      → length es < fuel
      → length es < 2 ^ 64
      → (drain_stream json_valid (some (record { recv = recv; closed = none })) fuel
          ≡ some (es, none))
        ↔ IsStream json_valid es
  unfolding drain_stream close_with
  drain_stream_iff fuel es y l b = (
    λ h. Starts-IsStream json_valid es (drain-Starts fuel es es y l (unjoined _ es h)),
    λ s. rw (Starts-drain fuel es y l b (IsStream-Starts json_valid es s), drain_stream) refl,
  )
