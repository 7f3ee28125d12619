-- ===== src/Stream.antt =====
-- provider.go and model.go: the validator of one model stream, and DrainStream. `json.Valid` is an
-- argument; a stream is what its i-th call of `Recv` returns, and what `Close` returns.
pub mod Protocol
pub mod Shape
pub mod Receiving
pub mod Drained
mod Examples
use fabricrunner.Prelude.{
  ℕ, zero, suc, ◌+◌, ◌-◌, ◌*◌, ◌/◌, ◌%◌, ◌^◌, ◌≤◌, ◌<◌, String, ◌≡◌, refl, sym, ap, ◌∙◌, subst, ◌≢◌,
  ◌↔◌, ◌⊎◌, inl, inr, Bool, true, false, not, ◌&&◌, ◌||◌, Option, none, some, List, [], ◌∷◌, ◌++◌,
  map, arith, ltb, leb, eqb, if◌then◌else◌, ltb→lt, lt→ltb, eqb_iff, eqb_refl, Bool-cases,
  Option-cases, &&-eq-true, ||-eq-false, is_some, length, is_empty, get_elem?, get_or, take, drop,
  length-append, drop-length_append, All, All-append, length-map, Eq, ◌==◌, ◌!=◌, holds, holds_iff,
  eq_of_discrete, Text, text, text_beq, text_beq_iff, Text-discrete, text_eq, text_ltb, Sentinel,
  Error, sentinel, message, prefixed, wrap, errors_is, Result, ok, err, Check, ◌>>=◌, ◌>>◌, fail_if,
  prefix_error, wrap_error, fail_if-ok, prefix_error-ok, >>=-eq-ok, >>-eq-ok, all_checks, passed,
  all_checks-pass, prefix_error-pass, equal_of_same, same, holds_of_not, holds_refl,
  Sentinel-discrete, fail_if-pass, ℤ, pos, negsuc, ℤ-discrete, pos_part, neg_part, ◌+ℤ◌, ◌-ℤ◌, ◌*ℤ◌,
  ◌≤ℤ◌, ◌<ℤ◌, ltb_ℤ, is_neg, +ℤ_parts, -ℤ_parts, eq_of_parts, int_laws, eq-pos_of_not-neg,
  to_uint64, of_uint64, add64, sub64, mul64, add64_exact, add64_overflow,
}
use fabricrunner.Turn.{
  ModelEventType, event_start, event_stop, event_error, ModelEventType-discrete,
  model_event_type_eq, ModelEvent, validate_model_event,
}

-- `ModelStreamValidator`; the receiver of the methods is not nil.
pub record ModelStreamValidator : Type 0 where
  pub last_sequence : ℕ
  pub started : Bool
  pub terminal : Bool

abbrev pub new_validator : ModelStreamValidator
new_validator = record { last_sequence = 0; started = false; terminal = false }

abbrev pub protocol_error : String → Error
protocol_error text = wrap (sentinel Sentinel.model_stream_protocol) (message text)

unfoldable pub is_terminal : ModelEventType → Bool
unfolding ModelEventType-discrete
is_terminal k = k == event_stop || k == event_error

-- The part of `Accept` that follows the tests of the event by itself. The validator counts as
-- started before its number is compared.
unfoldable pub accept_valid : ModelStreamValidator → ModelEvent → ModelStreamValidator × Check
unfolding is_terminal ModelEventType-discrete
accept_valid v e =
    if not v.started && e.kind != event_start
    then (v, err (protocol_error "first event is not a start event"))
    else if v.started && e.kind == event_start
    then (v, err (protocol_error "repeated start event"))
    else if not (eqb e.sequence ((v.last_sequence + 1) % 2 ^ 64))
    then (
      record { last_sequence = v.last_sequence; started = true; terminal = v.terminal },
      err (protocol_error "sequence does not follow"),
    )
    else (
      record { last_sequence = e.sequence; started = true; terminal = is_terminal e.kind },
      ok tt,
    )

unfoldable pub complete : ModelStreamValidator → Check
complete v = all_checks (
    fail_if (not v.started) (protocol_error "stream ended before start")
    ∷ fail_if (not v.terminal) (protocol_error "stream ended without a terminal event")
    ∷ [])

-- What one call of `Recv` returned: an event, an error that is `io.EOF`, or another error, with
-- what `ctx.Err()` returns after it.
pub data Received : Type 0 where
  received : ModelEvent → Received
  end_of_stream : Received
  failed : Error → Option Error → Received

-- `ModelStream`: its calls of `Recv` in order, and what `Close` returns.
pub record ModelStream : Type 0 where
  pub recv : ℕ → Received
  pub closed : Option Error

-- `if ctx.Err() != nil { return ctx.Err() }; return err`
unfoldable pub receive_failure : Error → Option Error → Error
receive_failure e none = e
receive_failure e (some cancelled) = cancelled

-- `errors.Join`
unfoldable pub join : Option Error → Option Error → Option Error
join none f = f
join (some e) none = some e
join (some e) (some f) = some (wrap e f)

-- The error of a check, nil where it passed.
unfoldable pub error_of : Check → Option Error
error_of (ok _) = none
error_of (err e) = some e

-- The deferred call of `Close`.
unfoldable pub close_with :
    Option Error → Option (List ModelEvent × Option Error) → Option (List ModelEvent × Option Error)
unfolding join
close_with closed none = none
close_with closed (some (events, failure)) = some (events, join failure closed)

module _ (json_valid : Text → Bool) where
  unfoldable pub accept : ModelStreamValidator → ModelEvent → ModelStreamValidator × Check
  unfolding accept_valid validate_model_event
  accept v e =
      if v.terminal
      then (v, err (protocol_error "event followed terminal event"))
      else elim (validate_model_event json_valid e) [
        | err f ↦ (v, err (wrap (sentinel Sentinel.model_stream_protocol) f))
        | ok _ ↦ accept_valid v e
      ]

  -- The loop of `DrainStream` from its i-th call of `Recv`, with the events kept so far. The fuel
  -- is the number of calls; none where they did not bring the stream to an end.
  unfoldable pub drain :
      (ℕ → Received)
      → ℕ
      → ℕ
      → ModelStreamValidator
      → List ModelEvent
      → Option (List ModelEvent × Option Error)
  unfolding accept complete receive_failure error_of
  drain recv zero i v events = none
  drain recv (suc fuel) i v events = elim (recv i) [
    | end_of_stream ↦ some (events, error_of (complete v))
    | failed e cancelled ↦ some (events, some (receive_failure e cancelled))
    | received event ↦
        let (w, checked) = accept v event in
        elim checked [
          | err f ↦ some (events, some f)
          | ok _ ↦ drain recv fuel (i + 1) w (events ++ event ∷ [])
        ]
  ]

  unfoldable pub drain_stream : Option ModelStream → ℕ → Option (List ModelEvent × Option Error)
  unfolding drain close_with
  drain_stream none fuel = some ([], some (message "model stream is nil"))
  drain_stream (some s) fuel = close_with s.closed (drain s.recv fuel 0 new_validator [])
