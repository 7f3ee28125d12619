-- ===== src/Stream/Protocol.antt =====
-- provider.go: what `Accept` and `Complete` let through, against a description of a stream that
-- does not follow the code.
use fabricrunner.Prelude.{
  ℕ, ◌+◌, ◌%◌, ◌^◌, ◌≡◌, refl, ◌≢◌, ◌⊎◌, inl, inr, Bool, true, false, not, List, [], ◌∷◌, ◌++◌, eqb,
  eqb_iff, Bool-cases, All, ◌==◌, Text, text_eq, Sentinel, Error, sentinel, wrap, ok, err, Check,
  all_checks,
}
use fabricrunner.Turn.{event_start, model_event_type_eq, ModelEvent, validate_model_event}
use fabricrunner.Stream.{
  ModelStreamValidator, is_terminal, accept, accept_valid, complete, protocol_error,
}

-- The state after an event that was accepted.
abbrev pub state_after : ModelEvent → ModelStreamValidator
state_after e = record { last_sequence = e.sequence; started = true; terminal = is_terminal e.kind }

-- The numbers follow `n` without a gap.
abbrev pub Numbered : ℕ → List ModelEvent → Type 0
Numbered n [] = Unit
Numbered n (e ∷ es) = (e.sequence ≡ n + 1) × Numbered (n + 1) es

-- What the place of an event in the stream asks of its type.
abbrev pub IsOrdinary : ModelEvent → Type 0
IsOrdinary e = (e.kind ≢ event_start) × (is_terminal e.kind ≡ false)

module _ (json_valid : Text → Bool) where
  abbrev pub IsValid : ModelEvent → Type 0
  IsValid e = validate_model_event json_valid e ≡ ok tt

  -- A whole stream: a start event, ordinary events, and one stop or error event at the end; each
  -- valid by itself, and numbered from 1.
  pub record IsStream (es : List ModelEvent) : Type 0 where
    pub first : ModelEvent
    pub middle : List ModelEvent
    pub last : ModelEvent
    pub shape : es ≡ first ∷ middle ++ last ∷ []
    pub starts : first.kind ≡ event_start
    pub ordinary : All IsOrdinary middle
    pub not_start : last.kind ≢ event_start
    pub ends : is_terminal last.kind ≡ true
    pub valid : All IsValid es
    pub numbered : Numbered 0 es

  -- The events that complete a stream after number `n`.
  abbrev pub Continues : ℕ → List ModelEvent → Type 0
  Continues n [] = ⊥
  Continues n (e ∷ es) =
      IsValid e
      × (e.sequence ≡ n + 1)
      × (e.kind ≢ event_start)
      × (((is_terminal e.kind ≡ true) × (es ≡ []))
          ⊎ ((is_terminal e.kind ≡ false) × Continues (n + 1) es))

  abbrev pub Starts : List ModelEvent → Type 0
  Starts [] = ⊥
  Starts (e ∷ es) = IsValid e × (e.sequence ≡ 1) × (e.kind ≡ event_start) × Continues 1 es

-- How the tests on the place of an event end.
abbrev Placed : ModelStreamValidator → ModelEvent → Type 0
Placed v e =
    (accept_valid v e ≡ (state_after e, ok tt))
    × (v.started ≡ not (e.kind == event_start))
    × (e.sequence ≡ (v.last_sequence + 1) % 2 ^ 64)

abbrev Misplaced : ModelStreamValidator → ModelEvent → Type 0
Misplaced v e = (f : Error) × ((accept_valid v e).1 ≡ err f)

number_cases :
    (v : ModelStreamValidator) (e : ModelEvent)
    → v.started ≡ not (e.kind == event_start)
    → Placed v e ⊎ Misplaced v e
unfolding accept_valid
number_cases v e h = elim (Bool-cases (eqb e.sequence ((v.last_sequence + 1) % 2 ^ 64))) [
  | inl q ↦ elim (Bool-cases (e.kind == event_start)) [
    | inl k ↦ inl (rw (h, k, q, accept_valid) refl, h, (eqb_iff _ _).0 q)
    | inr k ↦ inl (rw (h, k, q, accept_valid) refl, h, (eqb_iff _ _).0 q)
  ]
  | inr q ↦ elim (Bool-cases (e.kind == event_start)) [
    | inl k ↦ inr (protocol_error "sequence does not follow", rw (h, k, q, accept_valid) refl)
    | inr k ↦ inr (protocol_error "sequence does not follow", rw (h, k, q, accept_valid) refl)
  ]
]

place_cases : (v : ModelStreamValidator) (e : ModelEvent) → Placed v e ⊎ Misplaced v e
unfolding accept_valid
place_cases v e = elim (Bool-cases v.started) [
  | inl s ↦ elim (Bool-cases (e.kind == event_start)) [
    | inl k ↦ inr (protocol_error "repeated start event", rw (s, k, accept_valid) refl)
    | inr k ↦ number_cases v e (rw (s, k) refl)
  ]
  | inr s ↦ elim (Bool-cases (e.kind == event_start)) [
    | inl k ↦ number_cases v e (rw (s, k) refl)
    | inr k ↦ inr (protocol_error "first event is not a start event", rw (s, k, accept_valid) refl)
  ]
]

module _ (json_valid : Text → Bool) where
  -- What a state of the validator lets through.
  pub data Accepts (v : ModelStreamValidator) (e : ModelEvent) : Type 0 where
    refused : (f : Error) → (accept json_valid v e).1 ≡ err f → Accepts v e
    accepted :
        accept json_valid v e ≡ (state_after e, ok tt)
        → IsValid json_valid e
        → v.terminal ≡ false
        → v.started ≡ not (e.kind == event_start)
        → e.sequence ≡ (v.last_sequence + 1) % 2 ^ 64
        → Accepts v e

  Accepts-checked :
      (v : ModelStreamValidator) (e : ModelEvent) (r : Check)
      → validate_model_event json_valid e ≡ r
      → v.terminal ≡ false
      → Accepts v e
  unfolding accept
  Accepts-checked v e (err f) h t =
      refused (wrap (sentinel Sentinel.model_stream_protocol) f) (rw (t, h, accept) refl)
  Accepts-checked v e (ok tt) h t = elim (place_cases v e) [
    | inl (a, s, q) ↦ accepted (rw (t, h, accept) a) h t s q
    | inr (f, a) ↦ refused f (rw (t, h, accept) a)
  ]

  pub accept-Accepts : (v : ModelStreamValidator) (e : ModelEvent) → Accepts v e
  unfolding accept
  accept-Accepts v e = elim (Bool-cases v.terminal) [
    | inl t ↦ refused (protocol_error "event followed terminal event") (rw (t, accept) refl)
    | inr t ↦ Accepts-checked v e (validate_model_event json_valid e) refl t
  ]

  pub accept-pass :
      (v : ModelStreamValidator) (e : ModelEvent)
      → IsValid json_valid e
      → v.terminal ≡ false
      → v.started ≡ not (e.kind == event_start)
      → e.sequence ≡ (v.last_sequence + 1) % 2 ^ 64
      → accept json_valid v e ≡ (state_after e, ok tt)
  unfolding accept accept_valid
  accept-pass v e valid t s q = elim (Bool-cases (e.kind == event_start)) [
    | inl k ↦ rw (t, valid, accept) (rw (s, k, (eqb_iff _ _).1 q, accept_valid) refl)
    | inr k ↦ rw (t, valid, accept) (rw (s, k, (eqb_iff _ _).1 q, accept_valid) refl)
  ]

pub complete-unfinished :
    (v : ModelStreamValidator)
    → v.started ≡ true
    → v.terminal ≡ false
    → complete v ≡ err (protocol_error "stream ended without a terminal event")
unfolding complete all_checks
complete-unfinished v s t = rw (s, t, complete) refl

pub complete-pass :
    (v : ModelStreamValidator) → v.started ≡ true → v.terminal ≡ true → complete v ≡ ok tt
unfolding complete all_checks
complete-pass v s t = rw (s, t, complete) refl
