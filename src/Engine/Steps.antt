-- ===== src/Engine/Steps.antt =====
-- loop/engine.go: one step of consumeTurn, taken apart.
use fabricrunner.Prelude.{
  ℕ, ◌+◌, ◌%◌, ◌^◌, ◌≡◌, refl, sym, ap, ◌∙◌, subst, ◌≢◌, ◌⊎◌, inl, inr, Bool, true, false, Option,
  none, some, List, [], ◌∷◌, ◌++◌, is_some, Text, text_eq, Error, ok, err, Check, same, ℤ,
}
use fabricrunner.Domain.{Budget}
use fabricrunner.Model.{ModelRef}
use fabricrunner.Turn.{
  ModelEvent, ModelEventType, event_start, event_text_delta, event_tool_call_delta, event_tool_call,
  event_usage, event_stop, event_error, other_event,
}
use fabricrunner.Stream.{ModelStreamValidator, accept, join}
use fabricrunner.Loop.{LoopEvent}
use fabricrunner.Engine.{LoopEmitter, emit}
use fabricrunner.Engine.Turns.{
  TurnState, model_report, gather_usage, gather, take_event, settle, with_emitter, close_turn,
}

-- The reports of the events, numbered on from `n`.
abbrev pub reports : ℤ → ModelRef → ℕ → List ModelEvent → List LoopEvent
reports turn model n [] = []
reports turn model n (e ∷ es) =
    record (model_report turn model e) { sequence = (n + 1) % 2 ^ 64 }
    ∷ reports turn model ((n + 1) % 2 ^ 64) es

-- An emitter with a sink, that gave it the events on from those before.
abbrev pub HasSink : LoopEmitter → Type 0
HasSink m = is_some m.sink ≡ true

pub emit-ok :
    (m m' : LoopEmitter) (event : LoopEvent)
    → HasSink m
    → emit m event ≡ (m', ok tt)
    → (m'.sequence ≡ (m.sequence + 1) % 2 ^ 64)
      × (m'.given ≡ m.given ++ (record event { sequence = (m.sequence + 1) % 2 ^ 64 }) ∷ [])
      × (m'.sink ≡ m.sink)
unfolding emit
emit-ok m m' event s h =
    let same = ap (λ p. p.0) (sym h) in
    (ap (λ x. x.sequence) same, ap (λ x. x.given) same ∙ (rw s refl), ap (λ x. x.sink) same)

gather-emitter :
    (b : Budget) (s : TurnState) (e : ModelEvent) (k : ModelEventType)
    → (gather b s e k).0.emitter ≡ s.emitter
unfolding gather gather_usage
gather-emitter b s e event_start = refl
gather-emitter b s e event_text_delta = refl
gather-emitter b s e event_tool_call_delta = refl
gather-emitter b s e event_tool_call = refl
gather-emitter b s e event_usage = refl
gather-emitter b s e event_stop = refl
gather-emitter b s e event_error = refl
gather-emitter b s e (other_event t) = refl

pub check_cases : (c : Check) → (c ≡ ok tt) ⊎ ((e : Error) × (c ≡ err e))
check_cases (ok u) = inl refl
check_cases (err e) = inr (e, refl)

abbrev pub Consumption : Type 0
Consumption = Option (TurnState × Option Error)

pub left :
    {s after : TurnState} → ◌≡◌ {A = Consumption} (some (s, none)) (some (after, none)) → s ≡ after
left h = cc h

pub three : (p : ModelStreamValidator × TurnState × Check) → p.2 ≡ ok tt → p ≡ (p.0, p.1, ok tt)
three p t = ap (λ c. (p.0, p.1, c)) t

failure_of : Consumption → Bool
failure_of (some (x, some f)) = true
failure_of _ = false

pub no_failure :
    {s after : TurnState} {e : Error} (c : Consumption)
    → c ≡ some (s, some e)
    → c ≢ some (after, none)
no_failure c g h = cc (ap failure_of (sym g ∙ h))

pub unclosed :
    (closed : Option Error) (c : Consumption) (after : TurnState)
    → close_turn closed c ≡ some (after, none)
    → (c ≡ some (after, none)) × (closed ≡ none)
unfolding close_turn join
unclosed closed none after h = cc h
unclosed none (some (s, none)) after h = (h, refl)
unclosed (some e) (some (s, none)) after h = absurd (no_failure _ refl h)
unclosed none (some (s, some f)) after h = absurd (no_failure _ refl h)
unclosed (some e) (some (s, some f)) after h = absurd (no_failure _ refl h)

settle-ok :
    (accepted emitted : Check) (w w' : ModelStreamValidator) (s reported after : TurnState)
    (g : TurnState × Check)
    → settle accepted emitted w s reported g ≡ (w', after, ok tt)
    → (accepted ≡ ok tt) × (emitted ≡ ok tt) × (w ≡ w') × (g.0 ≡ after) × (g.1 ≡ ok tt)
unfolding settle
settle-ok (err x) emitted w w' s reported after g h = absurd (cc (ap (λ p. p.2) h))
settle-ok (ok _) (err x) w w' s reported after g h = absurd (cc (ap (λ p. p.2) h))
settle-ok (ok _) (ok _) w w' s reported after g h =
    (refl, refl, ap (λ p. p.0) h, ap (λ p. p.1) h, ap (λ p. p.2) h)

module _ (json_valid : Text → Bool) (turn : ℤ) (model : ModelRef) (b : Budget) where
  -- What an event that was taken without an error went through.
  pub take_event-ok :
      (v w : ModelStreamValidator) (s after : TurnState) (e : ModelEvent)
      → take_event json_valid turn model b v s e ≡ (w, after, ok tt)
      → (accept json_valid v e ≡ (w, ok tt))
        × (emit s.emitter (model_report turn model e) ≡ (after.emitter, ok tt))
        × ((gather b (with_emitter s after.emitter) e e.kind) ≡ (after, ok tt))
  unfolding take_event
  take_event-ok v w s after e h =
      let report = emit s.emitter (model_report turn model e) in
      let g = gather b (with_emitter s report.0) e e.kind in
      let (a, m, same, g₀, g₁) = settle-ok (accept json_valid v e).1 report.1 _ w s _ after g h in
      let kept : report.0 ≡ after.emitter =
        sym (gather-emitter b (with_emitter s report.0) e e.kind) ∙ ap (λ x. x.emitter) g₀ in
      (
        cc (same, a),
        cc (kept, m),
        subst (λ x. gather b (with_emitter s x) e e.kind ≡ (after, ok tt)) kept (cc (g₀, g₁)),
      )
