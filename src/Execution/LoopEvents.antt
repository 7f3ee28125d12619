-- ===== src/Execution/LoopEvents.antt =====
-- execution_event.go: the loop events that the records of a step carry.
use fabricrunner.Prelude.{
  ◌≡◌, refl, sym, ap, ◌∙◌, inl, inr, true, false, Option, none, some, List, [], ◌∷◌, ◌++◌,
  if◌then◌else◌, Bool-cases, ◌==◌, ◌!=◌, text_beq, text_eq,
}
use fabricrunner.Id.{FabricId}
use fabricrunner.Loop.{LoopEvent}
use fabricrunner.Execution.{ExecutionRecord}

abbrev pub prepend : Option LoopEvent → List LoopEvent → List LoopEvent
prepend none es = es
prepend (some e) es = e ∷ es

-- The loop events that the records of a step carry.
unfoldable pub loop_events : FabricId → List ExecutionRecord → List LoopEvent
unfolding text_beq
loop_events step [] = []
loop_events step (r ∷ rs) =
    let rest = loop_events step rs in if r.step_id != step then rest else prepend r.loop rest

pub loop_events-other :
    (step : FabricId) (r : ExecutionRecord) (rs : List ExecutionRecord)
    → (r.step_id == step) ≡ false
    → loop_events step (r ∷ rs) ≡ loop_events step rs
unfolding loop_events
loop_events-other step r rs h = rw h refl

pub loop_events-same :
    (step : FabricId) (r : ExecutionRecord) (rs : List ExecutionRecord)
    → (r.step_id == step) ≡ true
    → loop_events step (r ∷ rs) ≡ prepend r.loop (loop_events step rs)
unfolding loop_events
loop_events-same step r rs h = rw h refl

-- The events of a step that a new record extends.
pub loop_events-append_other :
    (step : FabricId) (rs : List ExecutionRecord) (r : ExecutionRecord)
    → (r.step_id == step) ≡ false
    → loop_events step (rs ++ r ∷ []) ≡ loop_events step rs
loop_events-append_other step [] r h = loop_events-other step r [] h
loop_events-append_other step (x ∷ rs) r h = elim (Bool-cases (x.step_id == step)) [
  | inl e ↦
      loop_events-same step x (rs ++ r ∷ []) e
      ∙ ap (prepend x.loop) (loop_events-append_other step rs r h)
      ∙ sym (loop_events-same step x rs e)
  | inr e ↦
      loop_events-other step x (rs ++ r ∷ []) e
      ∙ loop_events-append_other step rs r h
      ∙ sym (loop_events-other step x rs e)
]

pub loop_events-append_same :
    (step : FabricId) (rs : List ExecutionRecord) (r : ExecutionRecord)
    → (r.step_id == step) ≡ true
    → loop_events step (rs ++ r ∷ []) ≡ loop_events step rs ++ prepend r.loop []
unfolding loop_events
loop_events-append_same step [] r h = loop_events-same step r [] h
loop_events-append_same step (x ∷ rs) r h = elim (Bool-cases (x.step_id == step)) [
  | inl e ↦
      loop_events-same step x (rs ++ r ∷ []) e
      ∙ ap (prepend x.loop) (loop_events-append_same step rs r h)
      ∙ prepend-append x.loop (loop_events step rs) (prepend r.loop [])
      ∙ ap (λ es. es ++ prepend r.loop []) (sym (loop_events-same step x rs e))
  | inr e ↦
      loop_events-other step x (rs ++ r ∷ []) e
      ∙ loop_events-append_same step rs r h
      ∙ ap (λ es. es ++ prepend r.loop []) (sym (loop_events-other step x rs e))
]
  where
    prepend-append :
        (l : Option LoopEvent) (es fs : List LoopEvent) → prepend l (es ++ fs) ≡ prepend l es ++ fs
    prepend-append none es fs = refl
    prepend-append (some e) es fs = refl
