-- ===== src/Execution/History.antt =====
-- execution_event.go: the records of a workload, step by step: the loop events of a step are
-- numbered from 1 without a gap, none follows a stop, and no record follows the finished one.
use fabricrunner.Prelude.{
  ℕ, ◌+◌, ◌%◌, ◌^◌, ◌≤◌, ◌<◌, ◌≡◌, refl, sym, ap, ◌∙◌, subst, ◌≢◌, ◌⊎◌, inl, inr, Bool, true, false,
  ◌||◌, Option, none, some, List, [], ◌∷◌, ◌++◌, arith, ltb, eqb_iff, Bool-cases, append_nil, All,
  All-append, ◌==◌, holds_iff, Text, text_beq_iff, Text-discrete, text_eq, Error, ok, fail_if,
  fail_if-ok, unless-ok, ok_injective, passed, same, ℤ,
}
use fabricrunner.Id.{FabricId}
use fabricrunner.Domain.{WorkloadState, Step}
use fabricrunner.Event.{Event}
use fabricrunner.Loop.{LoopEvent, loop_stopped, loop_event_type_eq, LoopEventType-discrete}
use fabricrunner.Execution.{
  finished, execution_stage_eq, ExecutionStage-discrete, ExecutionRecord, Earlier, scan_earlier,
  or_else, advance,
}
use fabricrunner.Execution.LoopStage.{check_loop, check_loop_sequence}
use fabricrunner.Execution.Recorded.{check_record, check_stage}
use fabricrunner.Execution.Payload.{Checked, check_record-Checked, loop-stage}
use fabricrunner.Execution.LoopEvents.{
  prepend, loop_events, loop_events-other, loop_events-same, loop_events-append_other,
  loop_events-append_same,
}

-- The numbers follow `n` without a gap, and nothing follows a stop.
abbrev pub Contiguous : ℕ → List LoopEvent → Type 0
Contiguous n [] = Unit
Contiguous n (e ∷ es) =
    (e.sequence ≡ n + 1)
    × (e.sequence < 2 ^ 64)
    × ((es ≡ []) ⊎ (e.kind ≢ loop_stopped))
    × Contiguous (n + 1) es

abbrev pub IsOpen : FabricId → ExecutionRecord → Type 0
IsOpen step r = r.step_id ≡ step → r.stage ≢ finished

-- No record of the step follows its finished one.
abbrev pub FinishedLast : FabricId → List ExecutionRecord → Type 0
FinishedLast step [] = Unit
FinishedLast step (r ∷ rs) = (IsOpen step r ⊎ All (λ x. x.step_id ≢ step) rs) × FinishedLast step rs

pub record IsHistory (rs : List ExecutionRecord) (step : FabricId) : Type 0 where
  pub contiguous : Contiguous 0 (loop_events step rs)
  pub finished_last : FinishedLast step rs

FinishedLast-append :
    (step : FabricId) (rs : List ExecutionRecord) (r : ExecutionRecord)
    → FinishedLast step rs
    → All (IsOpen step) rs ⊎ (r.step_id ≢ step)
    → FinishedLast step (rs ++ r ∷ [])
FinishedLast-append step [] r f o = (inr tt, tt)
FinishedLast-append step (x ∷ rs) r f (inl o) =
    (inl o.0, FinishedLast-append step rs r f.1 (inl o.1))
FinishedLast-append step (x ∷ rs) r f (inr n) = (
  elim f.0 [
    | inl o ↦ inl o
    | inr a ↦ inr (All-append (λ x. x.step_id ≢ step) rs (r ∷ []) a (n, tt))
  ],
  FinishedLast-append step rs r f.1 (inr n),
)

abbrev last : List LoopEvent → Option LoopEvent
last [] = none
last (e ∷ []) = some e
last (e ∷ f ∷ es) = last (f ∷ es)

-- Where the next event continues the last one.
abbrev Extends : ℕ → Option LoopEvent → LoopEvent → Type 0
Extends n none e = e.sequence ≡ n + 1
Extends n (some previous) e = (previous.kind ≢ loop_stopped) × (e.sequence ≡ previous.sequence + 1)

Extends-nonempty :
    (n m : ℕ) (g : LoopEvent) (es : List LoopEvent) (e : LoopEvent)
    → Extends n (last (g ∷ es)) e
    → Extends m (last (g ∷ es)) e
Extends-nonempty n m g [] e x = x
Extends-nonempty n m g (f ∷ es) e x = Extends-nonempty n m f es e x

Contiguous-append :
    (n : ℕ) (es : List LoopEvent) (e : LoopEvent)
    → Contiguous n es
    → e.sequence < 2 ^ 64
    → Extends n (last es) e
    → Contiguous n (es ++ e ∷ [])
Contiguous-append n [] e c b x = (x, b, inl refl, tt)
Contiguous-append n (f ∷ []) e c b x =
    (c.0, c.1, inr x.0, (omega (arith, x.1, c.0), b, inl refl, tt))
Contiguous-append n (f ∷ g ∷ es) e c b x = (
  c.0,
  c.1,
  inr (kept c.2),
  Contiguous-append (n + 1) (g ∷ es) e c.3 b (Extends-nonempty n (n + 1) g es e x),
)
  where
    kept : (g ∷ es ≡ []) ⊎ (f.kind ≢ loop_stopped) → f.kind ≢ loop_stopped
    kept (inl z) = cc z
    kept (inr k) = k

or_else-last :
    (f : LoopEvent) (es : List LoopEvent) (a b : Option LoopEvent)
    → or_else (last (f ∷ es)) a ≡ or_else (last (f ∷ es)) b
unfolding or_else
or_else-last f [] a b = refl
or_else-last f (g ∷ es) a b = or_else-last g es a b

last-prepend :
    (l : Option LoopEvent) (es : List LoopEvent) (s : Option LoopEvent)
    → or_else (last (prepend l es)) s ≡ or_else (last es) (or_else l s)
unfolding or_else
last-prepend none es s = refl
last-prepend (some e) [] s = refl
last-prepend (some e) (f ∷ es) s = or_else-last f es s (some e)

-- The last loop event of the step, and that the step is open.
scan_earlier-ok :
    (step : FabricId) (turn : ℤ) (seen earlier : Earlier) (rs : List ExecutionRecord)
    → scan_earlier step turn seen rs ≡ ok earlier
    → (earlier.previous_loop ≡ or_else (last (loop_events step rs)) seen.previous_loop)
      × All (IsOpen step) rs
unfolding scan_earlier loop_events or_else advance
scan_earlier-ok step turn seen earlier [] h = (sym (ap (λ x. x.previous_loop) (ok_injective h)), tt)
scan_earlier-ok step turn seen earlier (r ∷ rs) h = elim (Bool-cases (r.step_id == step)) [
  | inr other ↦
      let (l, open_rest) = scan_earlier-ok step turn seen earlier rs (rw other at h) in
      (
        l
            ∙ ap (λ es. or_else (last es) seen.previous_loop)
                (sym (loop_events-other step r rs other)),
        ((λ e. absurd (differs other e)), open_rest),
      )
  | inl same ↦ elim (Bool-cases (r.stage == finished)) [
    | inl f ↦ absurd (cc (rw (same, f) at h))
    | inr f ↦
        let (l, open_rest) =
          scan_earlier-ok step turn (advance turn seen r) earlier rs (rw (same, f) at h) in
        (
          l
              ∙ sym (last-prepend r.loop (loop_events step rs) seen.previous_loop)
              ∙ ap (λ es. or_else (last es) seen.previous_loop)
                  (sym (loop_events-same step r rs same)),
          ((λ e k. unfinished f k), open_rest),
        )
  ]
]
  where
    differs : (r.step_id == step) ≡ false → r.step_id ≡ step → ⊥
    differs b e = cc (sym b ∙ (text_beq_iff r.step_id step).1 e)

    unfinished : (r.stage == finished) ≡ false → r.stage ≡ finished → ⊥
    unfinished b e = cc (sym b ∙ (holds_iff (ExecutionStage-discrete r.stage finished)).1 e)

last-bound :
    (n : ℕ) (es : List LoopEvent) (p : LoopEvent)
    → Contiguous n es
    → last es ≡ some p
    → p.sequence < 2 ^ 64
last-bound n [] p c h = cc
last-bound n (e ∷ []) p c h =
    let same : e ≡ p = cc h in subst (λ (x : LoopEvent). x.sequence < 2 ^ 64) same c.1
last-bound n (e ∷ f ∷ es) p c h = last-bound (n + 1) (f ∷ es) p c.3 h

or_else-none : (o : Option LoopEvent) → or_else o none ≡ o
unfolding or_else
or_else-none none = refl
or_else-none (some e) = refl

-- The check of the number and of the stop, read off.
check_loop_sequence-ok :
    (previous : Option LoopEvent) (e : LoopEvent)
    → check_loop_sequence previous e ≡ ok tt
    → 1 ≤ e.sequence
    → ((p : LoopEvent) → previous ≡ some p → p.sequence < 2 ^ 64)
    → (e.sequence < 2 ^ 64) × Extends 0 previous e
unfolding check_loop_sequence
check_loop_sequence-ok none e h l b =
    let q = (eqb_iff e.sequence 1).0 (unless-ok _ _ h) in (omega (arith, q), q)
check_loop_sequence-ok (some p) e h l b =
    let q =
      (eqb_iff e.sequence ((p.sequence + 1) % 2 ^ 64)).0 (unless-ok _ _ (passed _ 1 h refl)) in
    let bound = b p refl in
    (
      omega (arith, q, l, bound),
      (running (fail_if-ok _ _ (passed _ 0 h refl)), omega (arith, q, l, bound)),
    )
  where
    running : (p.kind == loop_stopped) ≡ false → p.kind ≢ loop_stopped
    running f k = cc (sym f ∙ (holds_iff (LoopEventType-discrete p.kind loop_stopped)).1 k)

at_least_one : (n : ℕ) (b : Bool) (e : Error) → fail_if (ltb n 1 || b) e ≡ ok tt → 1 ≤ n
at_least_one n b e h = ground (arith, fail_if-ok (ltb n 1 || b) e h)

text_beq_refl : (a : Text) → (a == a) ≡ true
text_beq_refl a = (text_beq_iff a a).1 refl

different : {a b : Text} → a ≢ b → (a == b) ≡ false
different {a} {b} n = elim (Bool-cases (a == b)) [
  | inl t ↦ absurd (n ((text_beq_iff a b).0 t))
  | inr f ↦ f
]

module _ (json_valid : Text → Bool) (sha256 : List ℕ → List ℕ) where
  module _ (state : WorkloadState) (workload : FabricId) (at_step : Option Step)
      (rs : List ExecutionRecord) (e : Event) (r : ExecutionRecord) where
    recorded_loop :
        (l : LoopEvent)
        → Contiguous 0 (loop_events r.step_id rs)
        → r.loop ≡ some l
        → Checked json_valid sha256 state workload at_step rs e r
        → (l.sequence < 2 ^ 64) × Extends 0 (last (loop_events r.step_id rs)) l
    unfolding check_stage check_loop
    recorded_loop l c has k =
        let staged : check_loop json_valid r.turn k.earlier (some l) ≡ ok tt =
          subst (λ x. check_loop json_valid r.turn k.earlier x ≡ ok tt) has
            (subst (λ s. check_stage json_valid sha256 workload e k.earlier r s ≡ ok tt)
              (loop-stage json_valid sha256 state workload at_step rs e r k (rw has refl))
              k.staged) in
        let before =
          (scan_earlier-ok r.step_id r.turn _ k.earlier rs k.scanned).0
          ∙ or_else-none (last (loop_events r.step_id rs)) in
        let (bound, next) =
          check_loop_sequence-ok k.earlier.previous_loop l (passed _ 1 staged refl)
            (at_least_one l.sequence _ _ (passed _ 0 staged refl))
            (λ p q. last-bound 0 (loop_events r.step_id rs) p c (sym before ∙ q)) in
        (bound, subst (λ x. Extends 0 x l) before next)

    extended :
        (l : Option LoopEvent)
        → r.loop ≡ l
        → Contiguous 0 (loop_events r.step_id rs)
        → Checked json_valid sha256 state workload at_step rs e r
        → Contiguous 0 (loop_events r.step_id rs ++ prepend l [])
    extended none has c k = subst (Contiguous 0) (sym (append_nil (loop_events r.step_id rs))) c
    extended (some l) has c k =
        let x = recorded_loop l c has k in
        Contiguous-append 0 (loop_events r.step_id rs) l c x.0 x.1

    -- Where the records of a step are numbered and closed as they should be, they still are with a
    -- record that passes the checks of `applyExecutionRecorded`.
    pub check_record-IsHistory :
        ((step : FabricId) → IsHistory rs step)
        → check_record json_valid sha256 state workload at_step rs e r ≡ ok tt
        → (step : FabricId) → IsHistory (rs ++ r ∷ []) step
    check_record-IsHistory i h step =
        let k = check_record-Checked json_valid sha256 state workload at_step rs e r h in
        let opened = (scan_earlier-ok r.step_id r.turn _ k.earlier rs k.scanned).1 in
        elim (Text-discrete r.step_id step) [
          | yes same ↦ subst (IsHistory (rs ++ r ∷ [])) same (record {
            contiguous =
                subst (Contiguous 0)
                  (sym (loop_events-append_same r.step_id rs r (text_beq_refl r.step_id)))
                  (extended r.loop refl (i r.step_id).contiguous k);
            finished_last =
                FinishedLast-append r.step_id rs r (i r.step_id).finished_last (inl opened);
          })
          | no other ↦ record {
            contiguous =
                subst (Contiguous 0) (sym (loop_events-append_other step rs r (different other)))
                  (i step).contiguous;
            finished_last = FinishedLast-append step rs r (i step).finished_last (inr other);
          }
        ]
