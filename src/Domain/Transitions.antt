-- ===== src/Domain/Transitions.antt =====
-- domain.go: what CanTransitionWorkload, CanTransitionStep and the Transition methods allow,
-- against the diagrams drawn edge by edge, and over whole histories.
use mathlib.Core.List.{Memᴰ}
use fabricrunner.Prelude.{
  ◌≡◌, refl, sym, ap, ◌⊎◌, inl, inr, Bool, true, false, List, [], ◌∷◌, map, arith, Bool-cases,
  text_eq, Result, ok, err, ◌>>=◌, ok_injective,
}
use fabricrunner.Domain.{
  WorkloadState, workload_state_eq, StepState, step_state_eq, Step, Workload, can_transition_step,
  can_transition_workload, transition_workload, transition_step, bad_transition, Time,
  StepState-discrete, WorkloadState-discrete,
}

-- The diagram of a step.
infix 40 ◌⟶◌
pub data ◌⟶◌ : StepState → StepState → Type 0 where
  make_ready : StepState.pending ⟶ StepState.ready
  lease : StepState.ready ⟶ StepState.leased
  refuse : StepState.ready ⟶ StepState.failed
  begin_run : StepState.leased ⟶ StepState.running
  release : StepState.leased ⟶ StepState.ready
  lose : StepState.leased ⟶ StepState.uncertain
  succeed : StepState.running ⟶ StepState.succeeded
  break : StepState.running ⟶ StepState.failed
  ask : StepState.running ⟶ StepState.waiting_approval
  lose_run : StepState.running ⟶ StepState.uncertain
  approve : StepState.waiting_approval ⟶ StepState.running
  deny : StepState.waiting_approval ⟶ StepState.failed
  found_done : StepState.uncertain ⟶ StepState.succeeded
  found_failed : StepState.uncertain ⟶ StepState.failed
  retry : StepState.uncertain ⟶ StepState.ready
  cancel_pending : StepState.pending ⟶ StepState.cancelled
  cancel_ready : StepState.ready ⟶ StepState.cancelled
  cancel_leased : StepState.leased ⟶ StepState.cancelled
  cancel_running : StepState.running ⟶ StepState.cancelled
  cancel_waiting : StepState.waiting_approval ⟶ StepState.cancelled
  cancel_uncertain : StepState.uncertain ⟶ StepState.cancelled

ruleset edges = (
  make_ready, lease, refuse, begin_run, release, lose, succeed, break, ask, lose_run, approve, deny,
  found_done, found_failed, retry, cancel_pending, cancel_ready, cancel_leased, cancel_running,
  cancel_waiting, cancel_uncertain,
)

edge_allowed : {s t : StepState} → s ⟶ t → can_transition_step s t ≡ true
unfolding can_transition_step StepState-discrete
edge_allowed make_ready = refl
edge_allowed _ = refl

allowed_edge : (s t : StepState) → can_transition_step s t ≡ true → s ⟶ t
unfolding can_transition_step StepState-discrete
allowed_edge s StepState.pending h = grind (arith, edges)
allowed_edge s StepState.ready h = grind (arith, edges)
allowed_edge s _ h = grind (arith, edges)

-- A transition succeeds exactly on an edge of the diagram, and then changes the state and the time
-- of the update alone; off the diagram it returns the invalid-transition error.
pub transition_step_exact :
    (s : Step) (to : StepState) (now : Time)
    → ((s.state ⟶ to) × (transition_step s to now ≡ ok (record s { state = to; updated_at = now })))
      ⊎ (¬ (s.state ⟶ to) × (transition_step s to now ≡ err bad_transition))
unfolding transition_step
transition_step_exact s to now = elim (Bool-cases (can_transition_step s.state to)) [
  | inl e ↦ inl (allowed_edge s.state to e, rw e)
  | inr e ↦ inr ((λ h. cc (e, edge_allowed h)), rw e)
]

-- A step state can be cancelled, or has no transition to any state.
pub cancel_or_stuck :
    (s : StepState)
    → (can_transition_step s StepState.cancelled ≡ true)
      ⊎ ((t : StepState) → can_transition_step s t ≡ false)
unfolding can_transition_step StepState-discrete
cancel_or_stuck StepState.pending = inl refl
cancel_or_stuck StepState.ready = inl refl
cancel_or_stuck StepState.leased = inl refl
cancel_or_stuck StepState.running = inl refl
cancel_or_stuck StepState.waiting_approval = inl refl
cancel_or_stuck StepState.uncertain = inl refl
cancel_or_stuck _ = inr (λ t. refl)

-- The calls of `Transition` that a history asks for, one after another.
unfoldable pub follow_step : Step → List (StepState × Time) → Result Step
follow_step s [] = ok s
follow_step s ((to, now) ∷ rest) = do s' ← transition_step s to now; follow_step s' rest

unfoldable pub follow_workload : Workload → List (WorkloadState × Time) → Result Workload
follow_workload w [] = ok w
follow_workload w ((to, now) ∷ rest) = do w' ← transition_workload w to now; follow_workload w' rest

-- The history asks for the state.
abbrev pub Visits {ℓ} : {A : Type ℓ} → A → List (A × Time) → Type ℓ
Visits a path = Memᴰ a (map (λ p. p.0) path)

-- Pending, ready, or ended without a lease.
abbrev unleased : StepState → Bool
unleased StepState.pending = true
unleased StepState.ready = true
unleased StepState.failed = true
unleased StepState.cancelled = true
unleased _ = false

edge_unleased :
    {s t : StepState} → s ⟶ t → unleased s ≡ true → (StepState.leased ≡ t) ⊎ (unleased t ≡ true)
edge_unleased lease h = inl refl
edge_unleased make_ready h = inr refl
edge_unleased refuse h = inr refl
edge_unleased cancel_pending h = inr refl
edge_unleased cancel_ready h = inr refl
edge_unleased _ h = cc

follow_step-unleased :
    (s s' : Step) (path : List (StepState × Time))
    → unleased s.state ≡ true
    → follow_step s path ≡ ok s'
    → unleased s'.state ≡ false
    → Visits StepState.leased path
unfolding follow_step
follow_step-unleased s s' [] u e h =
    cc (ap {B = Bool} (λ r. elim r [ ok x ↦ unleased x.state | err f ↦ false ]) e)
follow_step-unleased s s' ((to, now) ∷ rest) u e h = elim (transition_step_exact s to now) [
  | inr (_, off) ↦ cc (rw off at e)
  | inl (edge, on) ↦ elim (edge_unleased edge u) [
    | inl p ↦ Memᴰ.head p
    | inr v ↦
        Memᴰ.tail (
          follow_step-unleased (record s { state = to; updated_at = now }) s' rest v (rw on at e) h)
  ]
]

-- However a pending step comes to be running, waiting for approval, uncertain or succeeded, it was
-- leased on the way.
pub lease_before_run :
    (s s' : Step) (path : List (StepState × Time))
    → s.state ≡ StepState.pending
    → follow_step s path ≡ ok s'
    → (s'.state ≡ StepState.running)
      ⊎ (s'.state ≡ StepState.waiting_approval)
      ⊎ (s'.state ≡ StepState.uncertain)
      ⊎ (s'.state ≡ StepState.succeeded)
    → Visits StepState.leased path
lease_before_run s s' path p e h = follow_step-unleased s s' path (rw p) e (ground arith)

-- Created, or ended without having run.
abbrev not_run : WorkloadState → Bool
not_run WorkloadState.created = true
not_run WorkloadState.cancelled = true
not_run _ = false

not_run-step :
    (s t : WorkloadState)
    → can_transition_workload s t ≡ true
    → not_run s ≡ true
    → (WorkloadState.running ≡ t) ⊎ (not_run t ≡ true)
unfolding can_transition_workload WorkloadState-discrete
not_run-step s t c h = ground arith

follow_workload-not_run :
    (w w' : Workload) (path : List (WorkloadState × Time))
    → not_run w.state ≡ true
    → follow_workload w path ≡ ok w'
    → not_run w'.state ≡ false
    → Visits WorkloadState.running path
unfolding follow_workload transition_workload
follow_workload-not_run w w' [] u e h =
    cc (ap {B = Bool} (λ r. elim r [ ok x ↦ not_run x.state | err f ↦ false ]) e)
follow_workload-not_run w w' ((to, now) ∷ rest) u e h =
    elim (Bool-cases (can_transition_workload w.state to)) [
      | inr off ↦ cc (rw off at e)
      | inl on ↦ elim (not_run-step w.state to on u) [
        | inl p ↦ Memᴰ.head p
        | inr v ↦ Memᴰ.tail (
            follow_workload-not_run (record w { state = to; updated_at = now }) w' rest v
              (rw on at e) h)
      ]
    ]

-- A created workload waits, succeeds or fails only after it was running.
pub run_before_end :
    (w w' : Workload) (path : List (WorkloadState × Time))
    → w.state ≡ WorkloadState.created
    → follow_workload w path ≡ ok w'
    → (w'.state ≡ WorkloadState.waiting)
      ⊎ (w'.state ≡ WorkloadState.succeeded)
      ⊎ (w'.state ≡ WorkloadState.failed)
    → Visits WorkloadState.running path
run_before_end w w' path p e h = follow_workload-not_run w w' path (rw p) e (ground arith)

-- What a transition that was made has changed.
pub transition_workload-ok :
    (w w' : Workload) (to : WorkloadState) (now : Time)
    → transition_workload w to now ≡ ok w'
    → (can_transition_workload w.state to ≡ true) × (w' ≡ record w { state = to; updated_at = now })
unfolding transition_workload
transition_workload-ok w w' to now h = elim (Bool-cases (can_transition_workload w.state to)) [
  | inl t ↦ (t, sym (ok_injective (rw t at h)))
  | inr t ↦ absurd (cc (rw t at h))
]

pub transition_step-ok :
    (s s' : Step) (to : StepState) (now : Time)
    → transition_step s to now ≡ ok s'
    → (can_transition_step s.state to ≡ true) × (s' ≡ record s { state = to; updated_at = now })
unfolding transition_step
transition_step-ok s s' to now h = elim (Bool-cases (can_transition_step s.state to)) [
  | inl t ↦ (t, sym (ok_injective (rw t at h)))
  | inr t ↦ absurd (cc (rw t at h))
]
