-- ===== src/Engine/Budgeted.antt =====
-- loop/engine.go: the usage that a turn has counted stays within the budget.
use fabricrunner.Prelude.{
  ◌≡◌, refl, ap, subst, inl, inr, true, false, not, ◌&&◌, Option, none, some, arith, Bool-cases,
  Option-cases, is_some, is_empty, text_eq, ok, fail_if-ok, unless-ok, >>-eq-ok, ℤ, ◌≤ℤ◌, ltb_ℤ,
}
use fabricrunner.Domain.{Budget}
use fabricrunner.Model.{Usage}
use fabricrunner.Turn.{
  ModelEvent, ModelEventType, event_start, event_text_delta, event_tool_call_delta, event_tool_call,
  event_usage, event_stop, event_error, other_event,
}
use fabricrunner.Loop.{LoopResult}
use fabricrunner.Engine.{LoopContext, context_result, has_negative, add_usage, exceeded_usage}
use fabricrunner.Engine.Turns.{TurnState, gather_usage, gather}

-- No count is negative, and none is above its budget.
pub record IsWithin (b : Budget) (u : Usage) : Type 0 where
  pub counts : has_negative u ≡ false
  pub input : u.input_tokens ≤ℤ b.max_input_tokens
  pub output : u.output_tokens ≤ℤ b.max_output_tokens
  pub cost : u.cost ≤ℤ b.max_cost

not_above : (a b : ℤ) → ltb_ℤ b a ≡ false → a ≤ℤ b
not_above a b h = ground arith

unexceeded :
    (b : Budget) (u : Usage)
    → has_negative u ≡ false
    → is_empty (exceeded_usage u b) ≡ true
    → IsWithin b u
unfolding exceeded_usage
unexceeded b u n h = elim (Bool-cases (ltb_ℤ b.max_input_tokens u.input_tokens)) [
  | inl t ↦ absurd (cc (rw (t, exceeded_usage) at h))
  | inr i ↦ elim (Bool-cases (ltb_ℤ b.max_output_tokens u.output_tokens)) [
    | inl t ↦ absurd (cc (rw (i, t, exceeded_usage) at h))
    | inr o ↦ elim (Bool-cases (ltb_ℤ b.max_cost u.cost)) [
      | inl t ↦ absurd (cc (rw (i, o, t, exceeded_usage) at h))
      | inr c ↦ record {
        counts = n;
        input = not_above u.input_tokens b.max_input_tokens i;
        output = not_above u.output_tokens b.max_output_tokens o;
        cost = not_above u.cost b.max_cost c;
      }
    ]
  ]
]

add_usage-counts :
    (total : Usage) (u : Option Usage)
    → (add_usage total u).1 ≡ ok tt
    → has_negative (add_usage total u).0 ≡ false
unfolding add_usage
add_usage-counts total none h = cc h
add_usage-counts total (some u) h = elim (Bool-cases (has_negative u)) [
  | inl t ↦ absurd (cc (rw (t, add_usage) at h))
  | inr f ↦ rw (f, add_usage) (fail_if-ok _ _ (rw (f, add_usage) at h))
]

gather_usage-IsWithin :
    (b : Budget) (s : TurnState) (u : Option Usage)
    → (gather_usage b s u).1 ≡ ok tt
    → IsWithin b (gather_usage b s u).0.result.usage
unfolding gather_usage
gather_usage-IsWithin b s u h =
    let (added, fits) = >>-eq-ok (add_usage s.result.usage u).1 _ h in
    unexceeded b _ (add_usage-counts s.result.usage u added) (unless-ok _ _ fits)

pub gather-IsWithin :
    (b : Budget) (s s' : TurnState) (e : ModelEvent) (k : ModelEventType)
    → IsWithin b s.result.usage
    → gather b s e k ≡ (s', ok tt)
    → IsWithin b s'.result.usage
unfolding gather
gather-IsWithin b s s' e k w h =
    subst (λ x. IsWithin b x.result.usage) (ap (λ p. p.0) h) (by_kind k (ap (λ p. p.1) h))
  where
    by_kind :
        (k : ModelEventType)
        → (gather b s e k).1 ≡ ok tt
        → IsWithin b (gather b s e k).0.result.usage
    by_kind event_usage g = gather_usage-IsWithin b s e.usage g
    by_kind event_start g = w
    by_kind event_text_delta g = w
    by_kind event_tool_call_delta g = w
    by_kind event_tool_call g = w
    by_kind event_stop g = w
    by_kind event_error g = w
    by_kind (other_event t) g = w

-- The test of the context changes no count.
pub context_result-usage :
    (c : LoopContext) (r : LoopResult) → (context_result c r).0.usage ≡ r.usage
unfolding context_result
context_result-usage c r = elim (Option-cases c.loop_err) [
  | inl n ↦ rw (n, context_result) refl
  | inr (e, k) ↦ elim (Bool-cases (c.budget_cause && not (is_some c.parent_err))) [
    | inl t ↦ rw (k, context_result) (rw t refl)
    | inr f ↦ rw (k, context_result) (rw f refl)
  ]
]
