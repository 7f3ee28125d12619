-- ===== src/Store/Streams.antt =====
-- store/memory/store.go: the map of the streams, and the events that the loop of `Append` makes.
use fabricrunner.Prelude.{
  ℕ, suc, ◌+◌, ◌%◌, ◌^◌, ◌<◌, ◌≡◌, refl, sym, ap, ◌∙◌, subst, ◌≢◌, inl, inr, Bool, true, false,
  List, [], ◌∷◌, ◌++◌, arith, eqb, Bool-cases, length, ◌==◌, Text, text_beq_iff, text_eq, Result,
  ok, fail_if, prefix_error, prefix_error-ok, >>=-eq-ok, >>-eq-ok,
}
use fabricrunner.Id.{FabricId}
use fabricrunner.Domain.{Time, is_zero_time}
use fabricrunner.Event.{
  AggregateRef, EventDraft, Event, validate_ref, validate_draft, make_event, new_event,
}
use fabricrunner.Store.{Streams, stream, put, Source, materialize}

pub stream-put :
    (key : Text) (events : List Event) (s : Streams) → stream key (put key events s) ≡ events
unfolding stream put
stream-put key events [] = rw ((text_beq_iff key key).1 refl)
stream-put key events ((k, old) ∷ rest) = elim (Bool-cases (k == key)) [
  | inl e ↦ rw e (rw e refl)
  | inr e ↦ rw e (rw e (stream-put key events rest))
]

pub stream-put_other :
    (key other : Text) (events : List Event) (s : Streams)
    → key ≢ other
    → stream other (put key events s) ≡ stream other s
unfolding stream put
stream-put_other key other events [] h = elim (Bool-cases (key == other)) [
  | inl e ↦ absurd (h ((text_beq_iff key other).0 e))
  | inr e ↦ rw e refl
]
stream-put_other key other events ((k, old) ∷ rest) h = elim (Bool-cases (k == key)) [
  | inl e ↦ rw e (ground (arith, differs k e))
  | inr e ↦ rw e (ground (arith, stream-put_other key other events rest h))
]
  where
    differs : (k : Text) → (k == key) ≡ true → (k == other) ≡ false
    differs k e = elim (Bool-cases (k == other)) [
      | inl o ↦ absurd (h (sym ((text_beq_iff k key).0 e) ∙ (text_beq_iff k other).0 o))
      | inr o ↦ o
    ]

-- The events follow number `n` without a gap, and belong to the aggregate.
abbrev pub Follows : AggregateRef → ℕ → List Event → Type 0
Follows ref n [] = Unit
Follows ref n (e ∷ es) = (e.sequence ≡ n + 1) × (e.aggregate ≡ ref) × Follows ref (n + 1) es

pub Follows-append :
    (ref : AggregateRef) (n : ℕ) (xs ys : List Event)
    → Follows ref n xs
    → Follows ref (n + length xs) ys
    → Follows ref n (xs ++ ys)
Follows-append ref n [] ys h k = subst (λ m. Follows ref m ys) (omega arith) k
Follows-append ref n (x ∷ xs) ys h k =
    (h.0, h.1, Follows-append ref (n + 1) xs ys h.2 (subst (λ m. Follows ref m ys) (omega arith) k))

module _ (json_valid : Text → Bool) (sha256 : List ℕ → List ℕ) where
  new_event-makes :
      (ref : AggregateRef) (n : ℕ) (d : EventDraft) (at : Time) (made : Result FabricId) (e : Event)
      → new_event json_valid sha256 ref n d at made ≡ ok e
      → (e.sequence ≡ n) × (e.aggregate ≡ ref)
  unfolding new_event make_event
  new_event-makes ref n d at made e h =
      let (ref_ok, h1) = >>-eq-ok (validate_ref ref) _ h in
      let (seq_ok, h2) = >>-eq-ok (fail_if (eqb n 0) _) _ h1 in
      let (draft_ok, h3) = >>-eq-ok (validate_draft json_valid d) _ h2 in
      let (time_ok, h4) = >>-eq-ok (fail_if (is_zero_time at) _) _ h3 in
      let (id, id_ok, h5) = >>=-eq-ok made _ h4 in
      let same_event : make_event json_valid sha256 ref n d at id ≡ e = cc h5 in
      (sym (ap (λ x. x.sequence) same_event), sym (ap (λ x. x.aggregate) same_event))

  -- One event for each draft, numbered from the end of the stream.
  pub materialize-Follows :
      (ref : AggregateRef) (actual : ℕ) (source : Source) (i : ℕ) (ds : List EventDraft)
      (created : List Event)
      → actual + i + length ds < 2 ^ 64
      → materialize json_valid sha256 ref actual source i ds ≡ ok created
      → (length created ≡ length ds) × Follows ref (actual + i) created
  unfolding materialize
  materialize-Follows ref actual source i [] created r h =
      let e : [] ≡ created = cc h in
      (ap (λ x. length x) (sym e), subst (λ x. Follows ref (actual + i) x) e tt)
  materialize-Follows ref actual source i (d ∷ ds) created r h =
      let (e, he, h1) =
        >>=-eq-ok
          (prefix_error "materialize draft" (
            new_event json_valid sha256 ref ((actual + i + 1) % 2 ^ 64) d (source i).0
              (source i).1))
          _ h in
      let (rest, hr, h2) =
        >>=-eq-ok (materialize json_valid sha256 ref actual source (i + 1) ds) _ h1 in
      let (seq, agg) = new_event-makes ref _ d _ _ e (prefix_error-ok _ _ he) in
      let (len, follows) =
        materialize-Follows ref actual source (i + 1) ds rest (omega (arith, r)) hr in
      let all_made : e ∷ rest ≡ created = cc h2 in
      subst (λ x. (length x ≡ suc (length ds)) × Follows ref (actual + i) x) all_made
        (
          ap suc len,
          (omega (arith, seq, r), agg, subst (λ m. Follows ref m rest) (omega arith) follows),
        )
