-- ===== src/Stream/Shape.antt =====
-- provider.go: a whole stream described from its start and from its parts is the same.
use fabricrunner.Prelude.{
  ℕ, ◌+◌, ◌≡◌, refl, sym, ap, subst, ◌≢◌, inl, inr, Bool, true, List, [], ◌∷◌, ◌++◌, All, Text,
  text_eq,
}
use fabricrunner.Turn.{event_start, ModelEvent}
use fabricrunner.Stream.{is_terminal}
use fabricrunner.Stream.Protocol.{Numbered, IsOrdinary, IsValid, IsStream, Continues, Starts}

module _ (json_valid : Text → Bool) where
  Continues-parts :
      (n : ℕ) (es : List ModelEvent)
      → Continues json_valid n es
      → (middle : List ModelEvent) × (last : ModelEvent) × (es ≡ middle ++ last ∷ [])
        × All IsOrdinary middle
        × (last.kind ≢ event_start)
        × (is_terminal last.kind ≡ true)
        × All (IsValid json_valid) es
        × Numbered n es
  Continues-parts n [] c = absurd c
  Continues-parts n (e ∷ []) (valid, number, kind, inl (end, none_left)) =
      ([], e, refl, tt, kind, end, (valid, tt), (number, tt))
  Continues-parts n (e ∷ x ∷ es) (valid, number, kind, inl (end, none_left)) = cc none_left
  Continues-parts n (e ∷ es) (valid, number, kind, inr (on, more)) =
      let (middle, last, shape, ordinary, k, end, valids, numbers) =
        Continues-parts (n + 1) es more in
      (
        e ∷ middle,
        last,
        ap (λ l. e ∷ l) shape,
        ((kind, on), ordinary),
        k,
        end,
        (valid, valids),
        (number, numbers),
      )

  pub Starts-IsStream : (es : List ModelEvent) → Starts json_valid es → IsStream json_valid es
  Starts-IsStream [] s = absurd s
  Starts-IsStream (e ∷ es) (valid, number, kind, more) =
      let (middle, last, shape, ordinary, k, end, valids, numbers) = Continues-parts 1 es more in
      record {
        first = e;
        middle = middle;
        last = last;
        shape = ap (λ l. e ∷ l) shape;
        starts = kind;
        ordinary = ordinary;
        not_start = k;
        ends = end;
        valid = (valid, valids);
        numbered = (number, numbers);
      }

  parts-Continues :
      (n : ℕ) (middle : List ModelEvent) (last : ModelEvent)
      → All IsOrdinary middle
      → last.kind ≢ event_start
      → is_terminal last.kind ≡ true
      → All (IsValid json_valid) (middle ++ last ∷ [])
      → Numbered n (middle ++ last ∷ [])
      → Continues json_valid n (middle ++ last ∷ [])
  parts-Continues n [] last o k end v q = (v.0, q.0, k, inl (end, refl))
  parts-Continues n (e ∷ middle) last o k end v q =
      (v.0, q.0, o.0.0, inr (o.0.1, parts-Continues (n + 1) middle last o.1 k end v.1 q.1))

  pub IsStream-Starts : (es : List ModelEvent) → IsStream json_valid es → Starts json_valid es
  IsStream-Starts es s =
      let valid = subst (All (IsValid json_valid)) s.shape s.valid in
      let numbered = subst (Numbered 0) s.shape s.numbered in
      subst (Starts json_valid) (sym s.shape) (
        valid.0,
        numbered.0,
        s.starts,
        parts-Continues 1 s.middle s.last s.ordinary s.not_start s.ends valid.1 numbered.1,
      )
