-- ===== src/Store/Append.antt =====
-- store/memory/store.go: what `Append` does to the streams, and what `Load` reads back.
use fabricrunner.Prelude.{
  ℕ, ◌+◌, ◌^◌, ◌<◌, ◌≡◌, refl, sym, ap, subst, ◌≢◌, ◌⊎◌, inl, inr, Bool, Option, List, [], ◌∷◌,
  ◌++◌, arith, eqb, if◌then◌else◌, eqb_iff, Bool-cases, length, is_empty, Text, text_eq, Error,
  Result, ok, err, Check,
}
use fabricrunner.Event.{AggregateRef, EventDraft, Event}
use fabricrunner.Store.{
  Streams, stream, put, stream_key, Source, admit, materialize, append_locked, append,
}
use fabricrunner.Store.Streams.{stream-put, stream-put_other, Follows, materialize-Follows}

-- The sequence numbers follow `n` without a gap.
abbrev pub Numbered : ℕ → List Event → Type 0
Numbered n [] = Unit
Numbered n (e ∷ es) = (e.sequence ≡ n + 1) × Numbered (n + 1) es

-- Every stream is numbered from 1.
abbrev pub IsNumbered : Streams → Type 0
IsNumbered s = (key : Text) → Numbered 0 (stream key s)

pub Follows-Numbered :
    (ref : AggregateRef) (n : ℕ) (es : List Event) → Follows ref n es → Numbered n es
Follows-Numbered ref n [] h = tt
Follows-Numbered ref n (e ∷ es) h = (h.0, Follows-Numbered ref (n + 1) es h.2)

pub Numbered-append :
    (n : ℕ) (xs ys : List Event)
    → Numbered n xs
    → Numbered (n + length xs) ys
    → Numbered n (xs ++ ys)
Numbered-append n [] ys h k = subst (λ m. Numbered m ys) (omega arith) k
Numbered-append n (x ∷ xs) ys h k =
    (h.0, Numbered-append (n + 1) xs ys h.1 (subst (λ m. Numbered m ys) (omega arith) k))

Made-cases :
    (r : Result (List Event)) → ((es : List Event) × (r ≡ ok es)) ⊎ ((e : Error) × (r ≡ err e))
Made-cases (ok es) = inl (es, refl)
Made-cases (err e) = inr (e, refl)

pub Admitted-cases : (c : Check) → (c ≡ ok tt) ⊎ ((x : Error) × (c ≡ err x))
Admitted-cases (ok _) = inl refl
Admitted-cases (err x) = inr (x, refl)

-- What an append that created events did.
pub record Appended (ref : AggregateRef) (expected : ℕ) (drafts : List EventDraft) (s s' : Streams)
    (created : List Event) : Type 0 where
  pub version : length (stream (stream_key ref) s) ≡ expected
  pub kept : stream (stream_key ref) s' ≡ stream (stream_key ref) s ++ created
  pub count : length created ≡ length drafts
  pub numbered : Follows ref expected created
  pub others : (other : Text) → stream_key ref ≢ other → stream other s' ≡ stream other s

module _ (json_valid : Text → Bool) (sha256 : List ℕ → List ℕ) where
  append_locked-Appended :
      (ref : AggregateRef) (expected : ℕ) (source : Source) (drafts : List EventDraft)
      (s s' : Streams) (created : List Event)
      → expected + length drafts < 2 ^ 64
      → append_locked json_valid sha256 ref expected source drafts s ≡ (s', ok created)
      → Appended ref expected drafts s s' created
  unfolding append_locked
  append_locked-Appended ref expected source drafts s s' created r h =
      let old = stream (stream_key ref) s in
      elim (Bool-cases (eqb (length old) expected)) [
        | inr e ↦ absurd (cc (ap (λ x. x.1) (rw e at h)))
        | inl e ↦
            elim (Made-cases (materialize json_valid sha256 ref (length old) source 0 drafts)) [
              | inr (x, m) ↦ absurd (cc (ap (λ x. x.1) (rw (e, m) at h)))
              | inl (es, m) ↦
                  let version = (eqb_iff (length old) expected).0 e in
                  let done : ◌≡◌ {A = Streams × Result (List Event)}
                      (put (stream_key ref) (old ++ es) s, ok es) (s', ok created) =
                    rw (e, m) at h in
                  let es_created : es ≡ created = cc (ap (λ x. x.1) done) in
                  let s_made = ap (λ x. x.0) done in
                  let (len, follows) =
                    materialize-Follows json_valid sha256 ref (length old) source 0 drafts es
                      (omega (arith, version, r)) m in
                  record {
                    version = version;
                    kept =
                        subst (λ t. stream (stream_key ref) t ≡ old ++ created) s_made
                          (subst
                            (λ c.
                              stream (stream_key ref) (put (stream_key ref) (old ++ es) s)
                              ≡ old ++ c)
                            es_created (stream-put (stream_key ref) (old ++ es) s));
                    count = subst (λ c. length c ≡ length drafts) es_created len;
                    numbered =
                        subst (λ c. Follows ref expected c) es_created
                          (subst (λ n. Follows ref n es) (omega (arith, version)) follows);
                    others = λ other d.
                        subst (λ t. stream other t ≡ stream other s) s_made
                          (stream-put_other (stream_key ref) other (old ++ es) s d);
                  }
            ]
      ]

  -- What a call of `Append` did: nothing, with an error; nothing, on an empty list of drafts; or it
  -- appended to the stream of the aggregate at the expected version one event for each draft, numbered
  -- on from there, and left the other streams alone.
  abbrev pub Outcome :
      AggregateRef → ℕ → List EventDraft → Streams → Streams → Result (List Event) → Type 0
  Outcome ref expected drafts s s' (err e) = s' ≡ s
  Outcome ref expected [] s s' (ok created) = (created ≡ []) × (s' ≡ s)
  Outcome ref expected (d ∷ ds) s s' (ok created) = Appended ref expected (d ∷ ds) s s' created

  locked-Outcome :
      (ref : AggregateRef) (expected : ℕ) (source : Source) (d : EventDraft) (ds : List EventDraft)
      (s s' : Streams) (result : Result (List Event))
      → expected + length (d ∷ ds) < 2 ^ 64
      → append_locked json_valid sha256 ref expected source (d ∷ ds) s ≡ (s', result)
      → Outcome ref expected (d ∷ ds) s s' result
  unfolding append_locked
  locked-Outcome ref expected source d ds s s' (ok created) r h =
      append_locked-Appended ref expected source (d ∷ ds) s s' created r h
  locked-Outcome ref expected source d ds s s' (err x) r h =
      let old = stream (stream_key ref) s in
      elim (Bool-cases (eqb (length old) expected)) [
        | inr e ↦ sym (ap (λ p. p.0) (the_pair (rw e at h)))
        | inl e ↦
            elim (Made-cases (materialize json_valid sha256 ref (length old) source 0 (d ∷ ds))) [
              | inr (y, m) ↦ sym (ap (λ p. p.0) (the_pair (rw (e, m) at h)))
              | inl (es, m) ↦ absurd (cc (ap (λ p. p.1) (the_pair (rw (e, m) at h))))
            ]
      ]
    where
      the_pair : {a b : Streams × Result (List Event)} → a ≡ b → a ≡ b
      the_pair h = h

  error-Outcome :
      (ref : AggregateRef) (expected : ℕ) (drafts : List EventDraft) (s s' : Streams) (x : Error)
      (result : Result (List Event))
      → ◌≡◌ {A = Streams × Result (List Event)} (s, err x) (s', result)
      → Outcome ref expected drafts s s' result
  error-Outcome ref expected drafts s s' x (err y) h = sym (ap (λ p. p.0) h)
  error-Outcome ref expected drafts s s' x (ok es) h = absurd (cc (ap (λ p. p.1) h))

  empty-Outcome :
      (ref : AggregateRef) (expected : ℕ) (s s' : Streams) (result : Result (List Event))
      → ◌≡◌ {A = Streams × Result (List Event)} (s, ok []) (s', result)
      → Outcome ref expected [] s s' result
  empty-Outcome ref expected s s' (err y) h = absurd (cc (ap (λ p. p.1) h))
  empty-Outcome ref expected s s' (ok es) h = (cc (ap (λ p. p.1) h), sym (ap (λ p. p.0) h))

  admitted-Outcome :
      (ref : AggregateRef) (expected : ℕ) (source : Source) (drafts : List EventDraft)
      (s s' : Streams) (result : Result (List Event))
      → expected + length drafts < 2 ^ 64
      → (if is_empty drafts
          then (s, ok [])
          else append_locked json_valid sha256 ref expected source drafts s)
        ≡ (s', result)
      → Outcome ref expected drafts s s' result
  admitted-Outcome ref expected source [] s s' result r h = empty-Outcome ref expected s s' result h
  admitted-Outcome ref expected source (d ∷ ds) s s' result r h =
      locked-Outcome ref expected source d ds s s' result r h

  -- While the numbers stay within uint64, a call of `Append` either returns an error and leaves the
  -- store alone; or was given no drafts, creates nothing and leaves the store alone; or found the
  -- stream at the expected version, appended to it one event for each draft, numbered on from there,
  -- and left the other streams alone.
  pub append-Outcome :
      (cancelled : Option Error) (ref : AggregateRef) (expected : ℕ) (source : Source)
      (drafts : List EventDraft) (s s' : Streams) (result : Result (List Event))
      → expected + length drafts < 2 ^ 64
      → append json_valid sha256 cancelled ref expected source drafts s ≡ (s', result)
      → Outcome ref expected drafts s s' result
  unfolding append
  append-Outcome cancelled ref expected source drafts s s' result r h =
      elim (Admitted-cases (admit json_valid cancelled ref drafts)) [
        | inr (x, bad) ↦ error-Outcome ref expected drafts s s' x result (rw (bad, append) at h)
        | inl good ↦
            admitted-Outcome ref expected source drafts s s' result r (rw (good, append) at h)
      ]
