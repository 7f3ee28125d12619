-- ===== src/Store/Versions.antt =====
-- store/memory/store.go: versions. Numbering is kept, an append can be read back, and of two writers
-- with one expected version the second fails.
use fabricrunner.Prelude.{
  ℕ, ◌+◌, ◌^◌, ◌<◌, ◌≡◌, refl, sym, ap, subst, inl, inr, Bool, true, false, Option, none, some,
  List, [], ◌∷◌, ◌++◌, arith, leb, eqb, if◌then◌else◌, Bool-cases, length, drop, length-append,
  drop-length_append, ◌==◌, Text, text_beq_iff, text_eq, Error, Result, ok, err, >>-eq-ok,
}
use fabricrunner.Event.{AggregateRef, EventDraft, Event, validate_ref}
use fabricrunner.Store.{
  Streams, stream, stream_key, Source, conflict, admit, append_locked, append, load,
}
use fabricrunner.Store.Append.{
  Admitted-cases, Numbered, IsNumbered, Appended, Outcome, append-Outcome, Numbered-append,
  Follows-Numbered,
}

Appended-Numbered :
    (ref : AggregateRef) (expected : ℕ) (drafts : List EventDraft) (s s' : Streams)
    (created : List Event)
    → IsNumbered s
    → Appended ref expected drafts s s' created
    → IsNumbered s'
Appended-Numbered ref expected drafts s s' created n a key =
    elim (Bool-cases (stream_key ref == key)) [
      | inr e ↦
          subst (λ es. Numbered 0 es)
            (sym (a.others key (λ p. cc ((text_beq_iff (stream_key ref) key).1 p, e)))) (n key)
      | inl e ↦
          subst (λ k. Numbered 0 (stream k s')) ((text_beq_iff (stream_key ref) key).0 e)
            (subst (λ es. Numbered 0 es) (sym a.kept)
              (Numbered-append 0 (stream (stream_key ref) s) created (n (stream_key ref)) (
                subst (λ m. Numbered m created) (omega (arith, a.version))
                  (Follows-Numbered ref expected created a.numbered))))
    ]

-- What `Load` does with a stream that ends in new events.
read_back :
    (old new : List Event) (n : ℕ)
    → length old ≡ n
    → (if leb (length (old ++ new)) n then ok [] else ok (drop n (old ++ new))) ≡ ok new
read_back old [] n h = rw (all_read old n h) refl
  where
    all_read : (old : List Event) (n : ℕ) → length old ≡ n → leb (length (old ++ [])) n ≡ true
    all_read old n h = ground (arith, length-append old [], h)
read_back old (e ∷ es) n h =
    subst
      (λ m.
        (if leb (length (old ++ e ∷ es)) m then ok [] else ok (drop m (old ++ e ∷ es)))
        ≡ ok (e ∷ es))
      h (rw (some_left old e es) (ap ok (drop-length_append old (e ∷ es))))
  where
    some_left :
        (old : List Event) (e : Event) (es : List Event)
        → leb (length (old ++ e ∷ es)) (length old) ≡ false
    some_left old e es = ground (arith, length-append old (e ∷ es))

Appended-load :
    (ref : AggregateRef) (expected : ℕ) (drafts : List EventDraft) (s s' : Streams)
    (created : List Event)
    → validate_ref ref ≡ ok tt
    → Appended ref expected drafts s s' created
    → load none ref expected s' ≡ ok created
unfolding load
Appended-load ref expected drafts s s' created v a =
    rw (v, load, a.kept) (read_back (stream (stream_key ref) s) created expected a.version)

module _ (json_valid : Text → Bool) (sha256 : List ℕ → List ℕ) where
  Outcome-IsNumbered :
      (ref : AggregateRef) (expected : ℕ) (drafts : List EventDraft) (s s' : Streams)
      (result : Result (List Event))
      → IsNumbered s
      → Outcome json_valid sha256 ref expected drafts s s' result
      → IsNumbered s'
  Outcome-IsNumbered ref expected drafts s s' (err x) n o = subst IsNumbered (sym o) n
  Outcome-IsNumbered ref expected [] s s' (ok created) n o = subst IsNumbered (sym o.1) n
  Outcome-IsNumbered ref expected (d ∷ ds) s s' (ok created) n o =
      Appended-Numbered ref expected (d ∷ ds) s s' created n o

  -- While the numbers stay within uint64, `Append` keeps every stream numbered from 1 without a gap.
  pub append-IsNumbered :
      (cancelled : Option Error) (ref : AggregateRef) (expected : ℕ) (source : Source)
      (drafts : List EventDraft) (s s' : Streams) (result : Result (List Event))
      → IsNumbered s
      → expected + length drafts < 2 ^ 64
      → append json_valid sha256 cancelled ref expected source drafts s ≡ (s', result)
      → IsNumbered s'
  append-IsNumbered cancelled ref expected source drafts s s' result n r h =
      Outcome-IsNumbered ref expected drafts s s' result n
        (append-Outcome json_valid sha256 cancelled ref expected source drafts s s' result r h)

  -- What a successful append was admitted on.
  was_admitted :
      (cancelled : Option Error) (ref : AggregateRef) (expected : ℕ) (source : Source)
      (drafts : List EventDraft) (s s' : Streams) (created : List Event)
      → append json_valid sha256 cancelled ref expected source drafts s ≡ (s', ok created)
      → admit json_valid cancelled ref drafts ≡ ok tt
  unfolding append
  was_admitted cancelled ref expected source drafts s s' created h =
      elim (Admitted-cases (admit json_valid cancelled ref drafts)) [
        | inl good ↦ good
        | inr (x, bad) ↦ absurd (cc (ap (λ p. p.1) (rw (bad, append) at h)))
      ]

  admitted_ref :
      (cancelled : Option Error) (ref : AggregateRef) (drafts : List EventDraft)
      → admit json_valid cancelled ref drafts ≡ ok tt
      → validate_ref ref ≡ ok tt
  unfolding admit
  admitted_ref (some x) ref drafts h = cc
  admitted_ref none ref drafts h = (>>-eq-ok (validate_ref ref) _ h).0

  -- If `Append` creates events from a list of drafts that is not empty, then `Load` after the expected
  -- version returns just these events.
  pub load-append :
      (cancelled : Option Error) (ref : AggregateRef) (expected : ℕ) (source : Source)
      (d : EventDraft) (ds : List EventDraft) (s s' : Streams) (created : List Event)
      → expected + length (d ∷ ds) < 2 ^ 64
      → append json_valid sha256 cancelled ref expected source (d ∷ ds) s ≡ (s', ok created)
      → load none ref expected s' ≡ ok created
  load-append cancelled ref expected source d ds s s' created r h =
      Appended-load ref expected (d ∷ ds) s s' created
        (admitted_ref cancelled ref (d ∷ ds)
          (was_admitted cancelled ref expected source (d ∷ ds) s s' created h))
        (append-Outcome json_valid sha256 cancelled ref expected source (d ∷ ds) s s' (ok created) r
          h)

  stale :
      (ref : AggregateRef) (expected : ℕ) (d : EventDraft) (ds : List EventDraft) (s s' : Streams)
      (created : List Event)
      → Appended ref expected (d ∷ ds) s s' created
      → eqb (length (stream (stream_key ref) s')) expected ≡ false
  stale ref expected d ds s s' created a =
      rw a.kept
        (longer (stream (stream_key ref) s) created expected a.version (omega (arith, a.count)))
    where
      longer :
          (old new : List Event) (n : ℕ)
          → length old ≡ n
          → 0 < length new
          → eqb (length (old ++ new)) n ≡ false
      longer old new n h k = ground (arith, length-append old new, h, k)

  -- Of two writers with the same expected version, drafts that pass and a first that succeeds, the
  -- second gets the version conflict and leaves the store alone.
  pub second-conflict :
      (cancelled : Option Error) (ref : AggregateRef) (expected : ℕ) (source source' : Source)
      (d d' : EventDraft) (ds ds' : List EventDraft) (s s' : Streams) (created : List Event)
      → expected + length (d ∷ ds) < 2 ^ 64
      → append json_valid sha256 cancelled ref expected source (d ∷ ds) s ≡ (s', ok created)
      → admit json_valid none ref (d' ∷ ds') ≡ ok tt
      → append json_valid sha256 none ref expected source' (d' ∷ ds') s' ≡ (s', err conflict)
  unfolding append append_locked
  second-conflict cancelled ref expected source source' d d' ds ds' s s' created r h admitted =
      let a =
        append-Outcome json_valid sha256 cancelled ref expected source (d ∷ ds) s s' (ok created) r
          h in
      rw (admitted, append, append_locked, stale ref expected d ds s s' created a) refl
