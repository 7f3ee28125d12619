-- ===== src/Projection/Incremental.antt =====
-- projection.go, store.go and store/memory/store.go together: a projection is brought up to date by
-- the events that were appended.
use fabricrunner.Prelude.{
  ℕ, ◌+◌, ◌^◌, ◌<◌, ◌≡◌, refl, ap, ◌∙◌, subst, Bool, false, Option, none, List, [], ◌∷◌, ◌++◌,
  arith, leb, eqb, if◌then◌else◌, length, drop, Text, text_eq, Sentinel, Error, sentinel, Result,
  ok, err, ◌>>=◌, ◌>>◌, fail_if, prefix_error, fail_if-ok, ok_injective, >>=-eq-ok, >>-eq-ok,
}
use fabricrunner.Event.{AggregateRef, EventDraft, Event, validate_ref}
use fabricrunner.Store.{Streams, stream, stream_key, load, Source, append}
use fabricrunner.Store.Append.{Appended, append-Outcome}
use fabricrunner.Projection.{Decoders, WorkloadProjection, new_projection}
use fabricrunner.Projection.Apply.{apply, apply_all, load_projection}
use fabricrunner.Projection.Replayed.{
  IsReplayed, load-stream, apply_all-next, apply_all-IsReplayed, load_projection-IsReplayed,
}

-- A context that is never cancelled.
abbrev pub go_on : ℕ → Option Error
go_on i = none

load_all :
    (ref : AggregateRef) (s : Streams)
    → validate_ref ref ≡ ok tt
    → load none ref 0 s ≡ ok (stream (stream_key ref) s)
unfolding load
load_all ref s v = rw (v, load) (all_of (stream (stream_key ref) s))
  where
    all_of : (old : List Event) → (if leb (length old) 0 then ok [] else ok (drop 0 old)) ≡ ok old
    all_of [] = refl
    all_of (e ∷ es) = let more : leb (length (e ∷ es)) 0 ≡ false = ground arith in rw more refl

module _ (decoders : Decoders) (json_valid : Text → Bool) (sha256 : List ℕ → List ℕ) where
  under :
      (r : Result WorkloadProjection) (f g : WorkloadProjection → Result WorkloadProjection)
      → ((q : WorkloadProjection) → f q ≡ g q)
      → (r >>= f) ≡ (r >>= g)
  under (ok q) f g h = h q
  under (err x) f g h = refl

  apply_all-index :
      (i j : ℕ) (es : List Event) (p : WorkloadProjection)
      → apply_all decoders json_valid sha256 go_on i es p
        ≡ apply_all decoders json_valid sha256 go_on j es p
  unfolding apply_all
  apply_all-index i j [] p = refl
  apply_all-index i j (e ∷ es) p =
      under (prefix_error "apply event" (apply decoders json_valid sha256 p e)) _ _
        (λ q. apply_all-index (i + 1) (j + 1) es q)

  apply_all-append :
      (i j : ℕ) (xs ys : List Event) (p q : WorkloadProjection)
      → apply_all decoders json_valid sha256 go_on i xs p ≡ ok q
      → apply_all decoders json_valid sha256 go_on i (xs ++ ys) p
        ≡ apply_all decoders json_valid sha256 go_on j ys q
  unfolding apply_all
  apply_all-append i j [] ys p q h =
      apply_all-index i j ys p
      ∙ ap (λ x. apply_all decoders json_valid sha256 go_on j ys x) (ok_injective h)
  apply_all-append i j (x ∷ xs) ys p q h =
      let (next, applied, rest) = apply_all-next decoders json_valid sha256 go_on i x xs p q h in
      rw (applied, apply_all) (apply_all-append (i + 1) j xs ys next q rest)

  -- The last test of LoadWorkloadProjection passes where the version is not 0.
  found :
      (r : Result WorkloadProjection) (e : Error)
      → ((q : WorkloadProjection) → r ≡ ok q → eqb q.version 0 ≡ false)
      → (r >>= λ q. fail_if (eqb q.version 0) e >> ok q) ≡ r
  found (ok q) e h = rw (h q refl) refl
  found (err x) e h = refl

  counted :
      (ref : AggregateRef) (old created : List Event) (p : WorkloadProjection)
      → IsReplayed ref (length old) p
      → eqb p.version 0 ≡ false
      → (q : WorkloadProjection) → apply_all decoders json_valid sha256 go_on 0 created p ≡ ok q
      → eqb q.version 0 ≡ false
  counted ref old created p i n q h =
      let j =
        apply_all-IsReplayed decoders json_valid sha256 go_on 0 ref (length old) created p q i h in
      later q.version p.version (length old) (length created) i.version_is n j.version_is
    where
      later : (v w n m : ℕ) → w ≡ n → eqb w 0 ≡ false → v ≡ n + m → eqb v 0 ≡ false
      later v w n m a b c = ground arith

  -- If a projection was loaded and `Append` then creates events in its stream, then loading again gives
  -- what applying just the new events to the projection gives, be it a projection or an error.
  pub load_projection-append :
      (cancelled : Option Error) (ref : AggregateRef) (expected : ℕ) (source : Source)
      (d : EventDraft) (ds : List EventDraft) (s s' : Streams) (created : List Event)
      (p : WorkloadProjection)
      → expected + length (d ∷ ds) < 2 ^ 64
      → load_projection decoders json_valid sha256 none go_on ref s ≡ ok p
      → append json_valid sha256 cancelled ref expected source (d ∷ ds) s ≡ (s', ok created)
      → load_projection decoders json_valid sha256 none go_on ref s'
        ≡ apply_all decoders json_valid sha256 go_on 0 created p
  unfolding load_projection new_projection
  load_projection-append cancelled ref expected source d ds s s' created p b h a =
      let o : Appended ref expected (d ∷ ds) s s' created =
        append-Outcome json_valid sha256 cancelled ref expected source (d ∷ ds) s s' (ok created) b
          a in
      let (p₀, made, h1) = >>=-eq-ok (new_projection ref) _ h in
      let (events, loaded, h2) = >>=-eq-ok (load none ref 0 s) _ h1 in
      let (r, applied, h3) =
        >>=-eq-ok (apply_all decoders json_valid sha256 go_on 0 events p₀) _ h2 in
      let (nonzero, h4) = >>-eq-ok (fail_if (eqb r.version 0) _) _ h3 in
      let p_is : r ≡ p = ok_injective h4 in
      let old = stream (stream_key ref) s in
      let split = apply_all-append 0 0 old created p₀ p (
        subst (λ es. apply_all decoders json_valid sha256 go_on 0 es p₀ ≡ ok p)
          (load-stream none ref s events loaded) (applied ∙ ap ok p_is)) in
      let valid = (>>-eq-ok (validate_ref ref) _ made).0 in
      rw made (
        rw (load_all ref s' valid) (
          rw o.kept (
            ap
              (λ x. x >>= λ q.
                fail_if (eqb q.version 0) (sentinel Sentinel.aggregate_not_found) >> ok q)
              split
            ∙ found (apply_all decoders json_valid sha256 go_on 0 created p) _ (
                counted ref old created p
                  (load_projection-IsReplayed decoders json_valid sha256 none go_on ref s p h).2
                  (subst (λ x. eqb x.version 0 ≡ false) p_is (fail_if-ok _ _ nonzero))))))
