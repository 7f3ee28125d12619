-- ===== src/Store.antt =====
-- store.go and store/memory/store.go: the in-memory event store. Each operation holds the lock of
-- the store while it reads or writes, so it is one step on the streams. `json_valid` and `sha256`
-- are the library's functions, and `source` gives, for each draft of a call, what the clock and
-- NewID returned.
pub mod Streams
pub mod Append
pub mod Versions
mod Examples
use fabricrunner.Prelude.{
  ℕ, zero, suc, ◌+◌, ◌-◌, ◌*◌, ◌/◌, ◌%◌, ◌^◌, ◌≤◌, ◌<◌, String, ◌≡◌, refl, sym, ap, ◌∙◌, subst, ◌≢◌,
  ◌↔◌, ◌⊎◌, inl, inr, Bool, true, false, not, ◌&&◌, ◌||◌, Option, none, some, List, [], ◌∷◌, ◌++◌,
  map, arith, ltb, leb, eqb, if◌then◌else◌, ltb→lt, lt→ltb, eqb_iff, eqb_refl, Bool-cases,
  Option-cases, &&-eq-true, ||-eq-false, is_some, length, is_empty, get_elem?, get_or, take, drop,
  length-append, drop-length_append, All, All-append, length-map, Eq, ◌==◌, ◌!=◌, holds, holds_iff,
  eq_of_discrete, Text, text, text_beq, text_beq_iff, Text-discrete, text_eq, text_ltb, Sentinel,
  Error, sentinel, message, prefixed, wrap, errors_is, Result, ok, err, Check, ◌>>=◌, ◌>>◌, fail_if,
  prefix_error, wrap_error, fail_if-ok, prefix_error-ok, >>=-eq-ok, >>-eq-ok, all_checks, passed,
  all_checks-pass, prefix_error-pass, equal_of_same, same, holds_of_not, holds_refl,
  Sentinel-discrete, fail_if-pass, ℤ, pos, negsuc, ℤ-discrete, pos_part, neg_part, ◌+ℤ◌, ◌-ℤ◌, ◌*ℤ◌,
  ◌≤ℤ◌, ◌<ℤ◌, ltb_ℤ, is_neg, +ℤ_parts, -ℤ_parts, eq_of_parts, int_laws, eq-pos_of_not-neg,
  to_uint64, of_uint64, add64, sub64, mul64, add64_exact, add64_overflow,
}
use fabricrunner.Id.{FabricId}
use fabricrunner.Domain.{Time}
use fabricrunner.Event.{AggregateRef, EventDraft, Event, validate_ref, validate_draft, new_event}

-- `map[string][]Event`: the first pair with the key holds its stream.
abbrev pub Streams : Type 0
Streams = List (Text × List Event)

unfoldable pub stream_key : AggregateRef → Text
stream_key ref = ref.kind ++ 0 ∷ ref.id

-- `s.streams[key]`, nil where the key is missing.
unfoldable pub stream : Text → Streams → List Event
unfolding text_beq
stream key [] = []
stream key ((k, events) ∷ rest) = if k == key then events else stream key rest

-- `s.streams[key] = events`
unfoldable pub put : Text → List Event → Streams → Streams
unfolding text_beq
put key events [] = (key, events) ∷ []
put key events ((k, old) ∷ rest) =
    let after = put key events rest in if k == key then (k, events) ∷ rest else (k, old) ∷ after

abbrev pub conflict : Error
conflict = sentinel Sentinel.version_conflict

-- What the clock and NewID return for the i-th draft.
abbrev pub Source : Type 0
Source = ℕ → Time × Result FabricId

module _ (json_valid : Text → Bool) where
  unfoldable pub validate_drafts : List EventDraft → Check
  unfolding validate_draft
  validate_drafts [] = ok tt
  validate_drafts (d ∷ ds) = do
    prefix_error "draft" (validate_draft json_valid d)
    validate_drafts ds

  -- The tests before the lock is taken; `cancelled` is what `ctx.Err()` returned.
  unfoldable pub admit : Option Error → AggregateRef → List EventDraft → Check
  unfolding validate_ref validate_drafts
  admit (some e) ref drafts = err e
  admit none ref drafts = do validate_ref ref; validate_drafts drafts

  module _ (sha256 : List ℕ → List ℕ) where
    -- The loop over the drafts from the i-th, with the wrap-around of `uint64`.
    unfoldable pub materialize :
        AggregateRef → ℕ → Source → ℕ → List EventDraft → Result (List Event)
    unfolding new_event
    materialize ref actual source i [] = ok []
    materialize ref actual source i (d ∷ ds) = do
      e ←
          prefix_error "materialize draft" (
            new_event json_valid sha256 ref ((actual + i + 1) % 2 ^ 64) d (source i).0 (source i).1)
      rest ← materialize ref actual source (i + 1) ds
      ok (e ∷ rest)

    -- The part of `Append` under the lock.
    unfoldable pub append_locked :
        AggregateRef → ℕ → Source → List EventDraft → Streams → Streams × Result (List Event)
    unfolding materialize stream put stream_key
    append_locked ref expected source drafts s =
        let old = stream (stream_key ref) s in
        if not (eqb (length old) expected)
        then (s, err conflict)
        else elim (materialize ref (length old) source 0 drafts) [
          | err e ↦ (s, err e)
          | ok created ↦ (put (stream_key ref) (old ++ created) s, ok created)
        ]

    -- `Append`
    unfoldable pub append :
        Option Error
        → AggregateRef
        → ℕ
        → Source
        → List EventDraft
        → Streams
        → Streams × Result (List Event)
    unfolding admit append_locked
    append cancelled ref expected source drafts s = elim (admit cancelled ref drafts) [
      | err e ↦ (s, err e)
      | ok _ ↦ if is_empty drafts then (s, ok []) else append_locked ref expected source drafts s
    ]

-- `Load`
unfoldable pub load : Option Error → AggregateRef → ℕ → Streams → Result (List Event)
unfolding validate_ref stream stream_key
load (some e) ref after s = err e
load none ref after s = do
  validate_ref ref
  (let events = stream (stream_key ref) s in
      if leb (length events) after then ok [] else ok (drop after events))
