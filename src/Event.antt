-- ===== src/Event.antt =====
-- event.go: aggregate references, event drafts and events. `json.Valid` and crypto/sha256 are
-- arguments, as are the identifier that NewID returns and the clock.
use fabricrunner.Prelude.{
  ℕ, String, ◌≡◌, refl, subst, Bool, not, ◌||◌, List, [], ◌∷◌, eqb, if◌then◌else◌, is_empty, ◌!=◌,
  Text, text_beq, Text-discrete, text_eq, message, Result, ok, Check, ◌>>=◌, ◌>>◌, fail_if,
  prefix_error, >>-eq-ok, all_checks, all_checks-pass, prefix_error-pass, same, fail_if-pass,
}
use fabricrunner.Id.{FabricId, validate_id, is_zero_id, hex_encode}
use fabricrunner.Domain.{Time, is_zero_time}

pub record AggregateRef : Type 0 where
  pub kind : Text
  pub id : FabricId

unfoldable pub AggregateRef-discrete : Discrete AggregateRef
AggregateRef-discrete = hlevel Text-discrete

unfoldable pub validate_ref : AggregateRef → Check
unfolding validate_id
validate_ref r = all_checks (
    fail_if (is_empty r.kind) (message "aggregate type is required")
    ∷ prefix_error "aggregate ID" (validate_id r.id)
    ∷ [])

-- A `json.RawMessage` is its bytes.
pub record EventDraft : Type 0 where
  pub kind : Text
  pub schema_version : ℕ
  pub causation_id : FabricId
  pub correlation_id : FabricId
  pub attempt_id : FabricId
  pub payload : Text

-- `if !id.IsZero() { id.Validate() }`. The code ranges over a map of the three: their order is not
-- fixed, and decides only which error is returned.
unfoldable pub validate_optional_id : String → FabricId → Check
unfolding is_zero_id validate_id
validate_optional_id name id = if is_zero_id id then ok tt else prefix_error name (validate_id id)

pub record Event : Type 0 where
  pub id : FabricId
  pub aggregate : AggregateRef
  pub sequence : ℕ
  pub kind : Text
  pub schema_version : ℕ
  pub causation_id : FabricId
  pub correlation_id : FabricId
  pub attempt_id : FabricId
  pub occurred_at : Time
  pub payload : Text
  pub payload_sha256 : Text

abbrev pub draft_of : Event → EventDraft
draft_of e = record {
  kind = e.kind;
  schema_version = e.schema_version;
  causation_id = e.causation_id;
  correlation_id = e.correlation_id;
  attempt_id = e.attempt_id;
  payload = e.payload;
}

module _ (json_valid : Text → Bool) where
  unfoldable pub validate_draft : EventDraft → Check
  unfolding validate_optional_id
  validate_draft d = all_checks (
      fail_if (is_empty d.kind) (message "event type is required")
      ∷ fail_if (eqb d.schema_version 0) (message "event schema version must be positive")
      ∷ fail_if (is_empty d.payload || not (json_valid d.payload))
          (message "event payload must be valid JSON")
      ∷ validate_optional_id "causation ID" d.causation_id
      ∷ validate_optional_id "correlation ID" d.correlation_id
      ∷ validate_optional_id "attempt ID" d.attempt_id
      ∷ [])

  module _ (sha256 : List ℕ → List ℕ) where
    unfoldable pub make_event : AggregateRef → ℕ → EventDraft → Time → FabricId → Event
    unfolding hex_encode
    make_event ref sequence d at id = record {
      id = id;
      aggregate = ref;
      sequence = sequence;
      kind = d.kind;
      schema_version = d.schema_version;
      causation_id = d.causation_id;
      correlation_id = d.correlation_id;
      attempt_id = d.attempt_id;
      occurred_at = at;
      payload = d.payload;
      payload_sha256 = hex_encode (sha256 d.payload);
    }

    -- `NewEvent`; `made` is what `NewID` returns.
    unfoldable pub new_event : AggregateRef → ℕ → EventDraft → Time → Result FabricId → Result Event
    unfolding validate_ref validate_draft make_event
    new_event ref sequence d at made = do
      validate_ref ref
      fail_if (eqb sequence 0) (message "event sequence must be positive")
      validate_draft d
      fail_if (is_zero_time at) (message "event occurrence time is required")
      id ← made
      ok (make_event ref sequence d at id)

    unfoldable pub validate_event : Event → Check
    unfolding validate_id validate_ref validate_draft hex_encode text_beq
    validate_event e = all_checks (
        prefix_error "event ID" (validate_id e.id)
        ∷ validate_ref e.aggregate
        ∷ fail_if (eqb e.sequence 0) (message "event sequence must be positive")
        ∷ validate_draft (draft_of e)
        ∷ fail_if (is_zero_time e.occurred_at) (message "event occurrence time is required")
        ∷ fail_if (e.payload_sha256 != hex_encode (sha256 e.payload))
            (message "event payload hash mismatch")
        ∷ [])

    -- If `NewEvent` returns an event and `NewID` returned a valid identifier, then the event passes
    -- `Event.Validate`, and it carries the draft, the aggregate, the sequence and the time.
    pub new_event-validates :
        (ref : AggregateRef) (n : ℕ) (d : EventDraft) (at : Time) (id : FabricId) (e : Event)
        → validate_id id ≡ ok tt
        → new_event ref n d at (ok id) ≡ ok e
        → (validate_event e ≡ ok tt)
          × (draft_of e ≡ d)
          × (e.aggregate ≡ ref)
          × (e.sequence ≡ n)
          × (e.occurred_at ≡ at)
    unfolding new_event validate_event
    new_event-validates ref n d at id e v h =
        let (ref_ok, h1) = >>-eq-ok (validate_ref ref) _ h in
        let (seq_ok, h2) = >>-eq-ok (fail_if (eqb n 0) _) _ h1 in
        let (draft_ok, h3) = >>-eq-ok (validate_draft d) _ h2 in
        let (time_ok, h4) = >>-eq-ok (fail_if (is_zero_time at) _) _ h3 in
        let made : make_event ref n d at id ≡ e = cc h4 in
        subst
          (λ x.
            (validate_event x ≡ ok tt)
            × (draft_of x ≡ d)
            × (x.aggregate ≡ ref)
            × (x.sequence ≡ n)
            × (x.occurred_at ≡ at))
          made
          (
            all_checks-pass _ (
              prefix_error-pass _ _ v,
              (
                ref_ok,
                (
                  seq_ok,
                  (
                    draft_ok,
                    (time_ok, (fail_if-pass _ _ (same (hex_encode (sha256 d.payload))), tt)),
                  ),
                ),
              ),
            ),
            refl,
            refl,
            refl,
            refl,
          )
