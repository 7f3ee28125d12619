-- ===== src/Execution/Stages.antt =====
-- execution_event.go: what each stage but the loop's asks of a record.
use fabricrunner.Prelude.{
  ℕ, Bool, false, not, ◌&&◌, ◌||◌, Option, none, some, List, [], ◌∷◌, ◌++◌, ltb, leb, is_empty,
  ◌==◌, ◌!=◌, holds, Text, text, text_beq, text_eq, message, Result, ok, err, Check, ◌>>=◌, ◌>>◌,
  fail_if, all_checks, ℤ, pos, ltb_ℤ, is_neg,
}
use fabricrunner.Id.{FabricId}
use fabricrunner.Domain.{Classification, secret, classification_eq, Classification-discrete}
use fabricrunner.Model.{validate_model_ref, validate_usage, contains}
use fabricrunner.Content.{
  ContentManifest, classification_rank, validate_manifest, manifest_class, manifest_digest,
}
use fabricrunner.Policy.Scope.{
  validate_scope, execution, ScopeKind-discrete, PolicyVerdict, validate_verdict,
}
use fabricrunner.Routing.Decision.{validate_decision}
use fabricrunner.Message.{Message, ContentPart, validate_message}
use fabricrunner.Loop.{LoopResult}
use fabricrunner.Lifecycle.{ApprovalRecord, BudgetRecord, CleanupRecord, validate_bound}
use fabricrunner.Execution.{SandboxEvent, CompactionRecord, RoutingRecord}

-- The class of no part is above that of the record.
unfoldable pub check_part_classes : Classification → List ContentPart → Check
unfolding classification_rank
check_part_classes class [] = ok tt
check_part_classes class (p ∷ ps) = do
  fail_if (ltb_ℤ (classification_rank class) (classification_rank p.classification))
      (message "compaction classification mismatch")
  check_part_classes class ps

-- `class, _ := manifest.EffectiveClassification()` and `class == ClassSecret`.
unfoldable pub is_secret : Result Classification → Bool
unfolding Classification-discrete
is_secret (ok class) = class == secret
is_secret (err e) = false

unfoldable pub check_approval : FabricId → FabricId → Option ApprovalRecord → Check
unfolding text_beq validate_scope validate_manifest manifest_class is_secret
check_approval workload step none = err (message "approval actor required")
check_approval workload step (some a) = all_checks (
    fail_if (is_empty a.decision.actor) (message "approval actor required")
    ∷ validate_scope a.request.scope
    ∷ fail_if (a.request.scope.workload_id != workload || a.request.scope.step_id != step)
        (message "approval scope mismatch")
    ∷ validate_manifest a.request.manifest
    ∷ fail_if (is_secret (manifest_class a.request.manifest)) (message "secret approval forbidden")
    ∷ [])

abbrev pub dimensions : List Text
dimensions =
    text ""
    ∷ text "input_tokens"
    ∷ text "output_tokens"
    ∷ text "cost"
    ∷ text "steps"
    ∷ text "model_calls"
    ∷ text "tool_calls"
    ∷ text "wall_time"
    ∷ []

unfoldable pub check_budget : Option BudgetRecord → Check
unfolding validate_bound contains text_beq
check_budget none = err (message "budget payload required")
check_budget (some b) = all_checks (
    validate_bound b.reserved
    ∷ fail_if (not (contains dimensions b.dimension)) (message "invalid budget dimension")
    ∷ [])

unfoldable pub check_cleanup : Option CleanupRecord → Check
check_cleanup none = err (message "cleanup resource required")
check_cleanup (some c) = fail_if (is_empty c.resource) (message "cleanup resource required")

abbrev pub sandbox_phases : List Text
sandbox_phases =
    text "established"
    ∷ text "denied"
    ∷ text "teardown"
    ∷ text "execution_completed"
    ∷ text "execution_failed"
    ∷ []

unfoldable pub check_sandbox : Option SandboxEvent → Check
unfolding contains text_beq
check_sandbox none = err (message "sandbox record requires backend")
check_sandbox (some s) = all_checks (
    fail_if (is_empty s.backend) (message "sandbox record requires backend")
    ∷ fail_if (not (contains sandbox_phases s.phase)) (message "invalid sandbox lifecycle phase")
    ∷ [])

unfoldable pub check_routing : FabricId → FabricId → FabricId → ℤ → Option RoutingRecord → Check
unfolding validate_decision text_beq
check_routing workload step attempt turn none =
    err (message "routing record requires a turn and decision")
check_routing workload step attempt turn (some r) = all_checks (
    fail_if (ltb_ℤ turn (pos 1)) (message "routing record requires a turn and decision")
    ∷ validate_decision r.request r.decision
    ∷ fail_if
        (r.request.workload_id != workload
          || (r.request.step_id != step || r.request.attempt_id != attempt))
        (message "routing identity mismatch")
    ∷ [])

unfoldable pub check_result : Option LoopResult → Check
unfolding validate_usage
check_result none = err (message "finished record requires result")
check_result (some r) = validate_usage r.usage

-- A verdict on its manifest; crypto/sha256 is the argument.
unfoldable pub check_policy :
    (List ℕ → List ℕ)
    → FabricId
    → FabricId
    → FabricId
    → Option ContentManifest
    → Option PolicyVerdict
    → Check
unfolding validate_verdict manifest_digest text_beq ScopeKind-discrete
check_policy sha256 workload step attempt (some m) (some v) = do
  validate_verdict v
  digest ← manifest_digest sha256 m
  all_checks (
      fail_if
        (digest != v.manifest_sha256
          || (v.scope.workload_id != workload || v.scope.step_id != step))
        (message "policy record scope or manifest mismatch")
      ∷ fail_if (holds (ScopeKind-discrete v.scope.kind execution) && v.scope.attempt_id != attempt)
          (message "policy attempt mismatch")
      ∷ [])
check_policy sha256 workload step attempt _ _ =
    err (message "policy record requires verdict and manifest")

module _ (json_valid : Text → Bool) where
  unfoldable pub check_compacted : Classification → List Message → Check
  unfolding validate_message check_part_classes
  check_compacted class [] = ok tt
  check_compacted class (m ∷ ms) = do
    validate_message json_valid m
    check_part_classes class m.content
    check_compacted class ms

  -- A compaction of the events before number `sequence`.
  unfoldable pub check_compaction : Classification → ℕ → Option CompactionRecord → Check
  unfolding validate_model_ref validate_usage validate_message check_compacted
  check_compaction class sequence none = err (message "invalid compaction range or counts")
  check_compaction class sequence (some c) = all_checks (
      fail_if
        (ltb c.first_event 1
          || (ltb c.last_event c.first_event
              || (leb sequence c.last_event
                  || (is_neg c.before_tokens || (is_neg c.after_tokens || is_empty c.inputs)))))
        (message "invalid compaction range or counts")
      ∷ validate_model_ref c.model
      ∷ validate_usage c.usage
      ∷ validate_message json_valid c.summary
      ∷ check_compacted class (c.inputs ++ c.summary ∷ [])
      ∷ [])
