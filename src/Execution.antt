-- ===== src/Execution.antt =====
-- execution_event.go: the execution records of a workload stream, with the records that sandbox.go
-- and context.go add to them.
pub mod Stages
pub mod LoopStage
pub mod Recorded
pub mod Payload
pub mod LoopEvents
pub mod History
mod Examples
use fabricrunner.Prelude.{
  ℕ, zero, suc, ◌+◌, ◌-◌, ◌*◌, ◌/◌, ◌%◌, ◌^◌, ◌≤◌, ◌<◌, String, ◌≡◌, refl, sym, ap, ◌∙◌, subst, ◌≢◌,
  ◌↔◌, ◌⊎◌, inl, inr, Bool, true, false, not, ◌&&◌, ◌||◌, Option, none, some, List, [], ◌∷◌, ◌++◌,
  map, arith, ltb, leb, eqb, if◌then◌else◌, ltb→lt, lt→ltb, eqb_iff, eqb_refl, Bool-cases,
  Option-cases, &&-eq-true, ||-eq-false, is_some, length, is_empty, get_elem?, get_or, take, drop,
  length-append, drop-length_append, append_one-append, All, All-append, length-map, Eq, ◌==◌, ◌!=◌,
  holds, holds_iff, eq_of_discrete, Text, text, text_beq, text_beq_iff, Text-discrete, text_eq,
  text_ltb, Sentinel, Error, sentinel, message, prefixed, wrap, errors_is, Result, ok, err, Check,
  ◌>>=◌, ◌>>◌, fail_if, prefix_error, wrap_error, fail_if-ok, prefix_error-ok, >>=-eq-ok, >>-eq-ok,
  all_checks, passed, all_checks-pass, prefix_error-pass, equal_of_same, same, holds_of_not,
  holds_refl, Sentinel-discrete, fail_if-pass, ℤ, pos, negsuc, ℤ-discrete, pos_part, neg_part, ◌+ℤ◌,
  ◌-ℤ◌, ◌*ℤ◌, ◌≤ℤ◌, ◌<ℤ◌, ltb_ℤ, is_neg, +ℤ_parts, -ℤ_parts, eq_of_parts, int_laws,
  eq-pos_of_not-neg, to_uint64, of_uint64, add64, sub64, mul64, add64_exact, add64_overflow,
}
use fabricrunner.Id.{FabricId}
use fabricrunner.Domain.{Classification}
use fabricrunner.Model.{ModelRef, Usage}
use fabricrunner.Content.{ContentManifest}
use fabricrunner.Policy.Scope.{PolicyVerdict}
use fabricrunner.Routing.Request.{RoutingRequest}
use fabricrunner.Routing.Decision.{RoutingDecision}
use fabricrunner.Message.{Message}
use fabricrunner.Loop.{LoopEvent, LoopResult}
use fabricrunner.Lifecycle.{ApprovalRecord, BudgetRecord, CleanupRecord}

pub data ExecutionStage : Type 0 where
  policy_evaluated routing_decided loop_event finished sandbox approval budget : ExecutionStage
  cleanup compaction request resumed : ExecutionStage
  other_stage : Text → ExecutionStage

unfoldable pub ExecutionStage-discrete : Discrete ExecutionStage
ExecutionStage-discrete = hlevel Text-discrete

instance abbrev pub execution_stage_eq : Eq ExecutionStage
execution_stage_eq = eq_of_discrete ExecutionStage-discrete

pub record SandboxEvent : Type 0 where
  pub phase : Text
  pub backend : Text
  pub partial_effects : Bool

pub record CompactionRecord : Type 0 where
  pub inputs : List Message
  pub summary : Message
  pub excluded : List ℤ
  pub model : ModelRef
  pub usage : Usage
  pub before_tokens : ℤ
  pub after_tokens : ℤ
  pub first_event : ℕ
  pub last_event : ℕ

pub record RoutingRecord : Type 0 where
  pub request : RoutingRequest
  pub decision : RoutingDecision

pub record ExecutionRecord : Type 0 where
  pub step_id : FabricId
  pub turn : ℤ
  pub stage : ExecutionStage
  pub classification : Classification
  pub manifest : Option ContentManifest
  pub verdict : Option PolicyVerdict
  pub routing : Option RoutingRecord
  pub loop : Option LoopEvent
  pub result : Option LoopResult
  pub failure_code : Text
  pub sandbox_event : Option SandboxEvent
  pub approval_record : Option ApprovalRecord
  pub budget_record : Option BudgetRecord
  pub cleanup_record : Option CleanupRecord
  pub compaction_record : Option CompactionRecord
  pub request_sha256 : Text

-- What the records before one of the same step say: the last loop event, and the last routing of
-- the turn. A finished step takes no more records.
pub record Earlier : Type 0 where
  pub previous_loop : Option LoopEvent
  pub last_routing : Option RoutingRecord

unfoldable pub or_else {ℓ} : {A : Type ℓ} → Option A → Option A → Option A
or_else (some a) b = some a
or_else none b = b

-- What one more record of the step adds.
unfoldable pub advance : ℤ → Earlier → ExecutionRecord → Earlier
unfolding ℤ-discrete or_else
advance turn seen r = record {
  previous_loop = or_else r.loop seen.previous_loop;
  last_routing =
      if holds (ℤ-discrete r.turn turn)
      then or_else r.routing seen.last_routing
      else seen.last_routing;
}

-- The loop over the records before.
unfoldable pub scan_earlier : FabricId → ℤ → Earlier → List ExecutionRecord → Result Earlier
unfolding text_beq ExecutionStage-discrete advance
scan_earlier step turn seen [] = ok seen
scan_earlier step turn seen (r ∷ rs) =
    let rest = scan_earlier step turn (advance turn seen r) rs in
    let skipped = scan_earlier step turn seen rs in
    if r.step_id != step
    then skipped
    else if r.stage == finished
    then err (message "execution already finished")
    else rest

abbrev pub count_true : List Bool → ℕ
count_true [] = 0
count_true (true ∷ bs) = suc (count_true bs)
count_true (false ∷ bs) = count_true bs

-- The number of payloads that a record carries.
unfoldable pub payload_count : ExecutionRecord → ℕ
payload_count r = count_true (
    is_some r.verdict
    ∷ is_some r.routing
    ∷ is_some r.loop
    ∷ is_some r.result
    ∷ is_some r.sandbox_event
    ∷ is_some r.approval_record
    ∷ is_some r.budget_record
    ∷ is_some r.cleanup_record
    ∷ is_some r.compaction_record
    ∷ not (is_empty r.request_sha256)
    ∷ [])
