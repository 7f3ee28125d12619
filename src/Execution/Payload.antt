-- ===== src/Execution/Payload.antt =====
-- execution_event.go: a record that passes carries the payload of its stage and no other.
use fabricrunner.Prelude.{
  ℕ, zero, suc, ◌≡◌, refl, ap, ◌≢◌, Bool, true, false, not, Option, none, some, List, [], ◌∷◌,
  arith, eqb_iff, is_some, is_empty, get_elem?, Text, text_eq, ok, prefix_error-ok, unless-ok,
  >>=-eq-ok, >>-eq-ok, all_checks, passed,
}
use fabricrunner.Id.{FabricId}
use fabricrunner.Strings.{validate_sha256}
use fabricrunner.Domain.{Step, WorkloadState}
use fabricrunner.Content.{ContentManifest}
use fabricrunner.Event.{Event}
use fabricrunner.Execution.{
  ExecutionStage, policy_evaluated, routing_decided, loop_event, finished, sandbox, approval,
  budget, cleanup, compaction, request, resumed, other_stage, ExecutionRecord, Earlier,
  scan_earlier, count_true, payload_count,
}
use fabricrunner.Execution.Stages.{
  check_compaction, check_approval, check_budget, check_cleanup, check_sandbox, check_policy,
  check_routing, check_result,
}
use fabricrunner.Execution.LoopStage.{check_loop}
use fabricrunner.Execution.Recorded.{is_running, check_stage, check_record}

count-zero : (bs : List Bool) (i : ℕ) → count_true bs ≡ 0 → get_elem? bs i ≢ some true
count-zero [] i h e = cc
count-zero (true ∷ bs) i h e = absurd (omega arith)
count-zero (false ∷ bs) zero h e = cc
count-zero (false ∷ bs) (suc i) h e = count-zero bs i h e

-- Where one flag is set, two that are set are the same one.
pub count-one :
    (bs : List Bool) (i j : ℕ)
    → count_true bs ≡ 1
    → get_elem? bs i ≡ some true
    → get_elem? bs j ≡ some true
    → i ≡ j
count-one [] i j h e f = cc
count-one (true ∷ bs) zero zero h e f = refl
count-one (true ∷ bs) zero (suc j) h e f = absurd (count-zero bs j (omega arith) f)
count-one (true ∷ bs) (suc i) j h e f = absurd (count-zero bs i (omega arith) e)
count-one (false ∷ bs) zero j h e f = cc
count-one (false ∷ bs) (suc i) zero h e f = cc
count-one (false ∷ bs) (suc i) (suc j) h e f = ap suc (count-one bs i j h e f)

-- The place of the payload of a stage among the flags.
abbrev payload_index : ExecutionStage → ℕ
payload_index policy_evaluated = 0
payload_index routing_decided = 1
payload_index loop_event = 2
payload_index finished = 3
payload_index sandbox = 4
payload_index approval = 5
payload_index budget = 6
payload_index cleanup = 7
payload_index compaction = 8
payload_index request = 9
payload_index resumed = 9
payload_index (other_stage s) = 10

-- The flags that are counted.
abbrev flags : ExecutionRecord → List Bool
flags r =
    is_some r.verdict
    ∷ is_some r.routing
    ∷ is_some r.loop
    ∷ is_some r.result
    ∷ is_some r.sandbox_event
    ∷ is_some r.approval_record
    ∷ is_some r.budget_record
    ∷ is_some r.cleanup_record
    ∷ is_some r.compaction_record
    ∷ not (is_empty r.request_sha256)
    ∷ []

present {ℓ} :
    {A : Type ℓ} (x : Option A) (P : Option A → Type 0) → ¬ P none → P x → is_some x ≡ true
present none P n p = absurd (n p)
present (some a) P n p = refl

digest_present : (s : Text) → validate_sha256 s ≡ ok tt → not (is_empty s) ≡ true
unfolding validate_sha256 all_checks
digest_present [] h = cc
digest_present (c ∷ s) h = refl

module _ (json_valid : Text → Bool) (sha256 : List ℕ → List ℕ) where
  unjudged :
      (workload step attempt : FabricId) (m : Option ContentManifest)
      → check_policy sha256 workload step attempt m none ≢ ok tt
  unfolding check_policy
  unjudged workload step attempt none z = cc z
  unjudged workload step attempt (some m) z = cc z

  pub check_stage-present :
      (workload : FabricId) (e : Event) (earlier : Earlier) (r : ExecutionRecord)
      (stage : ExecutionStage)
      → check_stage json_valid sha256 workload e earlier r stage ≡ ok tt
      → get_elem? (flags r) (payload_index stage) ≡ some true
  unfolding check_stage check_compaction check_approval check_budget check_cleanup check_sandbox
      check_policy check_routing check_loop check_result
  check_stage-present w e x r policy_evaluated h = ap some (
      present r.verdict (λ v. check_policy sha256 w r.step_id e.attempt_id r.manifest v ≡ ok tt)
        (unjudged w r.step_id e.attempt_id r.manifest) h)
  check_stage-present w e x r routing_decided h = ap some (
      present r.routing (λ v. check_routing w r.step_id e.attempt_id r.turn v ≡ ok tt) (λ z. cc z)
        h)
  check_stage-present w e x r loop_event h =
      ap some (present r.loop (λ v. check_loop json_valid r.turn x v ≡ ok tt) (λ z. cc z) h)
  check_stage-present w e x r finished h =
      ap some (present r.result (λ v. check_result v ≡ ok tt) (λ z. cc z) h)
  check_stage-present w e x r sandbox h =
      ap some (present r.sandbox_event (λ v. check_sandbox v ≡ ok tt) (λ z. cc z) h)
  check_stage-present w e x r approval h =
      ap some (present r.approval_record (λ v. check_approval w r.step_id v ≡ ok tt) (λ z. cc z) h)
  check_stage-present w e x r budget h =
      ap some (present r.budget_record (λ v. check_budget v ≡ ok tt) (λ z. cc z) h)
  check_stage-present w e x r cleanup h =
      ap some (present r.cleanup_record (λ v. check_cleanup v ≡ ok tt) (λ z. cc z) h)
  check_stage-present w e x r compaction h = ap some (
      present r.compaction_record
        (λ v. check_compaction json_valid r.classification e.sequence v ≡ ok tt) (λ z. cc z) h)
  check_stage-present w e x r request h =
      ap some (digest_present r.request_sha256 (prefix_error-ok _ _ h))
  check_stage-present w e x r resumed h =
      ap some (digest_present r.request_sha256 (prefix_error-ok _ _ h))
  check_stage-present w e x r (other_stage s) h = cc h

  -- What a record that passes was checked for.
  pub record Checked (state : WorkloadState) (workload : FabricId) (step : Option Step)
      (recorded : List ExecutionRecord) (e : Event) (r : ExecutionRecord) : Type 0 where
    pub earlier : Earlier
    pub running : is_running step ≡ true
    pub scanned :
        scan_earlier r.step_id r.turn
          (record { previous_loop = none; last_routing = none })
          recorded
        ≡ ok earlier
    pub one_payload : payload_count r ≡ 1
    pub staged : check_stage json_valid sha256 workload e earlier r r.stage ≡ ok tt

  pub check_record-Checked :
      (state : WorkloadState) (workload : FabricId) (step : Option Step)
      (recorded : List ExecutionRecord) (e : Event) (r : ExecutionRecord)
      → check_record json_valid sha256 state workload step recorded e r ≡ ok tt
      → Checked state workload step recorded e r
  unfolding check_record
  check_record-Checked state workload step recorded e r h =
      let (admitted, h1) = >>-eq-ok (all_checks _) _ h in
      let (earlier, scanned, h2) = >>=-eq-ok (scan_earlier r.step_id r.turn _ recorded) _ h1 in
      record {
        earlier = earlier;
        running = unless-ok _ _ (passed _ 1 admitted refl);
        scanned = scanned;
        one_payload = (eqb_iff (payload_count r) 1).0 (unless-ok _ _ (passed _ 2 h2 refl));
        staged = passed _ 3 h2 refl;
      }

  -- A record that passes has a loop event exactly where its stage is that of loop events.
  pub loop-stage :
      (state : WorkloadState) (workload : FabricId) (step : Option Step)
      (recorded : List ExecutionRecord) (e : Event) (r : ExecutionRecord)
      → Checked state workload step recorded e r
      → is_some r.loop ≡ true
      → r.stage ≡ loop_event
  unfolding payload_count
  loop-stage state workload step recorded e r c h = index_of r.stage (
      count-one (flags r) (payload_index r.stage) 2 c.one_payload
        (check_stage-present workload e c.earlier r r.stage c.staged) (ap some h))
    where
      index_of : (s : ExecutionStage) → payload_index s ≡ 2 → s ≡ loop_event
      index_of loop_event k = refl
      index_of policy_evaluated k = absurd (omega (arith, k))
      index_of routing_decided k = absurd (omega (arith, k))
      index_of finished k = absurd (omega (arith, k))
      index_of sandbox k = absurd (omega (arith, k))
      index_of approval k = absurd (omega (arith, k))
      index_of budget k = absurd (omega (arith, k))
      index_of cleanup k = absurd (omega (arith, k))
      index_of compaction k = absurd (omega (arith, k))
      index_of request k = absurd (omega (arith, k))
      index_of resumed k = absurd (omega (arith, k))
      index_of (other_stage t) k = absurd (omega (arith, k))
