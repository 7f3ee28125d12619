-- ===== src/Policy/Examples.antt =====
-- The theorems on policies at the baseline policy, one request of each kind, and a digest function
-- that gives the same bytes for each input.
use fabricrunner.Prelude.{
  ℕ, ◌≡◌, refl, ◌↔◌, true, false, Option, none, some, List, [], ◌∷◌, text, Text-discrete, text_eq,
  Error, ok, all_checks, pos,
}
use fabricrunner.Id.{sample_id}
use fabricrunner.Domain.{personal, managed_cloud, public, secret, Classification, model_turn}
use fabricrunner.Content.{ContentManifest, manifest_class, digest_unchecked}
use fabricrunner.Policy.Requests.{
  ExecutionPolicyRequest, DataEgressPolicyRequest, model_target, validate_execution_request,
  validate_egress_request,
}
use fabricrunner.Policy.Scope.{
  PolicyVerdict, scope_for_execution, scope_for_egress, scopes_equal, allows, requires_approval,
}
use fabricrunner.Policy.Evaluate.{
  Answer, no_scope, evaluate_execution_policy, evaluate_egress_policy,
}
use fabricrunner.Policy.Baseline.{evaluate_execution, evaluate_egress}
use fabricrunner.Policy.Equal.{scopes_equal_iff}
use fabricrunner.Policy.FailClosed.{permits, IsBound}
use fabricrunner.Policy.Authorized.{execution_authorized, egress_authorized}

abbrev constant_hash : List ℕ → List ℕ
constant_hash bytes =
    1 ∷ 2 ∷ 3 ∷ 4 ∷ 5 ∷ 6 ∷ 7 ∷ 8 ∷ 9 ∷ 10 ∷ 11 ∷ 12 ∷ 13 ∷ 14 ∷ 15 ∷ 16 ∷ 17 ∷ 18 ∷ 19 ∷ 20 ∷ 21
    ∷ 22 ∷ 23 ∷ 24 ∷ 25 ∷ 26 ∷ 27 ∷ 28 ∷ 29 ∷ 30 ∷ 31 ∷ 255 ∷ []

abbrev manifest_of_class : Classification → ContentManifest
manifest_of_class class = record {
  items =
      record {
        sha256 = text "00112233445566778899aabbccddeeff00112233445566778899aabbccddeeff";
        media_type = text "text/plain";
        size_bytes = pos 12;
        classification = class;
      }
      ∷ [];
}

abbrev run_model : Classification → ExecutionPolicyRequest
run_model class = record {
  workload_id = sample_id;
  step_id = sample_id;
  attempt_id = sample_id;
  step_kind = model_turn;
  target = record {
    sandbox = record { established = false; backend = [] };
    kind = model_target;
    zone = personal;
    model = some (record { provider = text "local"; model = text "small" });
    tool_name = [];
  };
  manifest = manifest_of_class class;
  autonomous = false;
}

abbrev send_out : DataEgressPolicyRequest
send_out = record {
  workload_id = sample_id;
  step_id = sample_id;
  source = personal;
  destination = managed_cloud;
  manifest = manifest_of_class public;
  purpose = text "answer";
  derived_from_sha = [];
}

abbrev execution_verdict : PolicyVerdict
execution_verdict = (evaluate_execution constant_hash none (run_model public)).0

abbrev egress_verdict : PolicyVerdict
egress_verdict = (evaluate_egress constant_hash none send_out).0

execution_run :
    evaluate_execution_policy constant_hash none none
      (some (evaluate_execution constant_hash none))
      (run_model public)
    ≡ (execution_verdict, none)
unfolding evaluate_execution_policy evaluate_execution all_checks Text-discrete
execution_run = refl

execution_permits : permits execution_verdict ≡ true
unfolding evaluate_execution allows requires_approval all_checks
execution_permits = refl

execution_authorized_example :
    ◌≡◌ {A = Option Error} none none
    × ◌≡◌ {A = Option Error} none none
    × (validate_execution_request (run_model public) ≡ ok tt)
    × ((model_target ≡ model_target) → ¬ (manifest_class (manifest_of_class public) ≡ ok secret))
    × ((p : ExecutionPolicyRequest → Answer PolicyVerdict) × (some
            (evaluate_execution constant_hash none)
          ≡ some p)
        × (p (run_model public) ≡ (execution_verdict, none)))
    × IsBound
        (digest_unchecked constant_hash (manifest_of_class public))
        (scope_for_execution (run_model public))
        execution_verdict
        none
execution_authorized_example =
    execution_authorized constant_hash none none (some (evaluate_execution constant_hash none))
      (run_model public) execution_verdict none execution_run execution_permits

egress_run :
    evaluate_egress_policy constant_hash none none
      (some (evaluate_egress constant_hash none))
      send_out
    ≡ (egress_verdict, none)
unfolding evaluate_egress_policy evaluate_egress all_checks Text-discrete
egress_run = refl

egress_permits : permits egress_verdict ≡ true
unfolding evaluate_egress allows requires_approval all_checks
egress_permits = refl

egress_authorized_example :
    ◌≡◌ {A = Option Error} none none
    × ◌≡◌ {A = Option Error} none none
    × (validate_egress_request send_out ≡ ok tt)
    × ((p : DataEgressPolicyRequest → Answer PolicyVerdict) × (some
            (evaluate_egress constant_hash none)
          ≡ some p)
        × (p send_out ≡ (egress_verdict, none)))
    × IsBound
        (digest_unchecked constant_hash (manifest_of_class public))
        (scope_for_egress send_out)
        egress_verdict
        none
egress_authorized_example =
    egress_authorized constant_hash none none (some (evaluate_egress constant_hash none)) send_out
      egress_verdict none egress_run egress_permits

scopes_equal_iff_example :
    (scopes_equal (scope_for_egress send_out) no_scope ≡ true)
    ↔ (scope_for_egress send_out ≡ no_scope)
scopes_equal_iff_example = scopes_equal_iff (scope_for_egress send_out) no_scope
