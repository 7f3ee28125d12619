-- ===== src/Domain.antt =====
-- domain.go: zones, classifications, budgets, and the state machines of workloads and steps.
-- A string type with constants is a data type with a constructor for each constant, and one,
-- `other_…`, for a string that is none of them. An instant is a number of nanoseconds since the
-- zero `time.Time`; `UTC()` changes no instant. `int`, `int64` and `time.Duration` are integers.
pub mod Transitions
mod Examples
use fabricrunner.Prelude.{
  ℕ, zero, suc, ◌+◌, ◌-◌, ◌*◌, ◌/◌, ◌%◌, ◌^◌, ◌≤◌, ◌<◌, String, ◌≡◌, refl, sym, ap, ◌∙◌, subst, ◌≢◌,
  ◌↔◌, ◌⊎◌, inl, inr, Bool, true, false, not, ◌&&◌, ◌||◌, Option, none, some, List, [], ◌∷◌, ◌++◌,
  map, arith, ltb, leb, eqb, if◌then◌else◌, ltb→lt, lt→ltb, eqb_iff, eqb_refl, Bool-cases,
  Option-cases, &&-eq-true, ||-eq-false, is_some, length, is_empty, get_elem?, get_or, take, drop,
  length-append, drop-length_append, All, All-append, length-map, Eq, ◌==◌, ◌!=◌, holds, holds_iff,
  eq_of_discrete, Text, text, text_beq, text_beq_iff, Text-discrete, text_eq, text_ltb, Sentinel,
  Error, sentinel, message, prefixed, wrap, errors_is, Result, ok, err, Check, ◌>>=◌, ◌>>◌, fail_if,
  prefix_error, wrap_error, fail_if-ok, prefix_error-ok, >>=-eq-ok, >>-eq-ok, all_checks, passed,
  all_checks-pass, prefix_error-pass, equal_of_same, same, holds_of_not, holds_refl,
  Sentinel-discrete, fail_if-pass, ℤ, pos, negsuc, ℤ-discrete, pos_part, neg_part, ◌+ℤ◌, ◌-ℤ◌, ◌*ℤ◌,
  ◌≤ℤ◌, ◌<ℤ◌, ltb_ℤ, is_neg, +ℤ_parts, -ℤ_parts, eq_of_parts, int_laws, eq-pos_of_not-neg,
  to_uint64, of_uint64, add64, sub64, mul64, add64_exact, add64_overflow,
}
use fabricrunner.Id.{FabricId}

pub data Zone : Type 0 where
  personal self_cloud managed_cloud : Zone
  other_zone : Text → Zone

unfoldable pub Zone-discrete : Discrete Zone
Zone-discrete = hlevel Text-discrete

instance abbrev pub zone_eq : Eq Zone
zone_eq = eq_of_discrete Zone-discrete

unfoldable pub validate_zone : Zone → Check
validate_zone (other_zone s) = err (message "unknown zone")
validate_zone _ = ok tt

pub data Classification : Type 0 where
  public internal confidential secret : Classification
  other_class : Text → Classification

unfoldable pub Classification-discrete : Discrete Classification
Classification-discrete = hlevel Text-discrete

instance abbrev pub classification_eq : Eq Classification
classification_eq = eq_of_discrete Classification-discrete

unfoldable pub validate_class : Classification → Check
validate_class (other_class s) = err (message "unknown classification")
validate_class _ = ok tt

-- `type CostMicros int64`
abbrev pub CostMicros : Type 0
CostMicros = ℤ

abbrev pub Time : Type 0
Time = ℤ

abbrev pub Duration : Type 0
Duration = ℤ

-- `IsZero`, `t.After(u)`, `t.Equal(u)`
abbrev pub is_zero_time : Time → Bool
is_zero_time t = holds (ℤ-discrete t (pos 0))

abbrev pub after : Time → Time → Bool
after t u = ltb_ℤ u t

abbrev pub equal_time : Time → Time → Bool
equal_time t u = holds (ℤ-discrete t u)

pub record Budget : Type 0 where
  pub max_steps : ℤ
  pub max_input_tokens : ℤ
  pub max_output_tokens : ℤ
  pub max_model_calls : ℤ
  pub max_tool_calls : ℤ
  pub max_child_steps : ℤ
  pub max_cost : CostMicros
  pub max_wall_time : Duration

unfoldable pub validate_budget : Budget → Check
validate_budget b =
    fail_if
      (is_neg b.max_steps
        || (is_neg b.max_input_tokens
            || (is_neg b.max_output_tokens
                || (is_neg b.max_model_calls
                    || (is_neg b.max_tool_calls
                        || (is_neg b.max_child_steps
                            || (is_neg b.max_cost || is_neg b.max_wall_time)))))))
      (message "budget values cannot be negative")

pub data WorkloadState : Type 0 where
  created running waiting succeeded failed cancelled : WorkloadState
  other_workload_state : Text → WorkloadState

unfoldable pub WorkloadState-discrete : Discrete WorkloadState
WorkloadState-discrete = hlevel Text-discrete

instance abbrev pub workload_state_eq : Eq WorkloadState
workload_state_eq = eq_of_discrete WorkloadState-discrete

unfoldable pub validate_workload_state : WorkloadState → Check
validate_workload_state (other_workload_state s) = err (message "unknown workload state")
validate_workload_state _ = ok tt

pub record Workload : Type 0 where
  pub id : FabricId
  pub session_id : FabricId
  pub goal : Text
  pub state : WorkloadState
  pub budget : Budget
  pub created_at : Time
  pub updated_at : Time

pub data StepKind : Type 0 where
  model_turn tool delegate transform verify : StepKind
  other_step_kind : Text → StepKind

unfoldable pub StepKind-discrete : Discrete StepKind
StepKind-discrete = hlevel Text-discrete

instance abbrev pub step_kind_eq : Eq StepKind
step_kind_eq = eq_of_discrete StepKind-discrete

unfoldable pub validate_step_kind : StepKind → Check
validate_step_kind (other_step_kind s) = err (message "unknown step kind")
validate_step_kind _ = ok tt

pub data StepState : Type 0 where
  pending ready leased running waiting_approval uncertain succeeded failed cancelled : StepState
  other_step_state : Text → StepState

unfoldable pub StepState-discrete : Discrete StepState
StepState-discrete = hlevel Text-discrete

instance abbrev pub step_state_eq : Eq StepState
step_state_eq = eq_of_discrete StepState-discrete

unfoldable pub validate_step_state : StepState → Check
validate_step_state (other_step_state s) = err (message "unknown step state")
validate_step_state _ = ok tt

pub record Requirements : Type 0 where
  pub modalities : List Text
  pub required_tools : List Text
  pub min_context_tokens : ℤ
  pub min_quality_class : Text
  pub allowed_zones : List Zone
  pub native_tool_use : Bool
  pub structured_output : Bool

unfoldable pub validate_zones : List Zone → Check
unfolding validate_zone
validate_zones [] = ok tt
validate_zones (z ∷ zs) = do prefix_error "allowed zone" (validate_zone z); validate_zones zs

unfoldable pub validate_requirements : Requirements → Check
unfolding validate_zones
validate_requirements r = all_checks (
    fail_if (is_neg r.min_context_tokens) (message "minimum context tokens cannot be negative")
    ∷ validate_zones r.allowed_zones
    ∷ [])

pub record Step : Type 0 where
  pub id : FabricId
  pub workload_id : FabricId
  pub parent_step_id : FabricId
  pub kind : StepKind
  pub state : StepState
  pub requirements : Requirements
  pub budget : Budget
  pub attempt : ℤ
  pub idempotency_key : Text
  pub created_at : Time
  pub updated_at : Time

unfoldable pub can_transition_workload : WorkloadState → WorkloadState → Bool
can_transition_workload created to = to == running || to == cancelled
can_transition_workload running to =
    to == waiting || (to == succeeded || (to == failed || to == cancelled))
can_transition_workload waiting to = to == running || (to == failed || to == cancelled)
can_transition_workload _ to = false

unfoldable pub can_transition_step : StepState → StepState → Bool
can_transition_step pending to = to == ready || to == cancelled
can_transition_step ready to = to == leased || (to == failed || to == cancelled)
can_transition_step leased to =
    to == running || (to == ready || (to == uncertain || to == cancelled))
can_transition_step running to =
    to == succeeded
    || (to == failed || (to == waiting_approval || (to == uncertain || to == cancelled)))
can_transition_step waiting_approval to = to == running || (to == failed || to == cancelled)
can_transition_step uncertain to =
    to == succeeded || (to == failed || (to == ready || to == cancelled))
can_transition_step _ to = false

abbrev pub bad_transition : Error
bad_transition = sentinel Sentinel.invalid_transition

-- The methods mutate their receiver only on success, so the new record comes with `ok`.
unfoldable pub transition_workload : Workload → WorkloadState → Time → Result Workload
transition_workload w to now =
    if can_transition_workload w.state to
    then ok (record w { state = to; updated_at = now })
    else err bad_transition

unfoldable pub transition_step : Step → StepState → Time → Result Step
transition_step s to now =
    if can_transition_step s.state to
    then ok (record s { state = to; updated_at = now })
    else err bad_transition
