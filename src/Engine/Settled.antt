-- ===== src/Engine/Settled.antt =====
-- loop/engine.go: each call of a batch is answered, by a valid output or by a failure.
use fabricrunner.Prelude.{
  ℕ, ◌+◌, ◌≡◌, refl, ap, ◌⊎◌, inl, inr, Bool, true, false, Option, none, some, List, [], ◌∷◌,
  Bool-cases, Option-cases, is_some, Text, text_eq, Error, Result, ok, err, Check, ℤ,
}
use fabricrunner.Turn.{ToolCall}
use fabricrunner.Loop.{
  ToolInvocation, ToolOutput, ToolFailure, LoopResult, LoopRequest, validate_tool_output,
}
use fabricrunner.Engine.{LoopContext, context_result}
use fabricrunner.Engine.Tools.{
  ToolExecution, CompiledTool, failed_execution, handled, execute_found, execute_tool,
  call_middleware, check_schema, finish_output, process, finalize_tool_result, finalize, find_tool,
  is_parallel, output_schema,
}
use fabricrunner.Engine.Batch.{run_in_order, finalize_all, executed, run_parallel, execute_batch}

-- A failure of the call, reported under the class that the request has for failures.
pub record IsFailure (r : LoopRequest) (c : ToolCall) (x : ToolExecution) : Type 0 where
  pub failure : ToolFailure
  pub failed : x.failure ≡ some failure
  pub of_call : failure.call_id ≡ c.id
  pub of_tool : failure.tool_name ≡ c.name
  pub marked : x.output.is_error ≡ true
  pub class : x.output.classification ≡ r.tool_error_class

abbrev pub IsAnswer : (Text → Bool) → LoopRequest → ToolCall → ToolExecution → Type 0
IsAnswer json_valid r c x =
    IsFailure r c x ⊎ ((x.failure ≡ none) × (validate_tool_output json_valid x.output ≡ ok tt))

-- One answer for each call, in their order.
abbrev pub Answers :
    (ToolCall → ToolExecution → Type 0) → List ToolCall → List ToolExecution → Type 0
Answers P [] [] = Unit
Answers P [] (x ∷ xs) = ⊥
Answers P (c ∷ cs) [] = ⊥
Answers P (c ∷ cs) (x ∷ xs) = P c x × Answers P cs xs

check_cases : (c : Check) → (c ≡ ok tt) ⊎ ((e : Error) × (c ≡ err e))
check_cases (ok u) = inl refl
check_cases (err e) = inr (e, refl)

module _ (execute : ℕ → ToolCall → ToolExecution)
    (finalize_call : ℕ → ToolCall → ToolExecution → ToolExecution)
    (P : ToolCall → ToolExecution → Type 0)
    (answered : (i : ℕ) (c : ToolCall) → P c (finalize_call i c (execute i c)))
    (at : ℕ → LoopContext) where
  in_order-Answers :
      (i : ℕ) (result : LoopResult) (cs : List ToolCall)
      → (run_in_order execute finalize_call at i result cs).2 ≡ ok tt
      → Answers P cs (run_in_order execute finalize_call at i result cs).1
  unfolding run_in_order
  in_order-Answers i result [] h = tt
  in_order-Answers i result (c ∷ cs) h = elim (check_cases (context_result (at i) result).1) [
    | inr (e, l) ↦ absurd (cc (rw (l, run_in_order) at h))
    | inl l ↦
        rw (l, run_in_order)
          (
            answered i c,
            in_order-Answers (i + 1) (context_result (at i) result).0 cs
                (rw (l, run_in_order) at h),
          )
  ]

  all-Answers :
      (i : ℕ) (result : LoopResult) (cs : List ToolCall)
      → (finalize_all execute finalize_call at i result (executed execute finalize_call i cs)).2
        ≡ ok tt
      → Answers P cs
          (finalize_all execute finalize_call at i result (executed execute finalize_call i cs)).1
  unfolding finalize_all
  all-Answers i result [] h = tt
  all-Answers i result (c ∷ cs) h = elim (check_cases (context_result (at (i + 1)) result).1) [
    | inr (e, l) ↦ absurd (cc (rw (l, finalize_all) at h))
    | inl l ↦
        rw (l, finalize_all)
          (
            answered i c,
            all-Answers (i + 1) (context_result (at (i + 1)) result).0 cs
                (rw (l, finalize_all) at h),
          )
  ]

  parallel-Answers :
      (result : LoopResult) (cs : List ToolCall)
      → (run_parallel execute finalize_call at result cs).2 ≡ ok tt
      → Answers P cs (run_parallel execute finalize_call at result cs).1
  unfolding run_parallel
  parallel-Answers result cs h = elim (check_cases (context_result (at 0) result).1) [
    | inr (e, l) ↦ absurd (cc (rw (l, run_parallel) at h))
    | inl l ↦
        rw (l, run_parallel)
          (all-Answers 0 (context_result (at 0) result).0 cs (rw (l, run_parallel) at h))
  ]

-- How a call of a handler or a middleware ends.
data Called (a : Option (Result ToolOutput)) : Type 0 where
  panics : a ≡ none → Called a
  fails : (e : Error) → a ≡ some (err e) → Called a
  gives : (o : ToolOutput) → a ≡ some (ok o) → Called a

answer_cases : (a : Option (Result ToolOutput)) → Called a
answer_cases none = panics refl
answer_cases (some (err e)) = fails e refl
answer_cases (some (ok o)) = gives o refl

module _ {Schema : Type 0} (compile_schema : Text → Result Schema)
    (validate_json : Schema → Text → Check) (as_public : Error → Option (Text × Text))
    (marshal_failure : Text → Text → Text) (json_valid : Text → Bool) (r : LoopRequest)
    (turn : ℤ) where
  failed-IsFailure :
      (c : ToolCall) (code detail : Text) (e : Error)
      → IsFailure r c (
          failed_execution compile_schema validate_json as_public marshal_failure json_valid r c
            code detail e)
  unfolding failed_execution
  failed-IsFailure c code detail e = record {
    failure = record {
      call_id = c.id;
      tool_name = c.name;
      code = code;
      detail = detail;
      cause = some e;
    };
    failed = refl;
    of_call = refl;
    of_tool = refl;
    marked = refl;
    class = refl;
  }

  abbrev Tool : Type 0
  Tool = CompiledTool compile_schema validate_json as_public marshal_failure json_valid

  -- An execution before it is finalized.
  abbrev IsRaw : ToolCall → ToolExecution → Type 0
  IsRaw c x = IsFailure r c x ⊎ (x.failure ≡ none)

  handled-IsRaw :
      (c : ToolCall) (h : Option (Result ToolOutput))
      → IsRaw c (handled compile_schema validate_json as_public marshal_failure json_valid r c h)
  unfolding handled
  handled-IsRaw c none = inl (failed-IsFailure c _ _ _)
  handled-IsRaw c (some (ok o)) = inr refl
  handled-IsRaw c (some (err e)) = inl (failed-IsFailure c _ _ _)

  found-IsRaw :
      (k : ℕ) (c : ToolCall) (t : Option Tool)
      → IsRaw c (
          execute_found compile_schema validate_json as_public marshal_failure json_valid k r turn c
            t)
  unfolding execute_found
  found-IsRaw k c none = inl (failed-IsFailure c _ _ _)
  found-IsRaw k c (some t) = elim (check_cases (validate_json t.input c.input)) [
    | inr (e, l) ↦ rw (l, execute_found) (inl (failed-IsFailure c _ _ _))
    | inl l ↦ rw (l, execute_found) (handled-IsRaw c _)
  ]

  finish-IsAnswer :
      (c : ToolCall) (t : Option Tool) (o : ToolOutput)
      → IsAnswer json_valid r c
          (finish_output compile_schema validate_json as_public marshal_failure json_valid r c t o)
  unfolding finish_output
  finish-IsAnswer c t o = elim (check_cases (validate_tool_output json_valid o)) [
    | inr (e, l) ↦ rw (l, finish_output) (inl (failed-IsFailure c _ _ _))
    | inl l ↦
        elim (Option-cases (
          check_schema compile_schema validate_json as_public marshal_failure json_valid
            (output_schema compile_schema validate_json as_public marshal_failure json_valid t)
            o)) [
              | inr (x, s) ↦ rw (l, s, finish_output) (inl (failed-IsFailure c _ _ _))
              | inl s ↦ rw (l, s, finish_output) (inr (refl, l))
            ]
  ]

  process-IsAnswer :
      (k : ℕ) (c : ToolCall) (t : Option Tool)
      (ms : List (Option (ℕ → ToolInvocation → ToolOutput → Option (Result ToolOutput))))
      (o : ToolOutput)
      → IsAnswer json_valid r c (
          process compile_schema validate_json as_public marshal_failure json_valid k r turn c t ms
            o)
  unfolding process
  process-IsAnswer k c t [] o = finish-IsAnswer c t o
  process-IsAnswer k c t (m ∷ ms) o =
      elim (answer_cases (
        call_middleware compile_schema validate_json as_public marshal_failure json_valid k m
          (record {
            workload_id = r.workload_id;
            step_id = r.step_id;
            attempt_id = r.attempt_id;
            turn = turn;
            call = c;
          })
          o)) [
            | panics q ↦ rw (q, process) (inl (failed-IsFailure c _ _ _))
            | fails e q ↦ rw (q, process) (inl (failed-IsFailure c _ _ _))
            | gives o' q ↦ rw (q, process) (process-IsAnswer k c t ms o')
          ]

  finalize-IsAnswer :
      (tools : List (Text × Tool)) (k : ℕ) (c : ToolCall) (x : ToolExecution)
      → IsRaw c x
      → IsAnswer json_valid r c (
          finalize compile_schema validate_json as_public marshal_failure json_valid tools k r turn
            c x)
  unfolding finalize finalize_tool_result
  finalize-IsAnswer tools k c x (inl f) =
      let failed : is_some x.failure ≡ true = ap is_some f.failed in rw (failed, finalize) (inl f)
  finalize-IsAnswer tools k c x (inr n) =
      let clear : is_some x.failure ≡ false = ap is_some n in
      rw (clear, finalize)
        (process-IsAnswer k c
          (find_tool compile_schema validate_json as_public marshal_failure json_valid c.name tools)
          r.middleware x.output)

  -- If executeBatch ends without an error, in parallel or not, then there is one execution for each call,
  -- in their order: a failure of this call, marked as an error under the class that the request has for
  -- failures, or an output without a failure that passes ToolOutput.Validate.
  pub execute_batch-Answers :
      (tools : List
        (Text × CompiledTool compile_schema validate_json as_public marshal_failure json_valid))
      (at : ℕ → LoopContext) (result : LoopResult) (calls : List ToolCall)
      → (execute_batch compile_schema validate_json as_public marshal_failure json_valid tools r
          turn at result calls).2
        ≡ ok tt
      → Answers
          (IsAnswer json_valid r)
          calls
          (execute_batch compile_schema validate_json as_public marshal_failure json_valid tools r
            turn at result calls).1
  unfolding execute_batch execute_tool
  execute_batch-Answers tools at result calls h =
      let execute = λ (i : ℕ).
        execute_tool compile_schema validate_json as_public marshal_failure json_valid tools i r
          turn in
      let finalize_call = λ (i : ℕ).
        finalize compile_schema validate_json as_public marshal_failure json_valid tools i r turn in
      let answered : (i : ℕ) (c : ToolCall)
          → IsAnswer json_valid r c (finalize_call i c (execute i c)) =
        λ i c. finalize-IsAnswer tools i c (execute i c) (
          found-IsRaw i c (
            find_tool compile_schema validate_json as_public marshal_failure json_valid c.name
              tools)) in
      elim (Bool-cases (
        is_parallel compile_schema validate_json as_public marshal_failure json_valid tools
          r.parallel_tools calls)) [
            | inl p ↦
                rw (p, execute_batch)
                  (parallel-Answers execute finalize_call (IsAnswer json_valid r) answered at result
                    calls (rw (p, execute_batch) at h))
            | inr n ↦
                rw (n, execute_batch)
                  (in_order-Answers execute finalize_call (IsAnswer json_valid r) answered at 0
                    result calls (rw (n, execute_batch) at h))
          ]
