-- ===== src/Engine/Batch.antt =====
-- loop/engine.go: executeBatch, one call after another or all at once. A handler and a middleware are
-- given the number of the call in the batch, and may return anything each time. So they stand for
-- those with a state too, in whatever order the goroutines run, and whether or not all the handlers
-- end before the first middleware runs.
use fabricrunner.Prelude.{
  ℕ, ◌+◌, Bool, Option, List, [], ◌∷◌, map, if◌then◌else◌, Text, text_eq, Error, Result, ok, err,
  Check, ℤ,
}
use fabricrunner.Turn.{ToolCall}
use fabricrunner.Loop.{LoopResult, LoopRequest}
use fabricrunner.Engine.{LoopContext, context_result}
use fabricrunner.Engine.Tools.{ToolExecution, CompiledTool, execute_tool, finalize, is_parallel}

module _ (execute : ℕ → ToolCall → ToolExecution)
    (finalize_call : ℕ → ToolCall → ToolExecution → ToolExecution) where
  -- The calls one after another; `at` gives the context before the i-th.
  unfoldable pub run_in_order :
      (ℕ → LoopContext) → ℕ → LoopResult → List ToolCall → LoopResult × List ToolExecution × Check
  unfolding context_result
  run_in_order at i result [] = (result, [], ok tt)
  run_in_order at i result (c ∷ cs) =
      let (seen, live) = context_result (at i) result in
      let (after, rest, checked) = run_in_order at (i + 1) seen cs in
      elim live [
        | err e ↦ (seen, [], err e)
        | ok _ ↦ (after, finalize_call i c (execute i c) ∷ rest, checked)
      ]

  -- The loop over the executions of a parallel batch, from the i-th on; the context was looked at once
  -- before the loop.
  unfoldable pub finalize_all :
      (ℕ → LoopContext)
      → ℕ
      → LoopResult
      → List (ToolCall × ToolExecution)
      → LoopResult × List ToolExecution × Check
  unfolding context_result
  finalize_all at i result [] = (result, [], ok tt)
  finalize_all at i result ((c, x) ∷ rest) =
      let (seen, live) = context_result (at (i + 1)) result in
      let (after, done, checked) = finalize_all at (i + 1) seen rest in
      elim live [ err e ↦ (seen, [], err e) | ok _ ↦ (after, finalize_call i c x ∷ done, checked) ]

  abbrev pub executed : ℕ → List ToolCall → List (ToolCall × ToolExecution)
  executed i [] = []
  executed i (c ∷ cs) = (c, execute i c) ∷ executed (i + 1) cs

  -- All the calls at once, then the context, then the loop.
  unfoldable pub run_parallel :
      (ℕ → LoopContext) → LoopResult → List ToolCall → LoopResult × List ToolExecution × Check
  unfolding context_result finalize_all
  run_parallel at result calls =
      let (seen, live) = context_result (at 0) result in
      let all = executed 0 calls in
      elim live [
        | err e ↦ (seen, map (λ (p : ToolCall × ToolExecution). p.1) all, err e)
        | ok _ ↦ finalize_all at 0 seen all
      ]

module _ {Schema : Type 0} (compile_schema : Text → Result Schema)
    (validate_json : Schema → Text → Check) (as_public : Error → Option (Text × Text))
    (marshal_failure : Text → Text → Text) (json_valid : Text → Bool) where
  -- `executeBatch`
  unfoldable pub execute_batch :
      List (Text × CompiledTool compile_schema validate_json as_public marshal_failure json_valid)
      → LoopRequest
      → ℤ
      → (ℕ → LoopContext)
      → LoopResult
      → List ToolCall
      → LoopResult × List ToolExecution × Check
  unfolding run_in_order run_parallel is_parallel execute_tool finalize
  execute_batch tools r turn at result calls =
      let execute = λ (i : ℕ).
        execute_tool compile_schema validate_json as_public marshal_failure json_valid tools i r
          turn in
      let finalize_call = λ (i : ℕ).
        finalize compile_schema validate_json as_public marshal_failure json_valid tools i r turn in
      if is_parallel compile_schema validate_json as_public marshal_failure json_valid tools
        r.parallel_tools calls
      then run_parallel execute finalize_call at result calls
      else run_in_order execute finalize_call at 0 result calls
