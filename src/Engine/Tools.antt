-- ===== src/Engine/Tools.antt =====
-- loop/engine.go: the execution of the tool calls of a turn. The JSON schema compiler and its
-- schemas, what `errors.As` finds as a PublicToolError in an error, and the JSON text that
-- `json.Marshal` makes of a failure are arguments. `k` is the number of a call in
-- its batch, which a handler and a middleware are given, so that what they return may differ each time.
use fabricrunner.Prelude.{
  ℕ, Bool, true, false, ◌&&◌, Option, none, some, List, [], ◌∷◌, if◌then◌else◌, is_some, is_empty,
  ◌==◌, Text, text, text_beq, text_eq, Sentinel, Error, sentinel, message, wrap, Result, ok, err,
  Check, ◌>>=◌, prefix_error, ℤ,
}
use fabricrunner.Turn.{ToolCall}
use fabricrunner.Loop.{
  ToolInvocation, ToolOutput, ToolHandler, ToolBinding, ToolFailure, LoopRequest,
  normalize_tool_error, validate_tool_output,
}

pub record ToolExecution : Type 0 where
  pub output : ToolOutput
  pub failure : Option ToolFailure

abbrev no_output : ToolOutput
no_output = record {
  json = [];
  content = [];
  classification = fabricrunner.Domain.Classification.other_class [];
  is_error = false;
}

abbrev invocation_of : LoopRequest → ℤ → ToolCall → ToolInvocation
invocation_of r turn call = record {
  workload_id = r.workload_id;
  step_id = r.step_id;
  attempt_id = r.attempt_id;
  turn = turn;
  call = call;
}

module _ {Schema : Type 0} (compile_schema : Text → Result Schema)
    (validate_json : Schema → Text → Check) (as_public : Error → Option (Text × Text))
    (marshal_failure : Text → Text → Text) (json_valid : Text → Bool) where
  pub record CompiledTool : Type 0 where
    pub binding : ToolBinding
    pub input : Schema
    pub output : Option Schema

  unfoldable pub compile_output : Text → Result (Option Schema)
  compile_output raw = if is_empty raw then ok none else compile_schema raw >>= λ s. ok (some s)

  -- `compileTools`: the map by name, the newest entry first.
  unfoldable pub compile_tools :
      List (Text × CompiledTool) → List ToolBinding → Result (List (Text × CompiledTool))
  unfolding compile_output
  compile_tools made [] = ok made
  compile_tools made (b ∷ bs) = do
    input ← prefix_error "tool input schema" (compile_schema b.definition.input_schema)
    output ← prefix_error "tool output schema" (compile_output b.definition.output_schema)
    compile_tools
        ((b.definition.name, record { binding = b; input = input; output = output }) ∷ made) bs

  unfoldable pub find_tool : Text → List (Text × CompiledTool) → Option CompiledTool
  unfolding text_beq
  find_tool name [] = none
  find_tool name ((n, t) ∷ rest) = if n == name then some t else find_tool name rest

  -- `failedExecution`
  unfoldable pub failed_execution : LoopRequest → ToolCall → Text → Text → Error → ToolExecution
  failed_execution r call code detail cause = record {
    output = record {
      json = marshal_failure code detail;
      content = [];
      classification = r.tool_error_class;
      is_error = true;
    };
    failure = some (record {
      call_id = call.id;
      tool_name = call.name;
      code = code;
      detail = detail;
      cause = some cause;
    });
  }

  abbrev pub panicked : Error
  panicked = sentinel Sentinel.loop_panic

  -- What the handler returned, or that it panicked.
  unfoldable pub handled : LoopRequest → ToolCall → Option (Result ToolOutput) → ToolExecution
  unfolding failed_execution normalize_tool_error
  handled r call none =
      failed_execution r call (text "tool_panicked") (text "tool execution panicked") panicked
  handled r call (some (ok o)) = record { output = o; failure = none }
  handled r call (some (err e)) =
      let (code, detail) = normalize_tool_error (some (as_public e)) in
      failed_execution r call code detail e

  -- A call of the handler of a binding; a nil handler panics.
  abbrev pub call_handler : ℕ → Option ToolHandler → ToolInvocation → Option (Result ToolOutput)
  call_handler k none i = none
  call_handler k (some h) i = h.execute k i

  -- `executeTool`, with the tool that was found.
  unfoldable pub execute_found :
      ℕ → LoopRequest → ℤ → ToolCall → Option CompiledTool → ToolExecution
  unfolding failed_execution handled
  execute_found k r turn call none =
      failed_execution r call (text "tool_not_found") (text "requested tool is not declared")
        (wrap (sentinel Sentinel.loop_tool_input) (message "undeclared tool"))
  execute_found k r turn call (some t) = elim (validate_json t.input call.input) [
    | err e ↦
        failed_execution r call (text "tool_input_invalid")
          (text "tool input failed schema validation") (wrap (sentinel Sentinel.loop_tool_input) e)
    | ok _ ↦ handled r call (call_handler k t.binding.handler (invocation_of r turn call))
  ]

  unfoldable pub execute_tool :
      List (Text × CompiledTool) → ℕ → LoopRequest → ℤ → ToolCall → ToolExecution
  unfolding execute_found find_tool
  execute_tool tools k r turn call = execute_found k r turn call (find_tool call.name tools)

  -- What a middleware returned; `none` where it panicked or is nil.
  abbrev pub call_middleware :
      ℕ
      → Option (ℕ → ToolInvocation → ToolOutput → Option (Result ToolOutput))
      → ToolInvocation
      → ToolOutput
      → Option (Result ToolOutput)
  call_middleware k none i o = none
  call_middleware k (some m) i o = m k i o

  unfoldable pub check_schema : Option Schema → ToolOutput → Option (Text × Error)
  check_schema none o = none
  check_schema (some s) o =
      if is_empty o.json
      then some (
        text "tool output JSON is required",
        wrap (sentinel Sentinel.loop_tool_output) (message "output schema requires JSON"),
      )
      else elim (validate_json s o.json) [
        | err e ↦ some (
          text "tool output failed schema validation",
          wrap (sentinel Sentinel.loop_tool_output) e,
        )
        | ok _ ↦ none
      ]

  abbrev pub output_schema : Option CompiledTool → Option Schema
  output_schema none = none
  output_schema (some t) = t.output

  -- The tests of `finalizeToolResult` behind the middleware.
  unfoldable pub finish_output :
      LoopRequest → ToolCall → Option CompiledTool → ToolOutput → ToolExecution
  unfolding failed_execution validate_tool_output check_schema
  finish_output r call t o = elim (validate_tool_output json_valid o) [
    | err e ↦
        failed_execution r call (text "tool_output_invalid") (text "tool output is invalid")
          (wrap (sentinel Sentinel.loop_tool_output) e)
    | ok _ ↦ elim (check_schema (output_schema t) o) [
      | some (detail, e) ↦ failed_execution r call (text "tool_output_invalid") detail e
      | none ↦ record { output = o; failure = none }
    ]
  ]

  -- The loop over the middleware.
  unfoldable pub process :
      ℕ
      → LoopRequest
      → ℤ
      → ToolCall
      → Option CompiledTool
      → List (Option (ℕ → ToolInvocation → ToolOutput → Option (Result ToolOutput)))
      → ToolOutput
      → ToolExecution
  unfolding failed_execution finish_output
  process k r turn call t [] o = finish_output r call t o
  process k r turn call t (m ∷ ms) o = elim (call_middleware k m (invocation_of r turn call) o) [
    | none ↦
        failed_execution r call (text "tool_result_middleware_panicked")
          (text "tool result processing panicked") panicked
    | some (err e) ↦
        failed_execution r call (text "tool_result_middleware_failed")
          (text "tool result processing failed") e
    | some (ok o') ↦ process k r turn call t ms o'
  ]

  -- `finalizeToolResult`
  unfoldable pub finalize_tool_result :
      List (Text × CompiledTool) → ℕ → LoopRequest → ℤ → ToolCall → ToolOutput → ToolExecution
  unfolding process find_tool
  finalize_tool_result tools k r turn call o =
      process k r turn call (find_tool call.name tools) r.middleware o

  -- `if execution.failure == nil { execution = finalizeToolResult(...) }`
  unfoldable pub finalize :
      List (Text × CompiledTool) → ℕ → LoopRequest → ℤ → ToolCall → ToolExecution → ToolExecution
  unfolding finalize_tool_result
  finalize tools k r turn call x =
      if is_some x.failure then x else finalize_tool_result tools k r turn call x.output

  -- `parallel` after its loop.
  unfoldable pub is_parallel : List (Text × CompiledTool) → Bool → List ToolCall → Bool
  unfolding find_tool
  is_parallel tools parallel [] = parallel
  is_parallel tools parallel (c ∷ cs) =
      is_parallel tools
        (parallel
          && elim (find_tool c.name tools) [ none ↦ false | some t ↦ t.binding.parallel_safe ])
        cs
