-- ===== src/Lib.antt =====
-- fabricrunner: a verification library for the decision-making core of the repository.
--
-- The program runs agent workloads. A workload is made of steps, whose states follow fixed diagrams.
-- Before a step runs, its content is described by a manifest, policies judge whether the content may
-- be used on a target or leave a trust zone, and a router chooses among candidates those policies
-- let through. The provider that was chosen answers with a stream of model events, and the turn loop
-- reports what it does. All that happens is recorded as events in the stream of the workload, from
-- which its state is reconstructed. The parts and their files:
--
-- Prelude         Names that all modules share: Go's strings as lists of bytes (`Text`), its signed
--                 integers with the wrap-around of int64 (Prelude/Int), `==` on comparable types
--                 (Prelude/Equality), errors and rows of checks (Prelude/Errors), lists.
-- Id              id.go: ID, ParseID, newIDAt, Validate. Id/Generated is about newIDAt.
-- Strings         What the code uses of package strings (TrimSpace, ToLower), and validateSHA256 of
--                 policy.go.
-- Domain          domain.go: Zone, Classification, Budget, Workload, Step, Requirements, the
--                 transition tables and the Transition methods. Domain/Transitions is about the
--                 tables and about histories of transitions.
-- Model           model.go: ModelRef, ToolUseMode, ModelCapabilities, ModelDescriptor, Usage.
-- Message         model.go: ContentPart, Message, ToolDefinition, ModelRequest and their validation.
-- Turn            model.go: ToolCall, ToolCallDelta, StopReason, ModelError, ModelEvent and their
--                 validation.
-- Stream          provider.go and model.go: ModelStreamValidator and DrainStream. Stream/Protocol,
--                 Stream/Shape, Stream/Receiving and Stream/Drained are about these.
-- Catalog         provider.go: DiscoverModels.
-- Loop            loop.go: ToolOutput, LoopEvent, LoopResult, LoopRequest and their validation,
--                 NormalizeToolError, CloneModelRequest.
-- Engine          loop/engine.go: addUsage, exceededUsage, budgetFailure, contextResult, the emitter
--                 of loop events, assistantMessage and outputParts; Engine/Turns: consumeTurn;
--                 Engine/Tools: compileTools, executeTool, finalizeToolResult; Engine/Batch:
--                 executeBatch. Accounting, Budgeted, Steps, Reported, Ends and Settled are about
--                 these.
-- Lifecycle       lifecycle.go: the records of approvals, budgets and cleanups, and SpendBound.
-- Execution       execution_event.go: ExecutionRecord, with the records of sandbox.go and context.go
--                 in it, and what applyExecutionRecorded checks: Execution/Stages for all stages but
--                 the loop's, Execution/LoopStage for that, Execution/Recorded for the whole.
--                 Payload, LoopEvents and History are about these.
-- Projection      projection.go: the payloads, WorkloadProjection and its map of steps;
--                 Projection/Apply: the methods that apply an event, Replay of store.go and
--                 LoadWorkloadProjection. Applied, Steps, Coherent, Moves, Replayed and Incremental
--                 are about these.
-- Content         policy.go: ContentItem, ContentManifest, its class and its digest.
-- Policy          Policy/Requests and Policy/Scope: the requests, scopes and verdicts of policy.go;
--                 Policy/Evaluate: EvaluateExecutionPolicy and EvaluateDataEgressPolicy;
--                 Policy/Baseline: policy/baseline/policy.go. Policy/Equal, Policy/FailClosed and
--                 Policy/Authorized are about these.
-- Routing         routing.go: Routing/Request (weights, candidates, requests and their validation),
--                 Routing/Gates (candidateExclusion and EvaluateRoutingEligibility),
--                 Routing/Decision (scores, assessments, decisions, EvaluateRouter);
--                 router/deterministic/router.go: Routing/Deterministic. The other modules are about
--                 these: Bounds and Scores (arithmetic), Valid (what validation provides),
--                 Exclusions, Loop, Selection and Best (the choice), Assessments, Counts and Accepted
--                 (EvaluateRouter around the deterministic router).
-- Event           event.go: AggregateRef, EventDraft, Event, NewEvent.
-- Store           store/memory/store.go: Append and Load. Store/Streams, Store/Append and
--                 Store/Versions are about these.
-- X/Examples      The theorems of a part at concrete values.
--
-- Conventions. A Go method `T.Validate` is `validate_t`, into `Check`, where `ok tt` is nil. A
-- function that returns a value and an error is into `Result` where the value is of no use beside an
-- error, and else into `Answer`, the pair. An error keeps its sentinels, its fixed texts and its
-- wrapping; the values that a format prints into a message are left out. A string type with named
-- constants is a data type with one more constructor for any other text. A nil pointer or interface
-- is `none`. A panic is `none` too, in the functions that can raise one. Times and durations are
-- nanoseconds as integers, the zero time is 0, and `Sub` is held to the range of int64 as package
-- time does. `int` is 64 bits wide; sums that the code keeps small by tests are exact integers.
-- A context is what its successive `Err` calls return. A policy and a router are function
-- arguments, and so are crypto/sha256, json.Valid, and what NewID and the clock returned to the
-- store. Clone methods but CloneModelRequest are the identity, for these values share nothing. A
-- call of the store holds its lock while it works on the streams, so it is one step. A stream is a
-- function from the number of the call to what Recv returns. Loops are structural recursion over
-- their lists; DrainStream and consumeTurn alone have fuel, the number of calls of Recv, and 2^64
-- of it are enough for every stream, since an accepted event has the next number of a uint64 and
-- number 0 is refused. The decoders of encoding/json are arguments of a projection, and the JSON
-- schema compiler with its schemas is one of the tool calls. A tool and a middleware are functions
-- that are given the number of the call in its batch too, which with the turn names the one time
-- they run for it, so that what they return may be anything each time. They stand for those with a
-- state, in whatever order the goroutines of a parallel batch run the calls.
--
-- Not modelled: the SQLite event store, Run and closeTools of the turn loop's engine, the execution
-- engine with the calls of approvers and the reservation of budgets, recovery, context compaction,
-- the provider adapters, sandbox executors, tools and telemetry. Nil receivers of Apply, Accept and
-- Complete are left out, as the methods return an error there and do nothing else.
pub mod Prelude
pub mod Id
pub mod Domain
pub mod Strings
pub mod Model
pub mod Message
pub mod Turn
pub mod Stream
pub mod Catalog
pub mod Loop
pub mod Engine
pub mod Lifecycle
pub mod Execution
pub mod Projection
pub mod Content
pub mod Policy
pub mod Routing
pub mod Event
pub mod Store
