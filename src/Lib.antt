-- ===== src/Lib.antt =====
-- Eino Agent Extensions: trusted native extensions of an agent runtime, one Go package for each. The
-- host mounts a package on the runtime, which then calls it around the tools of an agent: some give
-- tools (askuser, backgroundjobs, pythonrepl, websearch, delegatetask), one guards tool calls
-- (commandguard), two change tool results (toolresultredactor, rtkreducer), one adds a section to the
-- prompt (workspaceinstructions). The packages share no state and no code; what several of them have
-- in common is a pattern, such as a coordinator that admits a bounded number of operations.
--
-- The library has a module for each part that is modelled.
--
-- - Prelude: names of the libraries, tests on numbers, lists over native numbers, byte strings.
-- - External: what the packages use of Go's text functions, as a record that models take.
-- - Context: a `context.Context` as its users see it, through the answers of `Err`.
-- - BackgroundJobs.Tail: backgroundjobs/tail.go. `tailWriter` is the record TailWriter; `Write` is
--   write, its two branches write_over and make_room with append_bytes; `snapshot` is held_bytes and
--   snapshot. Content, Append and Write say which byte of the stream stands in which slot, Stream
--   concludes about all writes.
-- - BackgroundJobs.Job: backgroundjobs/job.go. A step is one critical section of the job's goroutines;
--   the three parts of `finishTerminal` are the stages settled, reported and done. Invariant and Final
--   have the invariant of a job, Kept its marks, Alone the starts of its coordinator.
-- - BackgroundJobs.Manager: backgroundjobs/manager.go, the maps, the counters, `reserveStart`,
--   `pruneLocked`, the publication in `start`, `jobCompleted` and `Close`, over the steps of the jobs.
--   `pruneLocked` runs on fuel, one turn for each job in the map: a turn drops one.
-- - BackgroundJobs.Config: `validateLimits`, `effectiveEnvironment` and `retentionPolicies` of
--   backgroundjobs/config.go.
-- - BackgroundJobs.Supervisor: `parseSupervisorStatus` of backgroundjobs/supervisor.go.
-- - PythonRepl.Gate: `operationGate` of pythonrepl/session.go. A state is the gate and the phase of
--   each caller, a step is one critical section of `acquire` or of the release function.
-- - Admission: `acquire`, `release` and `Close` of askuser/coordinator.go. Identifiers are uint64 and
--   wrap at 2 ^ 64; a theorem about distinct identifiers bounds the number of calls by that.
-- - AskUser: Response has `mapResponse`; Coordinator has `ask`, its wait loop and `runResponder`, on
--   Admission. A turn of the loop reads what the select returned and the clock.
-- - ToolResultRedactor: Ranges has `mergeRanges` and the splice of `scanScalar`, Matchers the two
--   kinds of `matcher` of toolresultredactor/patterns.go, Scalar `scanScalar`, Fields `scanMetadata`
--   and `scanAttachments` of toolresultredactor/redact.go. A result of none is a fault, which is a
--   loop that does not end or an index out of range. The loop of `boundaryMatcher.find` runs on fuel,
--   one turn for each byte and one more: each turn passes a match of at least one byte. Structured has
--   `scanStructured` of json.go with its walker on the lexer of Json; its fuel is the bound on depth
--   and one, and for a loop the bound on nodes and one. Redact has `redact` and `redactChecked`, where
--   a fault of a scan is a panic that `redact` recovers from.
-- - WorkspaceInstructions: Render has the sink of workspaceinstructions/render.go, with the rolled back
--   checkpoints newest first, Content has `admitContent` and `displayPath` of discover.go.
-- - CommandGuard: Words and Options have the words and the options of wrapper commands, Wrappers has
--   `wrapperArguments` of commandguard/wrappers.go, Carriage has `maskCarriageReturns` of parser.go.
--   Syntax has the tree and `inspectNode` of syntax_policy.go, Decode has `decode` of words.go, Match
--   has match.go and the rest of wrappers.go, Walk has `walkScript` and `script`, where the calls of
--   `command` from each other run on fuel: each stands behind one wrapper more, so the bound on
--   wrappers and one is enough. Input has input.go, with a fuel of the bounds on depth and on nodes
--   and one, since each value is a level deeper and each turn of a loop takes a token. Guard has
--   `GuardTool` of guard.go.
-- - Json: the lexer that rtkreducer/json.go and toolresultredactor/json.go have in the same words. The
--   loops over bytes are recursions on the bytes behind a position.
-- - RtkReducer: Capture has rtkreducer/capture.go; a reader is the list of what its calls of `Read`
--   give. Json has `scanObjectStrings` of json.go, with a fuel of the bound on depth and one for the
--   values and of the bound on nodes and one for each loop over members or elements, since each turn
--   counts a node; Spans and Ends say where it comes to an end and what it leaves. Transform has
--   transform.go: Replace says what its patch does to a text, Results what each mode makes of a
--   result, Calls what a call does, Slots its slot. Lease has the coordinator and
--   the leases of process.go as a step relation.
-- - WebSearch: Bounds has `boundSources` of websearch/bounds.go, Config `validateLimits` and
--   `resultRetention` of websearch/config.go, Config/Encoded `boundAndEncode` of
--   websearch/coordinator.go, with the encoding of a string as a parameter.
--
-- A Go string or byte slice is a list of numbers. Go's int is a natural number where the code keeps
-- it at or above 0; a test on a difference that may be negative is written as one on a sum. A map is
-- the list of its keys or entries in the order in which they were put in or are visited. A mutex
-- makes each critical section one step. Compiled regular expressions and Go's text functions are
-- parameters, with what is used of them as hypotheses of the theorems.
--
-- Not modelled: the mount functions, the hashes of configurations and most of the validation of
-- options; the operating system's part (processes, pipes, files, virtual environments); the sessions
-- of pythonrepl; the rest of websearch; delegatetask. The parser of shell scripts and the decoder of
-- JSON tokens that commandguard calls are parameters.
pub mod Prelude
pub mod BackgroundJobs
pub mod PythonRepl
pub mod Admission
pub mod External
pub mod Context
pub mod Json
pub mod AskUser
pub mod ToolResultRedactor
pub mod WorkspaceInstructions
pub mod CommandGuard
pub mod RtkReducer
pub mod WebSearch
