-- ===== src/Lib.antt =====
-- deepagent: a Go library for agents that answer by calling a language model in a loop, run the
-- tools that the model asks for, and ask a human before the dangerous ones.
--
-- The parts, and the files that model them:
--   * The run loop, `Graph.Run` (agent/graph.go, agent/types.go, agent/error_codes.go, and
--     `ShouldInterrupt` of agent/hitl.go), in Agent/Graph.antt and its children: Calls has the
--     body of the loop over the tool calls, Turns the turns and the run. The model, the tools, the
--     approver, the checkpointer and the memory are functions of a world that the run passes on,
--     and what the run does to its surroundings is kept as a list of actions, newest first. The
--     checkpointer's, the logger's and the event sink's failures are dropped by the source, so
--     they are not seen. Rules, Approval, Accounts, Answers, Outcome, Keeps,
--     Continuity, Trail and Termination are proofs.
--   * The audit log of human decisions (agent/hitl_audit.go), in Agent/Audit.antt: Logger is
--     `FileHITLAuditLogger`, on a file of lines that end in a line feed and the rest behind them, with
--     the system calls that succeed as an argument; a write that fails may leave part of its text,
--     cut between code points. Verify is the lenient and the strict verification. JSON and SHA-256 are
--     parameters, with what is relied on as hypotheses. The run loop drops the logger's errors,
--     and records the entries as actions. Lines, Chain, History, Tamper, Strict, Forget and
--     Written are proofs, and Trail puts the logger together with the run loop.
--   * The checkpointer (agent/checkpointer.go), in Agent/Checkpointer.antt, on a disk that is a map
--     of paths, where a write may stop after part of its text. The run loop has its own, abstract checkpointer; Runs puts the two together.
--   * The schemas (llms/schema.go), in Llms/Schema.antt, on the kinds of Go types of
--     Llms/GoType.antt. The run loop passes them to the model and to the validation.
--   * Validation of tool arguments (tools/validation.go), in Tools/Validation.antt (validators and
--     the wrapped tool) and Tools/Validation/Schema.antt (`ValidateAgainstSchema`), on the values
--     of Tools/Value.antt; Tools/Validation/JsonSchema.antt has the validator of
--     tools/jsonschema_validator.go, on the library that it calls as a parameter. Laws is the proof,
--     and Generated and Structs are those for the schemas that llms/schema.go generates.
--   * The sandbox of the `execute` tool (tools/builtin/sandbox.go), in Tools/Sandbox.antt: Config
--     is the configuration from the environment, Images the list of images, Build the commands of
--     the modes, Execute the call with its checks and policies. The operating system is a record
--     of functions, and the commands that run are kept in a list. Words, Contained, Confined and
--     Output are proofs.
--   * The in-memory store (memory/redis_inmemory.go), in Memory.antt, which proves its laws too.
--     Memory/Contract.antt has the operations of a store on a world, and what is used of them to
--     compare two stores.
--   * The file tools (tools/builtin/fs/), in Tools/Files.antt, on any backend, with the backend in
--     memory on the maps of Memory.antt. Laws and Keeps have what the tools rely on and the proofs. The
--     backend on a disk (disk.go) is in Tools/Files/Disk.antt; Below is the proof.
--   * The event stream, `Stream` (agent/deepagent.go), in Agent/Stream.antt: a run with a sink, and
--     a channel of 32 events between the goroutine and its reader, whose moves come in any order.
--     The events do not depend on the reader, so the run is computed first and then sent. Last,
--     Delivery and Progress are proofs.
--   * The approvers (agent/hitl_http.go and `consoleApprover` of agent/hitl.go), in
--     Agent/Approvers.antt, as functions that the run loop's graph takes. JSON, net/http with the
--     client's timeout, and lower case beyond ASCII are parameters. Human has `HumanInTheLoop` with
--     the console as its default; Http and Gate are proofs.
--   * The sub-agents (agent/subagent.go), in Agent/Subagent.antt: the `task` tool on the parent's
--     backend, with the run of the sub-agent as a function of the world. Agent/Create/Spawn.antt makes
--     that function of the agent's own options. Names, Plain, Task and Keeps are proofs.
--   * `CreateDeepAgent` (agent/deepagent.go, agent/options.go), in Agent/Create.antt: the audit log at
--     the start, the defaults and the graph, on parts that other files make. Create/Toolkit.antt has
--     the built-in tools, which Tools/Toolbox.antt makes with their schemas, and Create/Spawn.antt the
--     sub-agents, which have sub-agents in turn down to a depth; Create/Quiet.antt and
--     Create/Confined.antt are the proof that puts the agent, its tools and the sandbox together.
--   * The model of an agent and its map of tools (`buildDefaultLLM`, `inferProviderFromModel` and
--     `allTools` of agent/deepagent.go, and `buildGraph`), in Agent/Construction.antt, on the
--     providers of Llms. Provider, Registry and Keeps are proofs.
--   * The model providers: llms/anthropic in Llms/Anthropic.antt (Conversation and ToolResults are
--     proofs); llms/openai, llms/groq and llms/ollama in Llms/OpenAi.antt, on the client of the
--     package go-openai as a parameter. The texts of tool messages come from the run loop.
--   * The loggers (agent/logging.go and agent/json_logger.go), in Agent/Logging.antt, on events whose
--     times and rates are formatted.
--   * The metrics (agent/metrics_prometheus.go, agent/metrics_helpers.go,
--     agent/metrics_http_prometheus.go and their stubs) with the logger that the graph takes by
--     default, in Agent/Metrics.antt, on the Prometheus client as a parameter. Counts is the proof.
--   * The store on Redis (memory/redis_store.go), in Memory/Redis.antt, on a client that is a
--     parameter, and the store in SQLite (memory/sqlite_store.go), in Memory/Sqlite.antt, with the
--     texts of its statements, on a driver that is a parameter. Their Refinement is the proof against the in-memory
--     store.
--   * The store on disk (memory/store.go) and the choice of a store (memory/memory_store_factory.go),
--     in Memory/Files.antt. Paths, RoundTrip and Refinement are the proofs for the file store.
--   * The calls of the other built-in tools (tools/builtin/execute.go, write_todos.go and skills.go),
--     in Tools/Builtin.antt, with the sandbox that `execute` gets in Tools/Sandbox/Inner.antt; and
--     the tools of functions and the timeout wrapper (tools/tool.go), in Tools/Wrapping.antt.
--   * The program that verifies an audit file (cmd/deepagent-audit/main.go), in Cmd.antt; Cmd/Accepts.antt
--     puts it together with the logger and the verification.
-- Base.antt and its children hold what these share: tests on numbers, lists, and Go strings as
-- lists of code points with the functions of the package `strings` that are used, decimals, and the
-- paths of path/filepath on Unix, with their laws in Base/Path/Laws.antt and Base/Path/Pieces.antt.
--
-- Bounds: the run loop is a recursion on 21 units of fuel, since the source's loop makes at most 20
-- rounds and needs one more test to leave; Agent.Graph.Termination shows that it is enough. The
-- search for the name of a result file counts the 9998 rounds of the source's loop. All other loops
-- but that of `redisStore.List` are over lists; that one runs until the server's cursor is 0, and has
-- fuel as an argument. Go's `int` counters are natural numbers: none is near its bound, and
-- the iteration of a checkpoint is taken not to be negative, since no code writes a negative one.
-- Theorems on sub-agents hold at every depth.
-- A map is the list of its entries; where Go's order of visiting it decides which of several errors
-- is reported, the list's order is taken. Durations and time stamps of the logs are left out.
--
-- Not modelled: the example program (examples/research.go); the help texts and buckets of the
-- metrics; and the clients of the databases, of Prometheus and of the JSON schemas, which are calls of
-- other packages and parameters here.
pub mod Base
pub mod Tools
pub mod Agent
pub mod Llms
pub mod Memory
pub mod Cmd
