-- ===== src/Lib.antt =====
-- Verification library of lore_eden: models of python/lore_eden and theorems about them.
--
-- The program is a library for running pieces of work through workflows. A workflow is a list of
-- stages with transitions. A work item's cursor moves along it by `advance`, which asks the state
-- machine for a route; a human or a machine answers gates on the way through `GateService`, which
-- stores the answer in an `Approval` and moves the cursor. Around this stand the work-item engine
-- (hierarchy and dependencies), an append-only ledger of events, a record of usage, and a cache of
-- derived reads that the engine, the ledger and the usage totals share. `StageRunner` puts the parts
-- together for one stage: it builds an agent's command line, runs the agent under the permission
-- bridge, reads its report, evaluates the gates on its work and moves the cursor. A JSON-RPC handler
-- serves tools to agents, and a registry records the other servers that they may call.
--
-- Where what is modelled stands, by file of this library and path in the repository:
--   Workflow/Models, Workflow/Terminal: python/lore_eden/workflow/models.py and terminal.py.
--   Workflow/Templates: `expand_checklist` of workflow/templates.py.
--   Workflow/Order, Transitions, Routing: `StateMachine` of workflow/state_machine.py. A transition
--     is the dict that the code reads, as a record of texts, "" for a key that is missing.
--   Workflow/Dispatch: `start`, `advance` and `block` of workflow/dispatch.py.
--   Workflow/Approvals, Workflow/GateService: approvals.py and gate_service.py of workflow. The
--     host's cursor reader, writer and resume hook, and its JSON, are the fields of `Host`; these
--     callbacks change the host's cursors and do not touch the store of approvals. An
--     `Approval` is mutated in place by the code and saved under its id right after; the model
--     writes both as one change of the store.
--   Cache: `Cache`, `NullCache`, `DictCache` and the derived reads of python/lore_eden/cache.py. The
--     protocol is a record of operations on a state, and the two caches are its implementations. What
--     `str` makes of an argument is a field of the read.
--   Ledger, Ledger/Audit, Ledger/Cached: python/lore_eden/ledger.py over `InMemoryLedgerStore` of
--     python/lore_eden/store/memory.py. The canonical JSON text of an event and SHA-256 are fields of
--     `Hashing`; `compute_checksum` puts them together. `append_to_store` is what `Ledger.append` does to
--     the store, and takes what other writers do between any two of its calls of the store, in each of
--     its two attempts, as `Writers`. `append` adds what it does to the cache.
--   Usage: python/lore_eden/usage.py over `InMemoryUsageStore`. `totals` and `record` run over any
--     cache that meets the interface `Serves` of Usage/Serving; Usage/Cached fills it twice. The
--     text of a moment (`isoformat`) is a parameter.
--   WorkItems/Dependencies: `add_dependency`, `remove_dependency` and `_reaches` of
--     python/lore_eden/work_items.py over `InMemoryDependencyStore`.
--   WorkItems/Hierarchy: `StateVocabulary` and `save` of the same file, over `InMemoryWorkItemStore`
--     and the records of python/lore_eden/store/records.py.
--   Store/Cursors: python/lore_eden/store/cursors.py, `CursorRecord` and `InMemoryCursorStore`.
--   Service/Pagination: python/lore_eden/service/pagination.py.
--   Workflow/Gates: python/lore_eden/workflow/gates.py. Gates/Shell runs one command, Gates/Config finds
--     the commands of a stage, Gates/Ansi strips terminal codes; Gates/Spec says as a relation what
--     an evaluation means. Processes, files, shlex and str.format are the fields of `Machine`, over a
--     world that each process changes. A command ends, times out, cannot be started, or raises.
--   Agents: Invocation (agents/invocation.py), Protocol, Policy, Process and Bridge (the files of the
--     same names) and Outcome, the results of the last two. The read loop of Process takes its rounds
--     as a list of ticks: what the queue gave, the clock, and the reading of `cancelled()`. The hard
--     cap's multiple of the idle timeout, a float in the code, is a function of the timeout. Bridge
--     takes JSON, the policy and the pipe to the agent as the fields of `Wiring`.
--   Runner: Registry (python/lore_eden/runner/registry.py), Report (report.py, with the pattern of the
--     report line as a scanner in Report/Pattern), and Setup and Stage (stage_runner.py): the records, and
--     `run_stage` over the models of the gates, the dispatcher and the agents. The bridge's run, the
--     prompt and its file are fields of `Host`.
--   Mcp: Tools and Protocol (python/lore_eden/mcp/tools.py and protocol.py); a tool runs in a world of the
--     host's, `ToolHost`. Mcp/Servers and Mcp/Servers/Models: registry.py and models.py of
--     python/lore_eden/mcp/servers, over the rows of a session; an object that is changed is seen changed before it is committed, and each
--     operation returns the rows with its answer, also when it raises. Mcp/Servers/Clients is what
--     clients are given.
--   Prelude: Python's dicts (entries in insertion order), sets and sorting of texts, integers and their
--     decimal texts, `str.strip` and `str.lower` on ASCII, decoded JSON, results that may be an error,
--     and the list lemmas that the parts share. A module with the name of what it proves stands under
--     each part, and each part's Examples has its test data.
--
-- Conventions. Python's `None` is `none`; an exception is `raised` with a value of the part's error
-- type. A method that changes an object takes its state and returns the next one. Integers that may
-- be negative are the `ℤ` of Prelude/Int, and counts, moments and sequence numbers are ℕ. Sets are lists in
-- which only membership is read. Enum members are constructors, and texts where the code compares texts.
--
-- Loops are structural recursion, with two exceptions. The digits of a number run on fuel, the number
-- itself and one more, since each digit divides it by ten. The search of `_reaches` runs on fuel, one more than
-- the number of edges and one for the start: each round but the first sees a prerequisite that was
-- not seen, and each of those is the end of an edge.
--
-- Not modelled: instances, security, testing, the rest of service and of mcp, which are glue around
-- processes, sockets, files and web frameworks; the health check that dials MCP servers; the thread that
-- pumps a process's output and how a process is ended; prompts.py; the environment of a process
-- (`scrubbed_git_env`, `claude_oauth_env`, `environment_for`) and `as_shell`; `explain` of the runner; the
-- telemetry callback of the bridge; exceptions of the file system and those of JSON other than a text
-- that does not decode; the SQL stores and migrations; confidence.py, trend.py and similarity.py, which
-- compute with floating-point numbers; the JSON readers of workflow stages, transitions and templates;
-- subtrees and roll-ups of work items; `group_by_key` of usage; the run, cycle, tag and relation
-- stores; dot_line.py; the gates directory, a tool of the repository, and the TypeScript sources in ts.
pub mod Prelude
pub mod Workflow
pub mod Cache
pub mod Ledger
pub mod Mcp
pub mod Usage
pub mod WorkItems
pub mod Store
pub mod Service
pub mod Agents
pub mod Runner
