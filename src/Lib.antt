-- ===== src/Lib.antt =====
-- adk-js: a model of the core of the Agent Development Kit for TypeScript (core/src), with proofs.
--
-- The kit runs agents and workflows over sessions. A session is a history of events with a state;
-- an event carries content and a delta of the state. Agents write the state through `State`, events
-- commit the deltas to the session in a session service, compactors shorten the history before a
-- model reads it, a workflow graph says which node runs next, queues join producers to consumers,
-- plugins and features change what runs, artifacts keep files in versions, and a guard says which
-- addresses a fetch must not reach.
--
-- Files, and the code that they model (paths from core/src):
--   Prelude     shared tests, lists, sets of names, objects with string keys, prefixes of texts
--   LiveQueue   agents/live_request_queue.ts: `LiveRequestQueue`; promises are numbers
--   AsyncQueue  utils/async_queue.ts: `AsyncQueue`
--   Workflow    workflow/graph.ts (Workflow/Graph), workflow/utils/graph_validation.ts
--               (Workflow/Validation), workflow/branch_path.ts (Workflow/Branch), and the loop of
--               workflow/workflow.ts (Workflow/Run): Run/State is its state, Run and Run/Loop are its
--               operations, and what is below proves what the loop keeps. Workflow/Rehydration is
--               workflow/utils/rehydration_utils.ts, which recovers earlier runs from events
--   Event       events/event.ts, events/compacted_event.ts, events/event_actions.ts
--   Compaction  context/compaction_utils.ts, and in Compaction/Truncating, ThoughtPruning and
--               TokenBased the compactors truncating_context_compactor.ts,
--               trajectory_thought_pruning_compactor.ts and token_based_context_compactor.ts;
--               Compaction/Summarizer is context/summarizers/llm_summarizer.ts
--   Session     sessions/session.ts, state_write_order.ts and base_session_service.ts; Session/State
--               is sessions/state.ts, Session/InMemory is sessions/in_memory_session_service.ts
--   Failover    utils/failover_utils.ts: `runWithRouting`
--   Features    features/feature_registry.ts
--   Artifacts   artifacts/in_memory_artifact_service.ts
--   Plugins     plugins/plugin_manager.ts
--   SsrfGuard   utils/ssrf_guard.ts; texts and numbers of addresses are in SsrfGuard/Parse
--
-- A function has the name of the source's function in lower case with underscores. An object that
-- changes is a record that is passed along and given back; a thrown error is `none` or a value of a
-- type of its own; a synchronous method is one step, and an interleaving is a list of steps. Times
-- and counts are natural numbers; where the source subtracts and tests the sign, so does the model.
--
-- The loop of a workflow is a relation on its states before each race: it begins, and then any pending
-- task completes, with any result that it can have. `Loop.complete_round` is one round.
--
-- Loops: the search from START has two steps of fuel more than there are edges, since every edge puts
-- a name on the stack at most once; the cycle check has one more than there are names, since a path
-- repeats none; the failover loop has one for each item, since no key is tried twice. The iterator of
-- the live queue runs as long as its caller reads, so its fuel is an argument.
--
-- Parameters: the types of @google/genai, the model of the summarizer, the fields of a schema, the router and the
-- items of a failover, the environment, `encodeURIComponent`, the callbacks of plugins, the values of a
-- workflow and the results of its nodes, `localeCompare`, `isIP` of node:net and the lookup of node:dns.
-- The answers to interrupts that `resolvedInterruptResponses` accepts are an argument.
--
-- Not modelled: calls of models, of databases and of remote tools; telemetry and logs; conversion of
-- schemas; the runner, the agents, the runs of nodes in a workflow, and its dynamic entries; listings
-- of artifacts.
pub mod Prelude
pub mod LiveQueue
pub mod AsyncQueue
pub mod Workflow
pub mod Event
pub mod Compaction
pub mod Session
pub mod Failover
pub mod Features
pub mod Artifacts
pub mod Plugins
pub mod SsrfGuard
