-- ===== src/Lib.antt =====
-- reactifact is a runtime for agents that work on a shared store of typed, versioned artifacts.
-- Agents are woken by events on artifacts and answer with patches; each patch is applied and
-- recorded as a commit, and the log of commits can be replayed, rolled back, compacted and diffed.
-- This library models that core and states what holds of it.
--
-- The parts, and the files that model them:
--
-- - Prelude: the shared names, equality tests as an interface (Eq), Python's sets and dicts as
--   lists with their laws, and lists measured by native numbers.
-- - Model, Artifact, Operations, Commit (reactifact/interrupt.py, artifacts.py, operations.py,
--   commit.py): the data. A Pydantic model of an application is its class and an opaque text.
-- - RelationGraph (reactifact/relations.py): the edges between artifacts.
-- - CommitLog (reactifact/commit_log.py): Index is `_index_commit` and `_rebuild_indices`, Defs
--   the state with `append`, Replay `replay_state` and `replay_relations`, Rewind `_head_at`,
--   `truncate` and `compact`. Chain has the invariant of the log, and Lookup, Replayed,
--   Compacted and Versions what its operations keep.
-- - Context (reactifact/context.py, events.py): State, Store (`create`, `update`, `delete`), Query,
--   Inbox (questions, actions and the event queue), History (`log_commit`, the stale set,
--   `apply_commit`) and Rollback (`checkout`, `compact`, `diff`). TypeIndex, Listing, Staleness,
--   Soundness, Rebuilt, Rewound, Trimmed, Applied, Reachable, Checkout, Diffs and Queue are about
--   these.
-- - Trigger, Budget, Quota, Scheduler (reactifact/triggers.py, budget.py, quota.py, scheduler.py).
-- - Consume (reactifact/consume.py): the triggers and the inputs that an agent takes from what it
--   consumes; Correlated is `CorrelatedConsume`, and Wakes is about the first.
-- - Runtime (reactifact/runtime.py, agents.py): Counters is `_budget_exhausted`, Schedule the work
--   of a generation, Checks the checks on a patch, Patches `_apply_patch`, Outbox
--   `_drain_actions`, Generation `_arun_once_impl` and `_run_generations`. Replay, Limits, Outcome,
--   Delivery, Answers, Vetting and Reached are about these.
-- - Json: the values of Python's json module. Types (reactifact/types.py): the registry of the names
--   under which classes are saved.
-- - Codec: `to_dict` and `from_dict` of operations, commits, artifacts, events, edges, the log and
--   the context, in the files that these have above, over a Schema for what Pydantic and the
--   registry give. Objects, Roundtrip and Branches read back what is written.
-- - Persistence (reactifact/session.py, _persistence.py, checkpoints.py): Backends has the
--   interfaces of the stores and the store in memory, Save `save_append`, Load `load_append`,
--   Sessions `SessionStore`, Branches `BranchStore`. Snapshots, Extensions, Commits, Trees, Appended
--   and Isolation are about these.
-- - Branching (reactifact/branching.py): `clone_context`, `fork_context` and `merge_contexts`;
--   Adopt is `merge_context_from`. Verdicts, Plans, Merge and Kept are about the three-way merge.
-- - Audit (reactifact/audit.py): `build_report` with its walk along the edges. Fuel bounds its steps,
--   Reached and Walked have the invariant of its loop, and Report what it returns.
-- - Effects (reactifact/effects.py, patches.py): what a produce plans. Once and Answers are about
--   repeated effects and about answers.
-- - Llm (reactifact/providers/contracts.py): the contract of a provider. Cache is `CachingLLM`
--   (cache.py), Recording `ReplayLLM` (replay.py) with Lines for `splitlines`, Router `RouterLLM` (routing.py), Metered
--   `BudgetLLM` and `QuotaLLM` (budget.py, quota.py), Structured the attempts of structured.py with
--   Extract for `_extract_json` and Variants for its entry points. Calls has a provider whose replies
--   are any function of the calls so far. Laws, Totals, Windows, Attempts and Balanced are about
--   these.
-- - Policies: Guardrails (reactifact/guardrails.py) and Permissions (reactifact/authz.py); Screening,
--   Patterns, Granted and Vetted are about these, the last with the checks of the runtime.
-- - Tests: the theorems at concrete inputs.
--
-- The state of an object is a record that each operation takes and returns. A raised exception is
-- the error of a Result. New ids, the clock, an agent's code, the policies and the dispatcher of an
-- application are arguments: a function from a count, a Boolean for each reading of the deadline,
-- and so on. A turn runs over a number of generations that the caller gives, which is the source's
-- own limit, and not a fuel of the model: at zero the outcome says so, as in the source. The walk of
-- an audit report runs on fuel; one more than the number of edges is enough, since each step takes
-- an artifact from the queue, and each edge puts one there at most once. A provider of language
-- models is a function on a state of the world, and a wrapper around it adds its own state; a stream
-- is the list of the chunks that its caller has consumed.
--
-- The agents of one generation run in the order of the work, which is the order in which the source
-- gathers their results; it dispatches them concurrently, on a context that none may change.
--
-- Not modelled: timestamps and memoised dictionaries, the stores in files and databases, tracing,
-- metrics, chat, sources and web, the tool loops of agents, and the adapters to services. They do
-- I/O or belong to the application, and the core is given their results. Hashes, JSON texts, regular
-- expressions, redactors and the fields of an application's models are parameters.
pub mod Prelude
pub mod Model
pub mod Operations
pub mod Commit
pub mod Artifact
pub mod RelationGraph
pub mod Result
pub mod CommitLog
pub mod Context
pub mod Trigger
pub mod Consume
pub mod Budget
pub mod Runtime
pub mod Branching
pub mod Quota
pub mod Scheduler
pub mod Json
pub mod Types
pub mod Codec
pub mod Persistence
pub mod Audit
pub mod Llm
pub mod Policies
pub mod Effects
pub mod Tests
