-- ===== src/Lib.antt =====
-- neuralhub: an agent platform. A conversation loop lets a language model call tools; sub-agents
-- work on tasks of a plan through a queue. This library models the parts of backend/ that decide
-- what may run, in which order, how often, and what a provider gets to see.
--
-- The parts, and how they interact:
--   Types          backend/common/types: messages, tool calls, results, definitions, policies.
--   Tools.Registry backend/core/s02_tools/registry.py: the tools by name.
--   Tools.Gate     backend/core/s02_tools/security_gate.py: `authorize` signs the calls that the
--                  policy and the registry permit, and `verify` accepts a signature once.
--   Tools.Executor backend/core/s02_tools/executor.py: `ToolExecutor`, single calls and batches.
--   Tools.Batching backend/core/s01_agent_loop/tool_batching.py: the calls of a turn split by side
--                  effect, and their results merged.
--   Agents.Stages  backend/common/types/sub_agent.py: `resolve_stages` orders tasks by their
--                  dependencies.
--   Agents         and of backend/core/s04_sub_agents: static_dag.py (`Dag`), result_contract.py
--                  (`Contract`), readonly_guard.py (`ReadonlyGuard`), permission_policy.py
--                  (`Permissions`, whose executors go through the guard),
--                  dynamic_orchestrator.py (`Waves`).
--   Loop           backend/core/s01_agent_loop: failure_recovery.py (`Failures`, `Recovery`),
--                  tool_review.py (`Review`), agent_loop_approval.py (`Approval`),
--                  agent_loop_guard.py (`Guard`), message_queue.py (`Queue`),
--                  compaction_writeback.py (`Writeback`), streaming.py (`Response`), and of
--                  agent_loop_run.py the answering of the calls of a response (`Turn`, which puts
--                  recovery, gate, review, approval, batching and executor together) and the run
--                  with its iterations and its ends (`Run`).
--   Plan.Phase     backend/core/s01_agent_loop/plan_state_machine.py: the phases of a plan.
--   Cron           backend/core/s07_task_system/cron_scheduler.py: the registration of jobs, and
--                  one tick over them.
--   Adapters       backend/adapters/resilient_adapter.py: `Breaker` is `CircuitBreaker`, and
--                  `Resilient` has `complete` and `stream` of `ResilientLLMAdapter`.
--   TaskQueue      backend/core/task_queue*.py over backend/storage/sub_agent_task_store.py and
--                  sub_agent_capacity_store.py: `Store` has the transactions on the table, `Queue`
--                  the state in Redis and the operations (`Submit`, `Claim`, `Terminal`, `Recover`,
--                  `Cancel`), which call the transactions where a table is there, the rounds of
--                  a wait (`Wait`) and the counts of task_queue_stats.py (`Stats`).
--   History        backend/common/message_history.py (`Sanitize`), and of
--                  backend/core/s06_context_compression: boundary.py (`Boundary`),
--                  summary_helpers.py and token_counter.py (`Summaries`), compressor.py
--                  (`Compressor`), level1_artifact.py, level2_compact.py and the second level of
--                  layered_compressor.py (`Level2`); and of backend/core/s01_agent_loop: agent_loop_orphan.py
--                  (`Orphans`), message_history.py and checkpoint.py (`Checkpoints`).
--   Base           lists, texts, dictionaries and results; the exceptions of
--                  backend/common/errors.py.
--   Tests          runs and theorems at small inputs.
--
-- A text is the list of its code points, a dictionary an association list in insertion order, a
-- time a number of ticks, and a `raise` a value of `Result`. An operation takes the state and gives
-- the new state with its answer; `await` does not interleave other operations inside it, and a
-- theorem that is about several workers has their operations as a sequence of steps.
--
-- The loop of `resolve_stages` has a bound, the number of tasks: each round takes a role out, and
-- `resolve_stages_ends` shows that the bound is enough. The read-only guard calls itself on the
-- commands inside a command; its depth is bounded by the length of the command, and `guard_depth`
-- shows that every larger bound gives the same answer. A run of the loop has as many iterations as
-- the configuration says. A wait for tasks is modelled by its rounds, and all other loops go over a
-- list.
--
-- What comes from outside during a run of the loop is an argument: for each iteration the response
-- or the exception, the texts that the user types, the approvals and aborts that arrive, what the turn
-- has done when it is stopped, and the runs of the compressors, which `Writeback` composes.
-- `Run.Compacted` says of an iteration that it needs no summary; then the answer is the second
-- level's. The loop of the second level is bounded by the number of results without an artifact, and
-- `check_and_compact_done` shows that it ends for a reason of its own; whether writing a file raises
-- there is an argument.
--
-- Parameters: HMAC, SHA-256, JSON, regular expressions, `shlex.split`, `str.lower` and the printing
-- of numbers, the validation of pydantic models, the answers of the providers, of the tools and of
-- the runners of sub-agents, `croniter` and the callbacks of its jobs, the readings of the clock,
-- fresh ids, the logging context of a submission and the database's message. Not modelled: failures
-- of Redis and of the database, expiry of Redis keys, events, logging and metrics; the plan runner,
-- orchestrator.py, the third level of the compression, the stored schedules and the task that repeats
-- the ticks of the cron scheduler, the HTTP interface, the storage of other data and the user
-- interfaces.
pub mod Adapters
pub mod Agents
pub mod Base
pub mod Cron
pub mod History
pub mod Loop
pub mod Plan
pub mod TaskQueue
pub mod Tests
pub mod Tools
pub mod Types
