-- ===== src/Lib.antt =====
-- gist-agent answers questions about data in conversations. The API (apps/api) accepts a question and
-- makes a generation; a worker (apps/worker) claims it, runs the analysis, publishes events and ends
-- it; the web client (apps/web) follows the events. They share the tables of packages/database and the
-- types of packages/contracts.
--
-- The files:
-- - Base: tests, lists, tables as lists of rows with the statements that the queries use, results of
--   transactions, texts.
-- - Contracts: packages/contracts/src, the statuses, error codes and events; Contracts/Parsing, the
--   readers of jobs and terminal payloads in index.ts.
-- - Database, Database/Outbox: packages/database/src/schema.ts, generation-events.ts
--   (enqueueGenerationEvent) and analysis-state-schema.ts (promoteAnalysisDraft).
-- - Turns, Turns/History, Turns/Idempotency: apps/api/src/chat/generation.service.ts, createTurn,
--   cancel, retry and history.
-- - Worker, Worker/Publishing: apps/worker/src/chat/generation.service.ts, claim, heartbeat,
--   isCancelRequested, finalize; publish, markFirstDelta, checkpointMessage, failQueued, failStale.
-- - Worker/Buffer, Worker/Coalescing: apps/worker/src/chat/text-event-buffer.ts. Worker/Semaphores,
--   Worker/Limits: apps/worker/src/chat/generation-reliability.service.ts. Worker/Answer,
--   Worker/Showing: apps/worker/src/analysis/response-text-stream.ts.
-- - Worker/Run, Lifecycle/Running, Lifecycle/Settling: apps/worker/src/chat/chat.service.ts and
--   generation-errors.ts, executeGeneration and the end of runGeneration.
-- - Lifecycle and its children: the system as steps of the API and the workers, each one transaction
--   or statement, in any order; what stays true along them, and what a client that reconnects is sent.
--   The steps are those of turns and workers; Lifecycle/Courses has them together with the removals of
--   conversations, which delete generations.
-- - Client and its children: apps/web/src/stores/chat.ts, applyEvent, applyBlock, resync.
-- - Sql and its children: apps/worker/src/chat/tools/sql-executor.ts, validateTableScopes and
--   rejectForbiddenFunctions, over any tree that the SQL parser may make.
-- - Relay and its children: apps/api/src/chat/outbox-relay.service.ts, publishEvent and its Redis
--   script, and the rows that a round of dispatch takes.
-- - Memory and its children: packages/database/src/memory-repository.ts, every operation of
--   MemoryRepository (Memory/Writing, Memory/Reading, Memory/Candidates, Memory/Decisions), over the
--   tables of memory-schema.ts; Memory/Policy: relatedMemories of memory-policy.ts.
-- - Accounts and its children: apps/api/src/auth/auth.service.ts, every operation.
-- - Analysis and its children: apps/worker/src/analysis/analysis-state.ts and
--   tool-arguments.ts, the state of an analysis and patchAnalysisState.
-- - Conversations: apps/api/src/conversation/conversation.service.ts, every operation;
--   Conversations/Removal, Conversations/References: remove.
-- - Tests: the theorems at concrete data.
--
-- A transaction is a function from the tables to the new tables or a fault; a fault leaves the tables
-- as they were. Identifiers are natural numbers (texts where a
-- message is parsed), times are milliseconds, and the values that the code
-- draws (identifiers, the clock, settings of the environment) are arguments. JSON that no modelled code
-- looks into is a text. `claim` is three statements and no transaction: its statements are three
-- separate steps. All recursion is structural, so no fuel is needed.
--
-- Texts are of characters; their lengths and cuts are in units of UTF-16, but a cut never halves a
-- character. Queries of one call that is no transaction read the same tables (history, findOne and the
-- statements after it).
--
-- Not modelled: Redis and HTTP transport, the LLM and its prompts, the views and mail; the
-- reading of a message by regular expressions (parseMemoryIntent); data sources and artifacts.
mod Base
pub mod Contracts
pub mod Database
pub mod Turns
pub mod Worker
pub mod Lifecycle
pub mod Client
pub mod Sql
pub mod Relay
pub mod Memory
pub mod Accounts
pub mod Analysis
pub mod Conversations
pub mod Tests
