-- ===== src/Worker/Run.antt =====
-- apps/worker/src/chat/chat.service.ts and generation-errors.ts: one execution of a generation, from the
-- claim to the end. What the analysis did is an argument; so is what other processes do to the tables
-- between the transactions of this one, and the rendering of blocks as JSON.
use gist_agent.Base.{
  ℕ, String, Option, none, some, Bool, true, false, not, ◌&&◌, List, [], ◌∷◌, ◌++◌, ◌==◌,
  if◌then◌else◌, is_some, or_else, first_where, Result, ok, err, ◌>>=◌,
}
use gist_agent.Contracts.{
  Status, completed, failed, cancelled, is_terminal, is_completed, is_cancel_requested, is_pending,
  ConversationEvent, error,
}
use gist_agent.Contracts.Errors.{ErrorCode, writer_ownership_lost, internal_error}
use gist_agent.Database.{Generation, Tables, Fault}
use gist_agent.Worker.{Writer, MessageState, done_event, claim, finalize, is_cancel_wanted}

-- What code throws: a `GenerationExecutionError`, or anything else, by its message.
pub data Thrown : Type 0 where
  execution_error : ErrorCode → String → Thrown
  other_error : String → Thrown

pub record Normalized : Type 0 where
  pub code : ErrorCode
  pub message : String

-- `normalizeGenerationError`.
unfoldable pub normalize_generation_error : Thrown → Bool → Bool → Normalized
normalize_generation_error (execution_error code message) ownership_lost aborted = record {
  code = code;
  message = message;
}
normalize_generation_error (other_error message) ownership_lost aborted =
    if ownership_lost
    then record { code = writer_ownership_lost; message = "生成任务写入权已丢失" }
    else if aborted
    then record { code = ErrorCode.cancelled; message = "已取消" }
    else record { code = internal_error; message = message }

-- What has come of the check before `runGeneration` (the request's message, the ownership) and of
-- `analysisRuntime.run`: what it threw, the reason of the abort signal where it is
-- aborted, and the blocks and messages that it has left.
pub record Execution : Type 0 where
  pub started : Result Fault (Unit {0})
  pub thrown : Option Thrown
  pub reason : Option Thrown
  pub ownership_lost : Bool
  pub timed_out : Bool
  pub drained : Result Fault (Unit {0})
  pub blocks : List ConversationEvent
  pub llm_messages : String

-- The cause that the catch clause takes: where the signal is aborted its reason, and else what was thrown.
abbrev pub cause_of : Execution → Option Thrown
cause_of x = or_else x.reason x.thrown

pub record Ending : Type 0 where
  pub status : Status
  pub detail : Option String
  pub code : Option ErrorCode
  pub terminal : ConversationEvent
  pub blocks : List ConversationEvent

abbrev pub is_cancelled_code : ErrorCode → Bool
is_cancelled_code ErrorCode.cancelled = true
is_cancelled_code _ = false

-- `{ type: 'error', content, errorCode }`.
abbrev pub error_block : String → ErrorCode → ConversationEvent
error_block message code = record (done_event failed none (some code)) {
  type = error;
  content = some message;
  status = none;
}

unfoldable pub failure_of : Normalized → List ConversationEvent → Ending
failure_of n blocks = record {
  status = if is_cancelled_code n.code then cancelled else failed;
  detail = some n.message;
  code = some n.code;
  terminal =
      if is_cancelled_code n.code
      then done_event cancelled none (some n.code)
      else done_event failed (some n.message) (some n.code);
  blocks = blocks ++ error_block n.message n.code ∷ [];
}

-- How the generation is to end.
unfoldable pub ending_by : Execution → Option Thrown → Ending
unfolding normalize_generation_error failure_of
ending_by x none = record {
  status = completed;
  detail = none;
  code = none;
  terminal = record (done_event completed none none) { status = none };
  blocks = x.blocks;
}
ending_by x (some cause) =
    failure_of
      (normalize_generation_error cause x.ownership_lost (is_some x.reason && not x.timed_out))
      x.blocks

unfoldable pub ending_of : Execution → Ending
unfolding ending_by
ending_of x = ending_by x (cause_of x)

-- `['ANALYSIS_STATE_CONFLICT', 'ANALYSIS_DRAFT_MISSING'].includes(error.message)`.
abbrev pub is_state_fault : Fault → Bool
is_state_fault Fault.draft_missing = true
is_state_fault Fault.state_conflict = true
is_state_fault _ = false

-- The failure that replaces a completion whose draft cannot be promoted.
abbrev pub conflict_detail : String
conflict_detail = "分析状态提交冲突，本轮草稿未提升；请重新发起分析"

unfoldable pub conflict_ending : Ending → Ending
conflict_ending e = record {
  status = failed;
  detail = some conflict_detail;
  code = some internal_error;
  terminal = done_event failed (some conflict_detail) (some internal_error);
  blocks = e.blocks ++ error_block conflict_detail internal_error ∷ [];
}

unfoldable pub cancelled_ending : Ending → Ending
cancelled_ending e = record {
  status = cancelled;
  detail = none;
  code = some ErrorCode.cancelled;
  terminal = done_event cancelled none (some ErrorCode.cancelled);
  blocks = e.blocks;
}

-- What one call of `finalize` draws.
pub record Draw : Type 0 where
  pub event_id : ℕ
  pub now : ℕ

-- `{ blocks, llmMessages: turnMessages }`.
abbrev pub state_to_write :
    (List ConversationEvent → String) → Execution → Ending → Option MessageState
state_to_write to_json x e =
    some
      (record { blocks = e.blocks; blocks_json = to_json e.blocks; llm_messages = x.llm_messages })

module _ (others : Tables → Tables) (to_json : List ConversationEvent → String) (w : Writer)
    (x : Execution) where
  unfoldable pub finalize_with : Ending → Draw → Tables → Result Fault (Bool × Tables)
  unfolding finalize
  finalize_with e d db =
      finalize w e.status e.detail e.code e.terminal (state_to_write to_json x e) d.event_id d.now
        db

  -- The last block of `runGeneration`: a completion that a cancellation has overtaken.
  unfoldable pub settle : Ending → Draw → Bool × Tables → Result Fault (Bool × Tables)
  unfolding finalize_with cancelled_ending is_cancel_wanted
  settle e d (ended, db) =
      if not ended && is_completed e.status && is_cancel_wanted w.id (others db)
      then finalize_with (cancelled_ending e) d (others db)
      else ok (ended, db)

  -- What follows the first call of `finalize`.
  unfoldable pub after_first :
      Ending → Draw → Draw → Tables → Result Fault (Bool × Tables) → Result Fault (Bool × Tables)
  unfolding finalize_with settle conflict_ending
  after_first e second third db (ok p) = settle e third p
  after_first e second third db (err fault) =
      if is_state_fault fault
      then finalize_with (conflict_ending e) second (others db) >>= settle (conflict_ending e) third
      else err fault

  unfoldable pub end_with : Ending → Draw → Draw → Draw → Tables → Result Fault (Bool × Tables)
  unfolding finalize_with after_first
  end_with e first second third db = after_first e second third db (finalize_with e first db)

  -- `drain`, whose error counts only where the generation is to complete.
  unfoldable pub after_drain :
      Result Fault (Unit {0}) → Ending → Draw → Draw → Draw → Tables → Result Fault (Bool × Tables)
  unfolding end_with
  after_drain (ok u) e first second third db = end_with e first second third db
  after_drain (err fault) e first second third db =
      if is_completed e.status then err fault else end_with e first second third db

  -- `runGeneration`, from where the analysis has returned or thrown.
  unfoldable pub end_run : Draw → Draw → Draw → Tables → Result Fault (Bool × Tables)
  unfolding ending_of after_drain
  end_run first second third db = after_drain x.drained (ending_of x) first second third db

-- What `executeGeneration` throws itself, or passes on.
pub data ExecutionFault : Type 0 where
  capacity_unavailable : ExecutionFault
  of_database : Fault → ExecutionFault

abbrev pub tables_of : Result Fault (Bool × Tables) → Result ExecutionFault Tables
tables_of (ok p) = ok p.1
tables_of (err fault) = err (of_database fault)

abbrev pub candidate_writer : Generation → Writer
candidate_writer g = record {
  id = g.id;
  conversation_id = g.conversation_id;
  message_id = g.response_message_id;
  user_id = g.user_id;
  writer_token = none;
}

module _ (others : Tables → Tables) (to_json : List ConversationEvent → String)
    (x : Execution) where
  -- Once the permit is granted; a generation that another writer has claimed is left to it.
  unfoldable pub run_claimed :
      Draw → Draw → Draw → Option (Writer × Tables) → Tables → Result ExecutionFault Tables
  unfolding end_run
  run_claimed first second third none db = ok db
  run_claimed first second third (some (w, claimed)) db = elim x.started [
    | err fault ↦ err (of_database fault)
    | ok u ↦ tables_of (end_run others to_json w x first second third (others claimed))
  ]

  -- What `executeGeneration` does with the candidate that it finds.
  unfoldable pub execute_candidate :
      (granted : Bool)
      → (token : ℕ) → Draw
      → Draw
      → Draw
      → Option Generation
      → Tables
      → Result ExecutionFault Tables
  unfolding claim finalize run_claimed
  execute_candidate granted token first second third none db = ok db
  execute_candidate granted token first second third (some g) db =
      if is_terminal g.status
      then ok db
      else if is_cancel_requested g.status
      then tables_of (
          finalize (candidate_writer g) cancelled none (some ErrorCode.cancelled)
            (done_event cancelled none (some ErrorCode.cancelled)) none first.event_id first.now
            (others db))
      else if not (is_pending g.status)
      then ok db
      else if not granted
      then err capacity_unavailable
      else run_claimed first second third (claim g.id token first.now (others db)) (others db)

  -- `executeGeneration`.
  unfoldable pub execute_generation :
      (granted : Bool)
      → (token : ℕ) → Draw
      → Draw
      → Draw
      → (id : ℕ) → Tables
      → Result ExecutionFault Tables
  unfolding execute_candidate
  execute_generation granted token first second third id db =
      execute_candidate granted token first second third
        (first_where (λ g. g.id == id) db.generations) db
