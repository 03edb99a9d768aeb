-- ===== src/Worker.antt =====
-- apps/worker/src/chat/generation.service.ts: the worker's side of a generation's life. The tables are
-- those of Database; `randomUUID()` and the clock are arguments. An identity's empty writer token is
-- `none`.
pub mod Publishing
pub mod Buffer
pub mod Coalescing
pub mod Semaphores
pub mod Limits
pub mod Answer
pub mod Showing
pub mod Run
use gist_agent.Base.Text.{trim, concat}
use gist_agent.Base.{
  ℕ, ◌+◌, ◌*◌, String, Option, none, some, Bool, true, false, not, ◌&&◌, ◌||◌, List, [], ◌∷◌, ◌++◌,
  ltb, leb, ◌==◌, str_eq, if◌then◌else◌, is_some_eq, is_none, is_some, or_else, get_or_else, Result,
  ok, err, ◌>>=◌, rows_where, first_where, update_where, any, max, length,
}
use gist_agent.Contracts.{
  Status, pending, starting, running, completed, failed, cancelled, is_pending, is_starting,
  is_writable, is_owned, is_completed, is_cancel_requested, ConversationEvent, is_text, done,
}
use gist_agent.Contracts.Errors.{ErrorCode}
use gist_agent.Database.{Generation, Message, Turn, Attempt, Tables, Fault, writer_ownership_lost}
use gist_agent.Database.Outbox.{Identity, enqueue_generation_event, promote_analysis_draft}

-- `GenerationIdentity`, the fields that the writes use.
pub record Writer : Type 0 where
  pub id : ℕ
  pub conversation_id : ℕ
  pub message_id : ℕ
  pub user_id : ℕ
  pub writer_token : Option ℕ

abbrev pub identity_of : Writer → Identity
identity_of w = record {
  id = w.id;
  user_id = w.user_id;
  conversation_id = w.conversation_id;
  message_id = w.message_id;
}

-- `writer_token=?` against an identity's token: NULL and the empty token are equal to nothing.
abbrev pub holds : Option ℕ → Option ℕ → Bool
holds column none = false
holds column (some token) = is_some_eq column token

-- A `done` event.
abbrev pub done_event : Status → Option String → Option ErrorCode → ConversationEvent
done_event status error code = record {
  type = done;
  content = none;
  title = none;
  status = some status;
  error = error;
  error_code = code;
  activity = none;
  activity_id = none;
  analysis = none;
  row_count = none;
  duration_ms = none;
  chart_data = none;
  query_artifact_id = none;
  chart_artifact_id = none;
  display = "";
}

-- The condition of the first statement of `claim`.
abbrev pub is_claimable : ℕ → Generation → Bool
is_claimable id g = g.id == id && is_pending g.status && is_none g.writer_token

-- The first statement of `claim`: a pending generation without a writer gets this one.
unfoldable pub claim_row : ℕ → ℕ → ℕ → Tables → Tables
claim_row id token now db = record db {
  generations =
      update_where (is_claimable id)
        (λ g. record g {
          status = starting;
          writer_token = some token;
          writer_heartbeat_at = some now;
          started_at = or_else g.started_at (some now);
          updated_at = now;
        })
        db.generations;
}

-- `SELECT COALESCE(MAX(attempt),0)` of a generation.
max_attempt : ℕ → List Attempt → ℕ
max_attempt id [] = 0
max_attempt id (a ∷ as') =
    let rest = max_attempt id as' in
    if a.generation_id == id && ltb rest a.attempt then a.attempt else rest

-- The second statement of `claim`.
unfoldable pub claim_attempt : ℕ → ℕ → Tables → Tables
unfolding max_attempt
claim_attempt id token db = record db {
  attempts =
      db.attempts
      ++ record {
        generation_id = id;
        attempt = max_attempt id db.attempts + 1;
        status = running;
        error = none;
        writer_token = some token;
        received_first_delta = false;
        completed_at = none;
      }
        ∷ [];
}

-- The third statement of `claim`.
unfoldable pub claim_run : ℕ → ℕ → ℕ → Tables → Tables
claim_run id token now db = record db {
  generations =
      update_where (λ g. g.id == id && is_some_eq g.writer_token token && is_starting g.status)
        (λ g. record g { status = running; updated_at = now }) db.generations;
}

-- `claim`, when nothing comes between its statements; `none` where the first one finds no row.
unfoldable pub claim : ℕ → ℕ → ℕ → Tables → Option (Writer × Tables)
unfolding claim_row claim_attempt claim_run
claim id token now db = elim (first_where (is_claimable id) db.generations) [
  | none ↦ none
  | some g ↦ some (
    record {
      id = g.id;
      conversation_id = g.conversation_id;
      message_id = g.response_message_id;
      user_id = g.user_id;
      writer_token = some token;
    },
    claim_run id token now (claim_attempt id token (claim_row id token now db)),
  )
]

-- `WHERE id=? AND writer_token=? AND status IN ('starting','running','cancel_requested')`.
abbrev pub is_beating : ℕ → ℕ → Generation → Bool
is_beating id token g = g.id == id && is_some_eq g.writer_token token && is_owned g.status

-- `heartbeat`: whether the writer still owns the generation, and the tables.
unfoldable pub heartbeat : ℕ → ℕ → ℕ → Tables → Bool × Tables
heartbeat id token now db = (
  any (is_beating id token) db.generations,
  record db {
    generations =
        update_where (is_beating id token)
          (λ g. record g { writer_heartbeat_at = some now; updated_at = now }) db.generations;
  },
)

-- `isCancelRequested`.
unfoldable pub is_cancel_wanted : ℕ → Tables → Bool
is_cancel_wanted id db = elim (first_where (λ g. g.id == id) db.generations) [
  | none ↦ true
  | some g ↦ wanted g.status
]
  where
    wanted : Status → Bool
    wanted cancelled = true
    wanted s = is_cancel_requested s

-- `extractFinalAnswer`.
unfoldable pub extract_final_answer : List ConversationEvent → Option String
unfolding trim
extract_final_answer blocks =
    let content = trim (joined blocks) in if str_eq content "" then none else some content
  where
    joined : List ConversationEvent → String
    joined [] = ""
    joined (e ∷ es) =
        let rest = joined es in
        if is_text e.type then concat (get_or_else e.content "") rest else rest

-- The argument `messageState`, with its JSON texts.
pub record MessageState : Type 0 where
  pub blocks : List ConversationEvent
  pub blocks_json : String
  pub llm_messages : String

-- The condition of `finalize`'s first statement.
abbrev pub is_finalizable : Writer → Status → Generation → Bool
is_finalizable w status g =
    g.id == w.id
    && ((holds g.writer_token w.writer_token
          && is_owned g.status
          && (not (is_completed status) || not (is_cancel_requested g.status)))
        || (is_none w.writer_token && is_none g.writer_token && is_cancel_requested g.status))

abbrev pub finish : Status → Option String → Option ErrorCode → ℕ → Generation → Generation
finish status error code now g = record g {
  status = status;
  error = error;
  error_code = code;
  updated_at = now;
  completed_at = some now;
  writer_token = none;
}

-- `UPDATE message`, where there is a message state.
write_message : Writer → Option String → Option MessageState → List Message → List Message
write_message w answer none messages = messages
write_message w answer (some m) messages =
    update_where (λ row. row.id == w.message_id)
      (λ row. record row {
        content = get_or_else answer "";
        blocks = m.blocks_json;
        llm_messages = m.llm_messages;
      })
      messages

-- `UPDATE conversation_turn … WHERE generation_id=? AND status='pending'`.
abbrev close_turns : ℕ → Status → Option String → ℕ → List Turn → List Turn
close_turns id status answer now =
    update_where (λ t. t.generation_id == id && is_pending t.status)
      (λ t. record t { status = status; final_answer = answer; completed_at = some now })

-- The same where the answer is not written.
abbrev pub fail_turns : ℕ → Status → ℕ → List Turn → List Turn
fail_turns id status now =
    update_where (λ t. t.generation_id == id && is_pending t.status)
      (λ t. record t { status = status; completed_at = some now })

-- `UPDATE generation_attempt … WHERE generation_id=? AND completed_at IS NULL`.
abbrev pub close_attempts : ℕ → Status → Option String → ℕ → List Attempt → List Attempt
close_attempts id status error now =
    update_where (λ a. a.generation_id == id && is_none a.completed_at)
      (λ a. record a { status = status; error = error; completed_at = some now })

-- `status === 'completed' && messageState ? extractFinalAnswer(messageState.blocks) : null`.
answer_of : Status → Option MessageState → Option String
unfolding extract_final_answer
answer_of completed (some m) = extract_final_answer m.blocks
answer_of _ _ = none

-- The statements of `finalize` between the promotion of the draft and the event.
unfoldable pub finish_tables :
    Writer → Status → Option String → Option MessageState → ℕ → Tables → Tables
unfolding write_message answer_of
finish_tables w status error state now db = record db {
  messages = write_message w (answer_of status state) state db.messages;
  turns = close_turns w.id status (answer_of status state) now db.turns;
  attempts = close_attempts w.id status error now db.attempts;
}

-- `if (status === 'completed') await promoteAnalysisDraft(…)`.
unfoldable pub promote_if_completed : Status → ℕ → Tables → Result Fault Tables
unfolding promote_analysis_draft
promote_if_completed completed id db = promote_analysis_draft id db
promote_if_completed _ id db = ok db

-- `finalize`: whether the generation was ended here, and the tables.
unfoldable pub finalize :
    Writer
    → Status
    → Option String
    → Option ErrorCode
    → ConversationEvent
    → Option MessageState
    → ℕ
    → ℕ
    → Tables
    → Result Fault (Bool × Tables)
unfolding finish_tables promote_if_completed
finalize w status error code terminal state event_id now db =
    if any (is_finalizable w status) db.generations
    then (do
      promoted ← promote_if_completed status w.id (record db {
        generations =
            update_where (is_finalizable w status) (finish status error code now) db.generations;
      })
      ended ←
          enqueue_generation_event (identity_of w) terminal event_id now
            (finish_tables w status error state now promoted)
      ok (true, ended))
    else ok (false, db)
