-- ===== src/Worker/Publishing.antt =====
-- apps/worker/src/chat/generation.service.ts: writes while the writer owns the generation, and the
-- ends of generations that no worker runs.
use gist_agent.Base.{
  ℕ, ◌+◌, String, Option, none, some, Bool, true, false, ◌&&◌, ◌||◌, List, [], ◌∷◌, ltb, ◌==◌,
  if◌then◌else◌, is_none, is_some, or_else, Result, ok, err, ◌>>=◌, rows_where, update_where, any,
  max, map, length,
}
use gist_agent.Contracts.{
  failed, cancelled, is_pending, is_writable, is_owned, is_cancel_requested, ConversationEvent,
}
use gist_agent.Contracts.Errors.{ErrorCode}
use gist_agent.Database.{Generation, Tables, Fault, writer_ownership_lost}
use gist_agent.Database.Outbox.{Identity, enqueue_generation_event}
use gist_agent.Worker.{Writer, identity_of, holds, done_event, fail_turns, close_attempts}

-- `WHERE id=? AND writer_token=? AND status IN ('starting','running')`.
abbrev pub is_writable_by : Writer → Generation → Bool
is_writable_by w g = g.id == w.id && holds g.writer_token w.writer_token && is_writable g.status

-- `assertWritable`.
unfoldable pub assert_writable : Writer → Tables → Result Fault (Unit {0})
assert_writable w db =
    if any (is_writable_by w) db.generations then ok tt else err writer_ownership_lost

-- `publish`.
unfoldable pub publish : Writer → ConversationEvent → ℕ → ℕ → Tables → Result Fault Tables
publish w e event_id now db =
    if any (is_writable_by w) db.generations
    then enqueue_generation_event (identity_of w) e event_id now db
    else err writer_ownership_lost

-- `markFirstDelta`.
unfoldable pub mark_first_delta : Writer → ℕ → Tables → Tables
mark_first_delta w now db =
    if any (is_writable_by w) db.generations
    then record db {
      generations =
          update_where (is_writable_by w)
            (λ g. record g {
              first_token_at = or_else g.first_token_at (some now);
              updated_at = now;
            })
            db.generations;
      attempts =
          update_where
            (λ a.
              a.generation_id == w.id
              && holds a.writer_token w.writer_token
              && is_none a.completed_at)
            (λ a. record a { received_first_delta = true }) db.attempts;
    }
    else db

-- `checkpointMessage`.
unfoldable pub checkpoint_message : Writer → String → String → Tables → Result Fault Tables
checkpoint_message w blocks llm_messages db =
    if any (λ m. m.id == w.message_id) db.messages
      && any (λ g. is_writable_by w g && g.response_message_id == w.message_id) db.generations
    then ok (record db {
      messages =
          update_where (λ m. m.id == w.message_id)
            (λ m. record m { blocks = blocks; llm_messages = llm_messages }) db.messages;
    })
    else err writer_ownership_lost

-- What an `UPDATE … RETURNING` of generations hands to the loop that follows it.
abbrev pub identity_of_row : Generation → Identity
identity_of_row g = record {
  id = g.id;
  user_id = g.user_id;
  conversation_id = g.conversation_id;
  message_id = g.response_message_id;
}

-- The condition of `failQueued`.
abbrev pub is_queued : ℕ → Generation → Bool
is_queued id g = g.id == id && is_pending g.status && is_none g.writer_token

abbrev pub fail_row : String → ℕ → Generation → Generation
fail_row error now g = record g {
  status = failed;
  error = some error;
  error_code = some ErrorCode.generation_capacity_unavailable;
  completed_at = some now;
  updated_at = now;
}

-- The loop of `failQueued`; `event_id` is the first of the identifiers that the rounds draw.
unfoldable pub fail_queued_rows : List Generation → String → ℕ → ℕ → Tables → Result Fault Tables
fail_queued_rows [] error event_id now db = ok db
fail_queued_rows (g ∷ gs) error event_id now db = do
  next ←
      enqueue_generation_event (identity_of_row g)
        (done_event failed (some error) (some ErrorCode.generation_capacity_unavailable)) event_id
        now (record db { turns = fail_turns g.id failed now db.turns })
  fail_queued_rows gs error (event_id + 1) now next

-- `failQueued`.
unfoldable pub fail_queued : ℕ → String → ℕ → ℕ → Tables → Result Fault Tables
unfolding fail_queued_rows
fail_queued id error event_id now db =
    fail_queued_rows (rows_where (is_queued id) db.generations) error event_id now
      (record db { generations = update_where (is_queued id) (fail_row error now) db.generations })

-- `column < NOW() - timeout`, false where the column is NULL.
abbrev pub is_before : Option ℕ → ℕ → ℕ → Bool
is_before none timeout now = false
is_before (some t) timeout now = ltb (t + timeout) now

-- The condition of `failStale`.
abbrev pub is_stale : ℕ → ℕ → ℕ → Generation → Bool
is_stale timeout pending_timeout now g =
    (is_owned g.status && is_some g.writer_token && is_before g.writer_heartbeat_at timeout now)
    || (is_cancel_requested g.status
        && is_none g.writer_token
        && is_before g.cancel_requested_at timeout now)
    || (is_pending g.status && is_none g.writer_token && ltb (g.created_at + pending_timeout) now)

abbrev pub end_stale : ℕ → Generation → Generation
end_stale now g = record g {
  status = if is_cancel_requested g.status then cancelled else failed;
  error = some (if is_cancel_requested g.status then "已取消" else "生成进程意外中断或排队超时，已保留收到的部分内容");
  error_code =
      some (if is_cancel_requested g.status then ErrorCode.cancelled else ErrorCode.worker_lost);
  completed_at = some now;
  updated_at = now;
  writer_token = none;
}

-- The `error` column of `generation_attempt` receives the error code's text, a parameter here.
module _ (code_text : Option ErrorCode → Option String) where
  -- The loop of `failStale` over the updated rows.
  unfoldable pub fail_stale_rows : List Generation → ℕ → ℕ → Tables → Result Fault Tables
  fail_stale_rows [] event_id now db = ok db
  fail_stale_rows (g ∷ gs) event_id now db = do
    next ←
        enqueue_generation_event (identity_of_row g) (done_event g.status g.error g.error_code)
          event_id now
          (record db {
            attempts = close_attempts g.id g.status (code_text g.error_code) now db.attempts;
            turns = fail_turns g.id g.status now db.turns;
          })
    fail_stale_rows gs (event_id + 1) now next

  -- `failStale`; `setting` is `GENERATION_PENDING_TIMEOUT_MS` or 600000.
  unfoldable pub fail_stale : ℕ → ℕ → ℕ → ℕ → Tables → Result Fault (ℕ × Tables)
  unfolding fail_stale_rows
  fail_stale timeout setting event_id now db =
      let stale = is_stale timeout (max timeout setting) now in
      let updated = map (end_stale now) (rows_where stale db.generations) in
      do
        ended ←
            fail_stale_rows updated event_id now
              (record db { generations = update_where stale (end_stale now) db.generations })
        ok (length updated, ended)
