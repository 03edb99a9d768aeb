-- ===== src/Turns.antt =====
-- apps/api/src/chat/generation.service.ts: the API's side of a generation's life. Values that the
-- code draws (`randomUUID()`, the clock, the environment) are arguments.
pub mod History
pub mod Idempotency
use gist_agent.Base.Text.{prefix_of, units, concat}
use gist_agent.Base.{
  ℕ, zero, suc, ◌+◌, String, Option, none, some, Bool, true, false, ◌&&◌, List, [], ◌∷◌, ◌++◌, ltb,
  leb, ◌==◌, str_eq, if◌then◌else◌, get_or_else, or_else, is_some_eq, Result, ok, err, rows_where,
  first_where, count_where, update_where, any,
}
use gist_agent.Contracts.{
  Status, pending, failed, cancelled, cancel_requested, is_active, is_completed,
  analysis_runtime_versions,
}
use gist_agent.Database.{
  Generation, Message, user, assistant, Conversation, Turn, OutboxRow, enqueue, Tables, Fault,
  forbidden, not_found, conflict, too_many_requests,
}

-- The arguments of `createTurn`.
pub record Request : Type 0 where
  pub user_id : ℕ
  pub conversation_id : ℕ
  pub message : String
  pub datasource_id : Option ℕ
  pub idempotency_key : String
  pub request_hash : String
  pub reasoning_enabled : Bool

-- The values that `createTurn` draws: four identifiers, the time, and the settings of the environment.
pub record Draws : Type 0 where
  pub id : ℕ
  pub request_message_id : ℕ
  pub response_message_id : ℕ
  pub turn_id : ℕ
  pub now : ℕ
  pub limit : ℕ
  pub model_provider : String
  pub model_name : String

pub record Created : Type 0 where
  pub generation_id : ℕ
  pub conversation_id : ℕ
  pub user_message_id : ℕ
  pub response_message_id : ℕ

abbrev pub created_of : Generation → Created
created_of g = record {
  generation_id = g.id;
  conversation_id = g.conversation_id;
  user_message_id = g.request_message_id;
  response_message_id = g.response_message_id;
}

-- `WHERE conversation_id=? AND status IN (…active…)`.
abbrev pub is_active_in : ℕ → Generation → Bool
is_active_in conversation g = g.conversation_id == conversation && is_active g.status

-- `WHERE user_id=? AND status IN (…active…)`.
abbrev pub is_active_of : ℕ → Generation → Bool
is_active_of user_id g = g.user_id == user_id && is_active g.status

-- Whether `g` comes before `h` in `ORDER BY completed_at DESC NULLS LAST, created_at DESC`.
is_later : Generation → Generation → Bool
is_later g h = later_of g.completed_at h.completed_at
  where
    later_of : Option ℕ → Option ℕ → Bool
    later_of (some a) (some b) = if a == b then ltb h.created_at g.created_at else ltb b a
    later_of (some a) none = true
    later_of none (some b) = false
    later_of none none = ltb h.created_at g.created_at

latest : List Generation → Option Generation
unfolding is_later
latest [] = none
latest (g ∷ gs) = elim (latest gs) [
  | none ↦ some g
  | some h ↦ if is_later h g then some h else some g
]

-- The parent message: the response of the last completed generation of the conversation.
unfoldable pub parent_message : ℕ → List Generation → Option ℕ
unfolding latest
parent_message conversation gs =
    elim (latest
      (rows_where (λ g. g.conversation_id == conversation && is_completed g.status) gs)) [
        | none ↦ none
        | some g ↦ some g.response_message_id
      ]

-- `(SELECT COALESCE(MAX(sequence),0)+1 FROM conversation_turn WHERE conversation_id=?)`.
abbrev max_sequence : ℕ → List Turn → ℕ
max_sequence conversation [] = 0
max_sequence conversation (t ∷ ts) =
    let rest = max_sequence conversation ts in
    if t.conversation_id == conversation && ltb rest t.sequence then t.sequence else rest

-- `message.slice(0, 30) + (message.length > 30 ? '...' : '')`.
unfoldable pub title_of : String → String
unfolding prefix_of units
title_of message = concat (prefix_of 30 message) (if ltb 30 (units message) then "..." else "")

-- The new row of `generation`.
abbrev pub new_generation : Request → Draws → Option ℕ → List Generation → Generation
new_generation r d datasource gs = record {
  id = d.id;
  user_id = r.user_id;
  conversation_id = r.conversation_id;
  request_message_id = d.request_message_id;
  response_message_id = d.response_message_id;
  status = pending;
  last_sequence = 0;
  error = none;
  error_code = none;
  idempotency_key = r.idempotency_key;
  request_hash = r.request_hash;
  reasoning_enabled = r.reasoning_enabled;
  writer_token = none;
  writer_heartbeat_at = none;
  cancel_requested_at = none;
  started_at = none;
  first_token_at = none;
  model_provider = d.model_provider;
  model_name = d.model_name;
  versions = analysis_runtime_versions;
  datasource_id = or_else r.datasource_id datasource;
  context_upper_bound = d.now;
  parent_message_id = parent_message r.conversation_id gs;
  created_at = d.now;
  updated_at = d.now;
  completed_at = none;
}

abbrev new_message : ℕ → Request → Bool → String → Message
new_message id r is_user content = record {
  id = id;
  conversation_id = r.conversation_id;
  role = if is_user then user else assistant;
  content = content;
  blocks = "[]";
  llm_messages = "[]";
}

-- The `INSERT`s of `createTurn`, and the update of the conversation.
abbrev pub insert_turn : Request → Draws → Conversation → Tables → Tables
insert_turn r d conversation db = record db {
  messages =
      (db.messages ++ new_message d.request_message_id r true r.message ∷ [])
      ++ new_message d.response_message_id r false "" ∷ [];
  generations = db.generations ++ new_generation r d conversation.datasource_id db.generations ∷ [];
  turns =
      db.turns
      ++ record {
        id = d.turn_id;
        conversation_id = r.conversation_id;
        sequence = max_sequence r.conversation_id db.turns + 1;
        generation_id = d.id;
        user_message_id = d.request_message_id;
        assistant_message_id = d.response_message_id;
        status = pending;
        final_answer = none;
        created_at = d.now;
        completed_at = none;
      }
        ∷ [];
  outbox = db.outbox ++ record { aggregate_id = d.id; delivery = enqueue d.id } ∷ [];
  conversations =
      update_where (λ c. c.id == r.conversation_id)
        (λ c. record c {
          title = if str_eq c.title "新对话" then title_of r.message else c.title;
          datasource_id = or_else r.datasource_id c.datasource_id;
          updated_at = d.now;
        })
        db.conversations;
}

-- `WHERE user_id=? AND idempotency_key=?`.
abbrev pub is_same_key : Request → Generation → Bool
is_same_key r g = g.user_id == r.user_id && str_eq g.idempotency_key r.idempotency_key

-- `WHERE id = ? AND user_id = ?`.
abbrev pub is_own_conversation : Request → Conversation → Bool
is_own_conversation r c = c.id == r.conversation_id && c.user_id == r.user_id

-- The part of `createTurn` that follows the look-up of the conversation.
unfoldable pub admit :
    Request → Draws → Tables → Option Conversation → Result Fault (Created × Tables)
admit r d db none = err not_found
admit r d db (some conversation) =
    if any (is_active_in r.conversation_id) db.generations
    then err conflict
    else if leb d.limit (count_where (is_active_of r.user_id) db.generations)
    then err too_many_requests
    else ok (
      created_of (new_generation r d conversation.datasource_id db.generations),
      insert_turn r d conversation db,
    )

-- A request whose key is known is answered with the generation that it made.
unfoldable pub replay :
    Request → Draws → Tables → Option Generation → Result Fault (Created × Tables)
unfolding admit
replay r d db (some g) =
    if str_eq g.request_hash r.request_hash then ok (created_of g, db) else err forbidden
replay r d db none = admit r d db (first_where (is_own_conversation r) db.conversations)

-- `createTurn`: the answer, and the tables after the transaction.
unfoldable pub create_turn : Request → Draws → Tables → Result Fault (Created × Tables)
unfolding replay
create_turn r d db = replay r d db (first_where (is_same_key r) db.generations)

abbrev pub is_cancellable : ℕ → ℕ → Generation → Bool
is_cancellable user_id id g = g.id == id && g.user_id == user_id && is_active g.status

abbrev pub request_cancel : ℕ → Generation → Generation
request_cancel now g = record g {
  status = cancel_requested;
  cancel_requested_at = or_else g.cancel_requested_at (some now);
  updated_at = now;
}

-- `cancel`, with the time.
unfoldable pub cancel : ℕ → ℕ → ℕ → Tables → Result Fault Tables
cancel user_id id now db =
    if any (is_cancellable user_id id) db.generations
    then ok (record db {
      generations = update_where (is_cancellable user_id id) (request_cancel now) db.generations;
    })
    else err not_found

abbrev pub is_retryable : Status → Bool
is_retryable failed = true
is_retryable cancelled = true
is_retryable _ = false

abbrev pub is_retryable_by : ℕ → ℕ → Generation → Bool
is_retryable_by user_id id g = g.id == id && g.user_id == user_id && is_retryable g.status

-- What `retry` hands to `createTurn`.
pub record Retry : Type 0 where
  pub conversation_id : ℕ
  pub message : String
  pub datasource_id : Option ℕ
  pub reasoning_enabled : Bool

-- `retry`.
unfoldable pub retry : ℕ → ℕ → Tables → Result Fault Retry
retry user_id id db = elim (first_where (is_retryable_by user_id id) db.generations) [
  | none ↦ err not_found
  | some g ↦ ok (record {
    conversation_id = g.conversation_id;
    message = elim (first_where (λ m. m.id == g.request_message_id) db.messages) [
      | none ↦ ""
      | some m ↦ m.content
    ];
    datasource_id = g.datasource_id;
    reasoning_enabled = g.reasoning_enabled;
  })
]
