-- ===== src/Database.antt =====
-- packages/database/src/schema.ts: the tables that the generation lifecycle reads and writes, each as
-- the list of its rows in the order of insertion. A transaction is a function that returns the new
-- tables or an error; an error leaves the tables as they were. Times are milliseconds.
pub mod Outbox
use gist_agent.Base.{ℕ, String, Option, Bool, List, rows_where, ◌==◌, map}
use gist_agent.Contracts.{Status, EventType, StreamEvent, RuntimeVersions}
use gist_agent.Contracts.Errors.{ErrorCode}

-- `generation`; the five version columns are one record.
pub record Generation : Type 0 where
  pub id : ℕ
  pub user_id : ℕ
  pub conversation_id : ℕ
  pub request_message_id : ℕ
  pub response_message_id : ℕ
  pub status : Status
  pub last_sequence : ℕ
  pub error : Option String
  pub error_code : Option ErrorCode
  pub idempotency_key : String
  pub request_hash : String
  pub reasoning_enabled : Bool
  pub writer_token : Option ℕ
  pub writer_heartbeat_at : Option ℕ
  pub cancel_requested_at : Option ℕ
  pub started_at : Option ℕ
  pub first_token_at : Option ℕ
  pub model_provider : String
  pub model_name : String
  pub versions : RuntimeVersions
  pub datasource_id : Option ℕ
  pub context_upper_bound : ℕ
  pub parent_message_id : Option ℕ
  pub created_at : ℕ
  pub updated_at : ℕ
  pub completed_at : Option ℕ

pub data Role : Type 0 where
  user assistant : Role

-- `message`; `blocks` and `llm_messages` are JSON texts.
pub record Message : Type 0 where
  pub id : ℕ
  pub conversation_id : ℕ
  pub role : Role
  pub content : String
  pub blocks : String
  pub llm_messages : String

-- `conversation`.
pub record Conversation : Type 0 where
  pub id : ℕ
  pub user_id : ℕ
  pub title : String
  pub datasource_id : Option ℕ
  pub updated_at : ℕ

-- `conversation_turn`; its status is one of pending, completed, failed, cancelled.
pub record Turn : Type 0 where
  pub id : ℕ
  pub conversation_id : ℕ
  pub sequence : ℕ
  pub generation_id : ℕ
  pub user_message_id : ℕ
  pub assistant_message_id : ℕ
  pub status : Status
  pub final_answer : Option String
  pub created_at : ℕ
  pub completed_at : Option ℕ

-- `generation_attempt`.
pub record Attempt : Type 0 where
  pub generation_id : ℕ
  pub attempt : ℕ
  pub status : Status
  pub error : Option String
  pub writer_token : Option ℕ
  pub received_first_delta : Bool
  pub completed_at : Option ℕ

-- `generation_event`.
pub record EventRow : Type 0 where
  pub generation_id : ℕ
  pub user_id : ℕ
  pub conversation_id : ℕ
  pub message_id : ℕ
  pub sequence : ℕ
  pub event_type : EventType
  pub payload : StreamEvent

-- `outbox_event.payload`, with its `type`.
pub data Delivery : Type 0 where
  enqueue : (generation_id : ℕ) → Delivery
  event : (user_id sequence : ℕ) → StreamEvent → Delivery

-- `outbox_event`, as it is inserted.
pub record OutboxRow : Type 0 where
  pub aggregate_id : ℕ
  pub delivery : Delivery

-- `analysis_state` and `analysis_state_draft`; the state is a JSON text.
pub record StateRow : Type 0 where
  pub conversation_id : ℕ
  pub revision : ℕ
  pub state : String
  pub generation_id : ℕ

pub record DraftRow : Type 0 where
  pub generation_id : ℕ
  pub conversation_id : ℕ
  pub base_revision : ℕ
  pub revision : ℕ
  pub state : String

pub record Tables : Type 0 where
  pub generations : List Generation
  pub messages : List Message
  pub conversations : List Conversation
  pub turns : List Turn
  pub attempts : List Attempt
  pub events : List EventRow
  pub outbox : List OutboxRow
  pub states : List StateRow
  pub drafts : List DraftRow

-- What a transaction or a statement throws.
pub data Fault : Type 0 where
  forbidden not_found conflict too_many_requests : Fault
  generation_missing draft_missing state_conflict writer_ownership_lost : Fault
