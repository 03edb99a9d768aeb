-- ===== src/Contracts.antt =====
-- packages/contracts/src: the statuses, error codes and events that the API, the worker and the web
-- client share. Identifiers (UUIDs, serial numbers) are natural numbers; JSON values that no code
-- modelled here looks into are texts.
pub mod Errors
pub mod Parsing
use gist_agent.Base.{ℕ, String, Option, Bool, true, false, ◌≡◌, arith}
use Errors.{ErrorCode}

-- `GenerationStatus`.
pub data Status : Type 0 where
  pending starting running completed failed cancel_requested cancelled : Status

pub Status-discrete : Discrete Status
Status-discrete = hlevel

-- `status IN ('pending','starting','running','cancel_requested')`.
abbrev pub is_active : Status → Bool
is_active completed = false
is_active failed = false
is_active cancelled = false
is_active _ = true

-- `status IN ('starting','running')`.
abbrev pub is_writable : Status → Bool
is_writable starting = true
is_writable running = true
is_writable _ = false

-- `status IN ('starting','running','cancel_requested')`.
abbrev pub is_owned : Status → Bool
is_owned starting = true
is_owned running = true
is_owned cancel_requested = true
is_owned _ = false

abbrev pub is_pending : Status → Bool
is_pending pending = true
is_pending _ = false

abbrev pub is_starting : Status → Bool
is_starting starting = true
is_starting _ = false

abbrev pub is_completed : Status → Bool
is_completed completed = true
is_completed _ = false

abbrev pub is_cancel_requested : Status → Bool
is_cancel_requested cancel_requested = true
is_cancel_requested _ = false

-- `['completed', 'failed', 'cancelled'].includes(status)`.
abbrev pub is_terminal : Status → Bool
is_terminal completed = true
is_terminal failed = true
is_terminal cancelled = true
is_terminal _ = false

-- `ConversationEvent['type']`.
pub data EventType : Type 0 where
  sql sql_chunk table text text_chunk reasoning_chunk thinking error done log : EventType
  chart chart_loading log_update log_remove analysis_activity memory_notice : EventType
  suggestions analysis_activity_remove : EventType

pub EventType-discrete : Discrete EventType
EventType-discrete = hlevel

abbrev pub is_text : EventType → Bool
is_text text = true
is_text _ = false

abbrev pub is_done : EventType → Bool
is_done done = true
is_done _ = false

-- `AnalysisActivityV1`, of which the client reads the identifier.
pub record Activity : Type 0 where
  pub id : String
  pub body : String

-- `ConversationEvent`: the fields that some code reads, and `display`, a text for the ones that are
-- only passed on to the renderer (`version`, `items`, `display`, `memoryNotice`, `columns`, `rows`, …).
pub record ConversationEvent : Type 0 where
  pub type : EventType
  pub content : Option String
  pub title : Option String
  pub status : Option Status
  pub error : Option String
  pub error_code : Option ErrorCode
  pub activity : Option Activity
  pub activity_id : Option String
  pub analysis : Option String
  pub row_count : Option ℕ
  pub duration_ms : Option ℕ
  pub chart_data : Option String
  pub query_artifact_id : Option String
  pub chart_artifact_id : Option String
  pub display : String

-- `GenerationStreamEvent`, without the times and the stream's own identifier.
pub record StreamEvent : Type 0 where
  pub event : ConversationEvent
  pub open event use *
  pub event_id : ℕ
  pub generation_id : ℕ
  pub conversation_id : ℕ
  pub message_id : ℕ
  pub sequence : ℕ

-- `ANALYSIS_RUNTIME_VERSIONS`, which every generation records.
pub record RuntimeVersions : Type 0 where
  pub prompt_policy : String
  pub toolset : String
  pub context_policy : String
  pub memory_policy : String
  pub schema_context : String

abbrev pub analysis_runtime_versions : RuntimeVersions
analysis_runtime_versions = record {
  prompt_policy = "analysis-core-v3";
  toolset = "analysis-tools-v4";
  context_policy = "analysis-context-v3";
  memory_policy = "datasource-memory-v2";
  schema_context = "schema-context-v4";
}

-- A status is active or terminal, never both.
pub is_active-is_terminal : (s : Status) → is_active s ≡ true → is_terminal s ≡ false
is_active-is_terminal s h = ground arith
