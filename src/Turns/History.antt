-- ===== src/Turns/History.antt =====
-- `history` of apps/api/src/chat/generation.service.ts: what a client that has seen the events up to
-- `after` is sent.
use gist_agent.Base.{
  ℕ, ◌+◌, String, Option, none, some, Bool, true, not, ◌&&◌, ◌||◌, List, [], ◌∷◌, ltb, leb, ◌==◌,
  if◌then◌else◌, Result, ok, err, rows_where, first_where, any, map, is_empty,
}
use gist_agent.Contracts.{Status, StreamEvent, is_terminal, is_done}
use gist_agent.Contracts.Errors.{ErrorCode}
use gist_agent.Database.{Generation, EventRow, Tables, Fault, not_found}

pub record Snapshot : Type 0 where
  pub content : String
  pub blocks : String
  pub sequence : ℕ
  pub status : Status
  pub error : Option String
  pub error_code : Option ErrorCode

pub data History : Type 0 where
  events : List StreamEvent → (last_sequence : ℕ) → History
  snapshot : Snapshot → History

-- `ORDER BY sequence`.
abbrev pub insert_by_sequence : EventRow → List EventRow → List EventRow
insert_by_sequence e [] = e ∷ []
insert_by_sequence e (f ∷ fs) =
    if leb e.sequence f.sequence then e ∷ f ∷ fs else f ∷ insert_by_sequence e fs

unfoldable pub order_by_sequence : List EventRow → List EventRow
order_by_sequence [] = []
order_by_sequence (e ∷ es) = insert_by_sequence e (order_by_sequence es)

-- `events.every((event, index) => event.sequence === after + index + 1)`.
unfoldable pub is_contiguous : ℕ → List StreamEvent → Bool
is_contiguous after [] = true
is_contiguous after (e ∷ es) = e.sequence == after + 1 && is_contiguous (after + 1) es

-- `events.at(-1)?.sequence ?? after`.
unfoldable pub last_of : ℕ → List StreamEvent → ℕ
last_of after [] = after
last_of after (e ∷ es) = last_of e.sequence es

-- The rows of `generation_event` after the number `after`.
abbrev pub events_after : ℕ → ℕ → ℕ → List EventRow → List StreamEvent
events_after user_id id after rows =
    map (λ e. e.payload)
      (order_by_sequence (
        rows_where (λ e. e.generation_id == id && e.user_id == user_id && ltb after e.sequence)
          rows))

-- The answer from the generation's row and its events.
unfoldable pub answer : Generation → String → String → ℕ → List StreamEvent → History
unfolding is_contiguous last_of
answer g content blocks after es =
    if is_contiguous after es
      && (not (is_empty es) || after == g.last_sequence)
      && (not (is_terminal g.status) || any (λ e. is_done e.type) es)
    then events es (last_of after es)
    else snapshot (record {
      content = content;
      blocks = blocks;
      sequence = g.last_sequence;
      status = g.status;
      error = g.error;
      error_code = g.error_code;
    })

-- `history`; the join needs the generation's response message. Its two queries read the same tables here.
unfoldable pub history : ℕ → ℕ → ℕ → Tables → Result Fault History
unfolding answer order_by_sequence
history user_id id after db =
    elim (first_where (λ g. g.id == id && g.user_id == user_id) db.generations) [
      | none ↦ err not_found
      | some g ↦ elim (first_where (λ m. m.id == g.response_message_id) db.messages) [
        | none ↦ err not_found
        | some m ↦ ok (answer g m.content m.blocks after (events_after user_id id after db.events))
      ]
    ]
