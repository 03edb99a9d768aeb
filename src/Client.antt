-- ===== src/Client.antt =====
-- apps/web/src/stores/chat.ts: what a browser knows of the generations, and how it follows the
-- server's events.
pub mod Blocks
pub mod Sequence
pub mod Recovery
pub mod Activities
use gist_agent.Base.{
  ℕ, zero, ◌+◌, String, Option, none, some, Bool, true, false, ◌&&◌, List, [], ◌∷◌, ◌++◌, ltb, leb,
  ◌==◌, str_eq, if◌then◌else◌, get_or_else, any, first_where, update_first, update_where,
}
use gist_agent.Contracts.{
  Status, running, completed, failed, cancelled, cancel_requested, is_cancel_requested, EventType,
  text, text_chunk, done, error, ConversationEvent, StreamEvent, is_done,
}
use gist_agent.Turns.History.{History, Snapshot, events, snapshot}
use Blocks.{Block, apply_block}

-- `GenerationState`.
pub record GenerationState : Type 0 where
  pub id : ℕ
  pub conversation_id : ℕ
  pub message_id : ℕ
  pub status : Status
  pub sequence : ℕ

-- `ChatMessage`; the user's messages change only when they are fetched.
pub record ChatMessage : Type 0 where
  pub id : ℕ
  pub content : String
  pub blocks : List Block
  pub animate_text : Bool

pub record Thread : Type 0 where
  pub id : ℕ
  pub messages : List ChatMessage
  pub updated_at : ℕ

-- The store: the generations by their identifier, the conversations, and the conversations whose
-- messages have been asked for.
pub record Store : Type 0 where
  pub generations : List GenerationState
  pub conversations : List Thread
  pub fetches : List ℕ

pub data Outcome : Type 0 where
  applied duplicate gap : Outcome

-- `generations.value[id]`.
abbrev pub known : ℕ → List GenerationState → Option GenerationState
known id = first_where (λ g. g.id == id)

-- `generations.value[state.id] = state`.
abbrev pub put : GenerationState → List GenerationState → List GenerationState
put state [] = state ∷ []
put state (g ∷ gs) = if g.id == state.id then state ∷ gs else g ∷ put state gs

abbrev is_text_event : EventType → Bool
is_text_event text = true
is_text_event text_chunk = true
is_text_event _ = false

abbrev is_cancelled_text : Option String → Bool
is_cancelled_text none = false
is_cancelled_text (some s) = str_eq s "已取消"

-- The status after an event.
abbrev pub status_after : EventType → StreamEvent → Status → Status
status_after done e s = get_or_else e.status completed
status_after error e s = if is_cancelled_text e.content then cancelled else failed
status_after _ e s = if is_cancel_requested s then s else running

-- `current ?? { …, sequence: 0 }`.
abbrev pub state_of : StreamEvent → Option GenerationState → GenerationState
state_of e (some g) = g
state_of e none = record {
  id = e.generation_id;
  conversation_id = e.conversation_id;
  message_id = e.message_id;
  status = running;
  sequence = 0;
}

-- The reset of `animateText` after the next rendering is not modelled.
abbrev pub apply_to_message : StreamEvent → ChatMessage → ChatMessage
apply_to_message e m = record m {
  blocks = apply_block e.event m.blocks;
  animate_text = if is_text_event e.type then true else m.animate_text;
}

abbrev pub apply_to_messages : StreamEvent → List ChatMessage → List ChatMessage
apply_to_messages e [] =
    apply_to_message e
      (record { id = e.message_id; content = ""; blocks = []; animate_text = false })
    ∷ []
apply_to_messages e (m ∷ ms) =
    if m.id == e.message_id then apply_to_message e m ∷ ms else m ∷ apply_to_messages e ms

abbrev apply_to_thread : StreamEvent → ℕ → Thread → Thread
apply_to_thread e now t = record t { messages = apply_to_messages e t.messages; updated_at = now }

-- `applyEvent` once the event is the next one.
abbrev pub take_event : StreamEvent → ℕ → GenerationState → Store → Store
take_event e now g s =
    let here = any (λ t. t.id == e.conversation_id) s.conversations in
    record {
      generations =
          put (record g { sequence = e.sequence; status = status_after e.type e g.status })
            s.generations;
      conversations =
          update_first (λ t. t.id == e.conversation_id) (apply_to_thread e now) s.conversations;
      fetches = if here && is_done e.type then s.fetches ++ e.conversation_id ∷ [] else s.fetches;
    }

-- `applyEvent`, by what is known of the generation.
unfoldable pub apply_known : StreamEvent → ℕ → Option GenerationState → Store → Outcome × Store
apply_known e now (some g) s =
    if leb e.sequence g.sequence
    then (duplicate, s)
    else if ltb (g.sequence + 1) e.sequence
    then (gap, s)
    else (applied, take_event e now g s)
apply_known e now none s =
    if ltb 1 e.sequence then (gap, s) else (applied, take_event e now (state_of e none) s)

-- `applyEvent`, with the time.
unfoldable pub apply_event : StreamEvent → ℕ → Store → Outcome × Store
unfolding apply_known
apply_event e now s = apply_known e now (known e.generation_id s.generations) s

-- `for (const event of history.events) applyEvent(event)`.
unfoldable pub apply_events : List StreamEvent → ℕ → Store → Store
unfolding apply_event
apply_events [] now s = s
apply_events (e ∷ es) now s = apply_events es now (apply_event e now s).1

-- The server's JSON blocks are read by a parameter.
module _ (parse_blocks : String → List Block) where
  abbrev load_snapshot : Snapshot → ChatMessage → ChatMessage
  load_snapshot h m = record m { content = h.content; blocks = parse_blocks h.blocks }

  -- `resync` with the server's answer, for a known generation.
  unfoldable pub resync_known : GenerationState → History → ℕ → Store → Store
  unfolding apply_events
  resync_known g (events es last) now s = apply_events es now s
  resync_known g (snapshot h) now s = record s {
    generations = put (record g { sequence = h.sequence; status = h.status }) s.generations;
    conversations =
        update_first (λ t. t.id == g.conversation_id)
          (λ t. record t {
            messages = update_first (λ m. m.id == g.message_id) (load_snapshot h) t.messages;
          })
          s.conversations;
  }

  -- `resync`; `ask` is the server's answer to a client that has seen the events up to a number.
  unfoldable pub resync : ℕ → (ℕ → History) → ℕ → Store → Store
  unfolding resync_known
  resync id ask now s = elim (known id s.generations) [
    | none ↦ s
    | some g ↦ resync_known g (ask g.sequence) now s
  ]

  -- What the reader does with an event of the stream.
  unfoldable pub receive : StreamEvent → (ℕ → History) → ℕ → Store → Store
  unfolding apply_event resync
  receive e ask now s = elim ((apply_event e now s).0) [
    | gap ↦ (apply_event e now (resync e.generation_id ask now s)).1
    | _ ↦ (apply_event e now s).1
  ]

-- The local part of `cancelGeneration`, after the server has agreed.
unfoldable pub cancel_local : ℕ → Store → Store
cancel_local id s = record s {
  generations =
      update_where (λ g. g.id == id) (λ g. record g { status = cancel_requested }) s.generations;
}
