-- ===== src/Worker/Buffer.antt =====
-- apps/worker/src/chat/text-event-buffer.ts: fragments of text are published together.
use gist_agent.Base.Text.{concat}
use gist_agent.Base.{
  Option, none, some, Bool, true, false, List, [], ◌∷◌, ◌++◌, if◌then◌else◌, get_or_else,
}
use gist_agent.Contracts.{text_chunk, ConversationEvent}

abbrev pub is_chunk : ConversationEvent → Bool
is_chunk e = elim e.type [ text_chunk ↦ true | _ ↦ false ]

-- The pending fragment, and what has been handed to `publish`.
pub record TextBuffer : Type 0 where
  pub waiting : Option ConversationEvent
  pub published : List ConversationEvent

-- `flush`.
unfoldable pub flush : TextBuffer → TextBuffer
flush b = elim b.waiting [
  | none ↦ b
  | some e ↦ record { waiting = none; published = b.published ++ e ∷ [] }
]

-- `this.pending.content = String(this.pending.content || '') + String(event.content || '')`.
abbrev pub merge : ConversationEvent → ConversationEvent → ConversationEvent
merge p e = record p {
  content = some (concat (get_or_else p.content "") (get_or_else e.content ""));
}

-- `send`, without the timer that calls `flush`.
unfoldable pub send : ConversationEvent → TextBuffer → TextBuffer
unfolding flush
send e b =
    if is_chunk e
    then record b { waiting = elim b.waiting [ none ↦ some e | some p ↦ some (merge p e) ] }
    else record { waiting = none; published = (flush b).published ++ e ∷ [] }

-- What happens to a buffer: the analysis sends an event, or the timer runs out.
pub data Tick : Type 0 where
  sends : ConversationEvent → Tick
  timer : Tick

unfoldable pub run_buffer : List Tick → TextBuffer → TextBuffer
unfolding send flush
run_buffer [] b = b
run_buffer (sends e ∷ ts) b = run_buffer ts (send e b)
run_buffer (timer ∷ ts) b = run_buffer ts (flush b)

abbrev pub sent : List Tick → List ConversationEvent
sent [] = []
sent (sends e ∷ ts) = e ∷ sent ts
sent (timer ∷ ts) = sent ts
