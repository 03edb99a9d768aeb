-- ===== src/Database/Outbox.antt =====
-- packages/database/src/generation-events.ts: an event and its delivery request are written together,
-- under the lock on the generation's row; and packages/database/src/analysis-state-schema.ts: the
-- draft of a completed generation becomes the conversation's state.
use gist_agent.Base.{
  ℕ, ◌+◌, none, some, List, [], ◌∷◌, ◌++◌, ◌==◌, if◌then◌else◌, Result, ok, err, first_where,
  update_where,
}
use gist_agent.Contracts.{ConversationEvent, StreamEvent}
use gist_agent.Database.{
  Generation, event, StateRow, Tables, Fault, generation_missing, draft_missing, state_conflict,
}

-- The argument `identity` of `enqueueGenerationEvent`.
pub record Identity : Type 0 where
  pub id : ℕ
  pub user_id : ℕ
  pub conversation_id : ℕ
  pub message_id : ℕ

-- `UPDATE generation SET last_sequence=last_sequence+1,updated_at=NOW() WHERE id=?`.
abbrev pub next_sequence : ℕ → ℕ → List Generation → List Generation
next_sequence id now =
    update_where (λ g. g.id == id)
      (λ g. record g { last_sequence = g.last_sequence + 1; updated_at = now })

-- The payload, `{ ...event, eventId, generationId, … }`.
abbrev pub stream_event : Identity → ConversationEvent → ℕ → ℕ → StreamEvent
stream_event identity e event_id sequence = record {
  event = e;
  event_id = event_id;
  generation_id = identity.id;
  conversation_id = identity.conversation_id;
  message_id = identity.message_id;
  sequence = sequence;
}

-- The two `INSERT`s, with the number that the update returned.
abbrev pub append_event : Identity → ConversationEvent → ℕ → ℕ → Tables → Tables
append_event identity e event_id sequence db =
    let payload = stream_event identity e event_id sequence in
    record db {
      events =
          db.events
          ++ record {
            generation_id = identity.id;
            user_id = identity.user_id;
            conversation_id = identity.conversation_id;
            message_id = identity.message_id;
            sequence = sequence;
            event_type = e.type;
            payload = payload;
          }
            ∷ [];
      outbox =
          db.outbox
          ++ record {
            aggregate_id = identity.id;
            delivery = event identity.user_id sequence payload;
          }
            ∷ [];
    }

-- `enqueueGenerationEvent`; `event_id` is the value of `randomUUID()`.
unfoldable pub enqueue_generation_event :
    Identity → ConversationEvent → ℕ → ℕ → Tables → Result Fault Tables
enqueue_generation_event identity e event_id now db =
    elim (first_where (λ g. g.id == identity.id) db.generations) [
      | none ↦ err generation_missing
      | some g ↦ ok (
          append_event identity e event_id (g.last_sequence + 1)
            (record db { generations = next_sequence identity.id now db.generations }))
    ]

-- `current[0]?.revision ?? 0`.
abbrev pub current_revision : ℕ → List StateRow → ℕ
current_revision conversation states =
    elim (first_where (λ s. s.conversation_id == conversation) states) [
      | none ↦ 0
      | some s ↦ s.revision
    ]

-- `INSERT INTO analysis_state … ON CONFLICT(conversation_id) DO UPDATE`.
abbrev pub upsert_state : StateRow → List StateRow → List StateRow
upsert_state row states =
    elim (first_where (λ s. s.conversation_id == row.conversation_id) states) [
      | none ↦ states ++ row ∷ []
      | some s ↦ update_where (λ s. s.conversation_id == row.conversation_id) (λ s. row) states
    ]

-- `promoteAnalysisDraft`.
unfoldable pub promote_analysis_draft : ℕ → Tables → Result Fault Tables
promote_analysis_draft generation_id db =
    elim (first_where (λ d. d.generation_id == generation_id) db.drafts) [
      | none ↦ err draft_missing
      | some d ↦
          if current_revision d.conversation_id db.states == d.base_revision
          then ok (record db {
            states =
                upsert_state
                  (record {
                    conversation_id = d.conversation_id;
                    revision = d.revision;
                    state = d.state;
                    generation_id = generation_id;
                  })
                  db.states;
          })
          else err state_conflict
    ]
