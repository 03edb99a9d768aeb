-- ===== src/Relay.antt =====
-- apps/api/src/chat/outbox-relay.service.ts: a logged event on its way to the streams of Redis that
-- the browsers read. The keys' expiry after a day is left out.
pub mod Ordering
pub mod Dispatch
pub mod Rounds
use gist_agent.Base.{
  ℕ, zero, suc, ◌+◌, Option, none, some, Bool, true, false, not, ◌&&◌, ◌||◌, List, [], ◌∷◌, ◌++◌,
  if◌then◌else◌, ltb, leb, ◌==◌, first_where, any, Result, ok, err,
}
use gist_agent.Contracts.{StreamEvent}
use gist_agent.Database.{Generation, Delivery, enqueue, event}

pub record Published : Type 0 where
  pub event_id : ℕ
  pub sequence : ℕ

-- The keys of `PUBLISH_EVENT_SCRIPT` for one generation: the last number, the generation's stream, its
-- user's stream, and the identifiers of the events that were published.
pub record Channel : Type 0 where
  pub last : ℕ
  pub stream : List StreamEvent
  pub user_stream : List StreamEvent
  pub published : List Published

-- `PUBLISH_EVENT_SCRIPT`: the number that it returns, and the keys.
unfoldable pub publish_script : StreamEvent → ℕ → ℕ → Channel → ℕ × Channel
publish_script e event_id sequence c =
    elim (first_where (λ p. p.event_id == event_id) c.published) [
      | some p ↦ (p.sequence, c)
      | none ↦ if leb sequence c.last then (sequence, c) else (
        sequence,
        record {
          last = sequence;
          stream = c.stream ++ e ∷ [];
          user_stream = c.user_stream ++ e ∷ [];
          published = c.published ++ record { event_id = event_id; sequence = sequence } ∷ [];
        },
      )
    ]

pub data RelayFault : Type 0 where
  invalid_event_payload : RelayFault

-- `publishEvent` for an event of the generation `generation_id`, whose payload is what
-- `enqueueGenerationEvent` writes, with the generation of its event and with the types that the checks ask
-- for; `gs` are the rows of `generation`.
unfoldable pub publish_event :
    ℕ → ℕ → Delivery → List Generation → Channel → Result RelayFault Channel
unfolding publish_script
publish_event event_id generation_id (enqueue id) gs c = err invalid_event_payload
publish_event event_id generation_id (event user_id sequence e) gs c =
    if not (e.generation_id == generation_id)
      || ltb sequence 1
      || not (e.event_id == event_id)
      || not (e.sequence == sequence)
    then err invalid_event_payload
    else if any (λ g. g.id == generation_id && g.user_id == user_id) gs
    then ok (publish_script e event_id sequence c).1
    else ok c

-- An attempt of the relay to publish: a row of the outbox, and the generations that there are.
pub record Try : Type 0 where
  pub event_id : ℕ
  pub delivery : Delivery
  pub generations : List Generation

-- The attempts of the relay for one generation; an attempt that fails leaves the keys alone.
unfoldable pub publish_tries : ℕ → List Try → Channel → Channel
unfolding publish_event
publish_tries generation_id [] c = c
publish_tries generation_id (t ∷ ts) c =
    publish_tries generation_id ts
      (elim (publish_event t.event_id generation_id t.delivery t.generations c) [
        | err f ↦ c
        | ok d ↦ d
      ])
