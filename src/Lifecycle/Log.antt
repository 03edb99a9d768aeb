-- ===== src/Lifecycle/Log.antt =====
-- The events logged for a generation, and what appending one does to them.
use gist_agent.Base.{
  ℕ, ◌+◌, some, Bool, true, false, not, ◌&&◌, List, [], ◌∷◌, ◌++◌, ◌≡◌, refl, arith, rows_where,
  rows_where-append, first_where, all, length, ok, ◌==◌, inl, inr, append-nil, Option-cases,
}
use gist_agent.Contracts.{ConversationEvent, is_done}
use gist_agent.Database.{Generation, EventRow, Tables}
use gist_agent.Database.Outbox.{Identity, enqueue_generation_event, stream_event, next_sequence}

-- The events of one generation, in the order of the log.
abbrev pub events_of : ℕ → List EventRow → List EventRow
events_of id = rows_where (λ e. e.generation_id == id)

-- Events numbered one after another, from the number after `after`.
abbrev pub Consecutive : ℕ → List EventRow → Type 0
Consecutive after [] = Unit {0}
Consecutive after (e ∷ es) = (e.sequence ≡ after + 1) × Consecutive (after + 1) es

pub Consecutive-concat :
    (after : ℕ) (es : List EventRow) (e : EventRow)
    → Consecutive after es
    → e.sequence ≡ after + length es + 1
    → Consecutive after (es ++ e ∷ [])
Consecutive-concat after [] e h q = (omega arith, tt)
Consecutive-concat after (x ∷ xs) e h q =
    (h.0, Consecutive-concat (after + 1) xs e h.1 (omega arith))

-- The last event, and no other, closes the stream.
abbrev pub is_closed : List EventRow → Bool
is_closed [] = false
is_closed (e ∷ []) = is_done e.event_type
is_closed (e ∷ f ∷ es) = not (is_done e.event_type) && is_closed (f ∷ es)

abbrev pub is_open : List EventRow → Bool
is_open = all (λ e. not (is_done e.event_type))

pub is_open-concat :
    (es : List EventRow) (e : EventRow)
    → is_open es ≡ true
    → is_done e.event_type ≡ false
    → is_open (es ++ e ∷ []) ≡ true
is_open-concat [] e h d = ground arith
is_open-concat (x ∷ xs) e h d = ground (arith, is_open-concat xs e)

pub is_closed-concat :
    (es : List EventRow) (e : EventRow)
    → is_open es ≡ true
    → is_done e.event_type ≡ true
    → is_closed (es ++ e ∷ []) ≡ true
is_closed-concat [] e h d = ground arith
is_closed-concat (x ∷ []) e h d = ground arith
is_closed-concat (x ∷ y ∷ ys) e h d = ground (arith, is_closed-concat (y ∷ ys) e)

pub events_of-concat_eq :
    (id : ℕ) (es : List EventRow) (e : EventRow)
    → (e.generation_id == id) ≡ true
    → events_of id (es ++ e ∷ []) ≡ events_of id es ++ e ∷ []
events_of-concat_eq id es e h =
    rw (rows_where-append (λ x. x.generation_id == id) es (e ∷ [])) (ground arith)

pub events_of-concat_ne :
    (id : ℕ) (es : List EventRow) (e : EventRow)
    → (e.generation_id == id) ≡ false
    → events_of id (es ++ e ∷ []) ≡ events_of id es
events_of-concat_ne id es e h =
    rw (rows_where-append (λ x. x.generation_id == id) es (e ∷ []))
      (rw h (append-nil (events_of id es)))

-- What a successful `enqueueGenerationEvent` has done.
pub record Enqueued (i : Identity) (e : ConversationEvent) (now : ℕ) (db last : Tables)
    : Type 0 where
  pub row : Generation
  pub entry : EventRow
  pub found : first_where (λ g. g.id == i.id) db.generations ≡ some row
  pub generations : last.generations ≡ next_sequence i.id now db.generations
  pub events : last.events ≡ db.events ++ entry ∷ []
  pub entry_id : entry.generation_id ≡ i.id
  pub entry_user : entry.user_id ≡ i.user_id
  pub entry_sequence : entry.sequence ≡ row.last_sequence + 1
  pub entry_payload_id : entry.payload.generation_id ≡ entry.generation_id
  pub entry_payload : entry.payload.sequence ≡ row.last_sequence + 1
  pub entry_kind : entry.payload.type ≡ e.type
  pub entry_type : entry.event_type ≡ e.type

pub enqueue-Enqueued :
    (i : Identity) (e : ConversationEvent) (event_id now : ℕ) (db last : Tables)
    → enqueue_generation_event i e event_id now db ≡ ok last
    → Enqueued i e now db last
unfolding enqueue_generation_event
enqueue-Enqueued i e event_id now db last h =
    elim (Option-cases (first_where (λ g. g.id == i.id) db.generations)) [
      | inl m ↦ cc (rw (m, enqueue_generation_event) at h)
      | inr (g, m) ↦ record {
        row = g;
        entry = record {
          generation_id = i.id;
          user_id = i.user_id;
          conversation_id = i.conversation_id;
          message_id = i.message_id;
          sequence = g.last_sequence + 1;
          event_type = e.type;
          payload = stream_event i e event_id (g.last_sequence + 1);
        };
        found = m;
        generations = ground arith;
        events = ground arith;
        entry_id = refl;
        entry_user = refl;
        entry_sequence = refl;
        entry_payload_id = refl;
        entry_payload = refl;
        entry_kind = refl;
        entry_type = refl;
      }
    ]
