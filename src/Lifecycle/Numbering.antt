-- ===== src/Lifecycle/Numbering.antt =====
-- The event log against the counter: what it is for a generation's events to be numbered up to its
-- `last_sequence`, and the writes that append to the log.
use gist_agent.Base.{
  ℕ, ◌+◌, some, Bool, true, List, [], ◌∷◌, ◌++◌, ◌≡◌, refl, sym, ap, subst, arith, first_where,
  update_where, length, length-append, ok, All, All-mono, All-update_where, All-concat, All-both,
  ◌==◌, Bool-cases, inl, inr, ◌∙◌,
}
use gist_agent.Contracts.{ConversationEvent}
use gist_agent.Database.{Generation, EventRow, Tables}
use gist_agent.Database.Outbox.{Identity, enqueue_generation_event}
use gist_agent.Lifecycle.Log.{
  events_of, Consecutive, Consecutive-concat, events_of-concat_eq, events_of-concat_ne, Enqueued,
  enqueue-Enqueued,
}

-- The payload repeats the row's number, type and generation.
abbrev pub IsFaithful : EventRow → Type 0
IsFaithful e =
    (e.payload.sequence ≡ e.sequence)
    × (e.payload.type ≡ e.event_type)
    × (e.payload.generation_id ≡ e.generation_id)

-- What holds of a generation and its events.
pub record IsNumbered (g : Generation) (es : List EventRow) : Type 0 where
  pub consecutive : Consecutive 0 es
  pub complete : length es ≡ g.last_sequence
  pub owned : All (λ e. e.user_id ≡ g.user_id) es
  pub faithful : All IsFaithful es

abbrev pub Numbered : List Generation → List EventRow → Type 0
Numbered gs events = All (λ g. IsNumbered g (events_of g.id events)) gs

All-first_where :
    (P : Generation → Type 0) (p : Generation → Bool) (gs : List Generation) (g : Generation)
    → All P gs
    → first_where p gs ≡ some g
    → P g × (p g ≡ true)
All-first_where P p [] g h e = cc
All-first_where P p (x ∷ xs) g (h, hs) e = elim (Bool-cases (p x)) [
  | inl b ↦ let q : x ≡ g = cc (rw b at e) in (subst P q h, subst (λ k. p k ≡ true) q b)
  | inr b ↦ All-first_where P p xs g hs (rw b at e)
]

-- One more event, at the next number.
IsNumbered-concat :
    (g h : Generation) (es : List EventRow) (e : EventRow)
    → IsNumbered g es
    → h.last_sequence ≡ g.last_sequence + 1
    → h.user_id ≡ g.user_id
    → e.user_id ≡ g.user_id
    → e.sequence ≡ g.last_sequence + 1
    → IsFaithful e
    → IsNumbered h (es ++ e ∷ [])
IsNumbered-concat g h es e n l u v s f = record {
  consecutive = Consecutive-concat 0 es e n.consecutive (omega (arith, n.complete));
  complete = rw (length-append es (e ∷ [])) (omega (arith, n.complete));
  owned =
      All-concat (λ x. x.user_id ≡ h.user_id) es
        (All-mono _ (λ x. x.user_id ≡ h.user_id) (λ x q. q ∙ sym u) es n.owned) (v ∙ sym u);
  faithful = All-concat IsFaithful es n.faithful f;
}

IsNumbered-same :
    (g h : Generation) (es : List EventRow)
    → h.user_id ≡ g.user_id
    → h.last_sequence ≡ g.last_sequence
    → IsNumbered g es
    → IsNumbered h es
IsNumbered-same g h es u l n = record {
  consecutive = n.consecutive;
  complete = n.complete ∙ sym l;
  owned = All-mono _ (λ x. x.user_id ≡ h.user_id) (λ x q. q ∙ sym u) es n.owned;
  faithful = n.faithful;
}

-- An update that leaves the keys and the counter alone.
pub Numbered-update_where :
    (p : Generation → Bool) (f : Generation → Generation)
    → ((g : Generation)
        → ((f g).id ≡ g.id) × ((f g).user_id ≡ g.user_id) × ((f g).last_sequence ≡ g.last_sequence))
    → (gs : List Generation) (events : List EventRow) → Numbered gs events
    → Numbered (update_where p f gs) events
Numbered-update_where p f same gs events n =
    All-update_where (λ g. IsNumbered g (events_of g.id events))
      (λ g. IsNumbered g (events_of g.id events)) p f
      (λ g h _.
        let (a, b, c) = same g in
        subst (λ k. IsNumbered (f g) (events_of k events)) (sym a)
          (IsNumbered-same g (f g) _ b c h))
      (λ g h _. h) gs n

-- `enqueueGenerationEvent` under an identity whose user is the generation's.
module _ (i : Identity) (e : ConversationEvent) (now : ℕ) (db last : Tables) where
  Numbered-entry :
      (q : Enqueued i e now db last)
      → Numbered db.generations db.events
      → (g : Generation) → IsNumbered g (events_of g.id db.events)
      → (g.id == i.id) ≡ true
      → g.user_id ≡ i.user_id
      → (h : Generation) → h.id ≡ g.id
      → h.user_id ≡ g.user_id
      → h.last_sequence ≡ g.last_sequence + 1
      → IsNumbered h (events_of h.id (db.events ++ q.entry ∷ []))
  Numbered-entry q n g k hit own h a b c =
      let (first, same) =
        All-first_where (λ r. IsNumbered r (events_of r.id db.events)) (λ r. r.id == i.id)
          db.generations q.row n q.found in
      let ids : q.row.id ≡ g.id = ground (arith, q.entry_id) in
      let counts : q.row.last_sequence ≡ g.last_sequence =
        sym first.complete ∙ ap (λ r. length (events_of r db.events)) ids ∙ k.complete in
      let here : (q.entry.generation_id == g.id) ≡ true = ground (arith, q.entry_id) in
      subst (λ r. IsNumbered h (events_of r (db.events ++ q.entry ∷ []))) (sym a)
        (rw (events_of-concat_eq g.id db.events q.entry here) (
          IsNumbered-concat g h _ q.entry k c b (q.entry_user ∙ sym own)
            (omega (arith, q.entry_sequence))
            (
              q.entry_payload ∙ sym q.entry_sequence,
              q.entry_kind ∙ sym q.entry_type,
              q.entry_payload_id,
            )))

  pub Numbered-enqueue :
      (event_id : ℕ)
      → enqueue_generation_event i e event_id now db ≡ ok last
      → All (λ g. (g.id == i.id) ≡ true → g.user_id ≡ i.user_id) db.generations
      → Numbered db.generations db.events
      → Numbered last.generations last.events
  Numbered-enqueue event_id h own n =
      let q = enqueue-Enqueued i e event_id now db last h in
      rw (q.generations, q.events)
        (All-update_where
          (λ g.
            IsNumbered g (events_of g.id db.events)
            × ((g.id == i.id) ≡ true → g.user_id ≡ i.user_id))
          (λ g. IsNumbered g (events_of g.id (db.events ++ q.entry ∷ []))) (λ g. g.id == i.id) _
          (λ g k hit. Numbered-entry q n g k.0 hit (k.1 hit) _ refl refl refl)
          (λ g k miss.
            rw (events_of-concat_ne g.id db.events q.entry (ground (arith, q.entry_id))) k.0)
          db.generations (All-both _ _ db.generations n own))
