-- ===== src/Lifecycle/Running.antt =====
-- One execution of a generation (Worker/Run): what a call of `finalize` does while the worker owns the
-- generation.
use gist_agent.Base.{
  ℕ, ◌+◌, String, Option, some, Bool, true, false, List, [], ◌∷◌, ◌==◌, if◌then◌else◌, Bool-cases,
  Option-cases, inl, inr, ◌⊎◌, any, first_where, first_where-holds, first_where-update_where,
  update_where, ok, err, ◌≡◌, refl, sym, subst, arith,
}
use gist_agent.Contracts.{
  Status, completed, is_owned, is_completed, is_cancel_requested, ConversationEvent,
}
use gist_agent.Contracts.Errors.{ErrorCode}
use gist_agent.Database.{Generation, Tables, Fault, draft_missing, state_conflict}
use gist_agent.Database.Outbox.{
  Identity, enqueue_generation_event, promote_analysis_draft, append_event, next_sequence,
  current_revision, upsert_state,
}
use gist_agent.Worker.{
  Writer, MessageState, holds, identity_of, finalize, is_finalizable, finish, promote_if_completed,
  finish_tables, is_cancel_wanted,
}
use gist_agent.Worker.Run.{is_state_fault}
use gist_agent.Lifecycle.Keys.{Distinct}

-- The writer holds the generation: its row has the writer's token and a status that a writer may end.
pub record Held (w : Writer) (db : Tables) : Type 0 where
  pub row : Generation
  pub found : first_where (λ g. g.id == w.id) db.generations ≡ some row
  pub token : holds row.writer_token w.writer_token ≡ true
  pub owned : is_owned row.status ≡ true

-- What other processes may do meanwhile: anything that leaves the identifiers distinct, the generation
-- to its writer, and a request to cancel it in place.
pub record Steady (w : Writer) (others : Tables → Tables) : Type 0 where
  pub distinct : (db : Tables) → Distinct db.generations → Distinct (others db).generations
  pub held : (db : Tables) → Held w db → Held w (others db)
  pub wanted :
      (db : Tables)
      → Held w db
      → is_cancel_wanted w.id db ≡ true
      → is_cancel_wanted w.id (others db) ≡ true

any-first_where :
    (p q : Generation → Bool) (gs : List Generation) (g : Generation)
    → first_where p gs ≡ some g
    → q g ≡ true
    → any q gs ≡ true
any-first_where p q [] g h k = cc
any-first_where p q (x ∷ xs) g h k = elim (Bool-cases (p x)) [
  | inl b ↦ let same : x ≡ g = cc (rw b at h) in rw (same, k) refl
  | inr b ↦ let rest = any-first_where p q xs g (rw b at h) k in rw rest (ground arith)
]

enqueue-found :
    (i : Identity) (e : ConversationEvent) (event_id now : ℕ) (db : Tables) (g : Generation)
    → first_where (λ r. r.id == i.id) db.generations ≡ some g
    → (t : Tables) × (enqueue_generation_event i e event_id now db ≡ ok t)
unfolding enqueue_generation_event
enqueue-found i e event_id now db g h = (
  append_event i e event_id (g.last_sequence + 1)
      (record db { generations = next_sequence i.id now db.generations }),
  rw (enqueue_generation_event, h) refl,
)

promote-cases :
    (status : Status) (id : ℕ) (db : Tables)
    → ((t : Tables) × (promote_if_completed status id db ≡ ok t) × (t.generations ≡ db.generations))
      ⊎ ((is_completed status ≡ true)
          × (f : Fault) × (promote_if_completed status id db ≡ err f)
          × (is_state_fault f ≡ true))
unfolding promote_if_completed promote_analysis_draft
promote-cases completed id db =
    elim (Option-cases (first_where (λ d. d.generation_id == id) db.drafts)) [
      | inl n ↦
          inr (refl, draft_missing, rw (promote_if_completed, promote_analysis_draft, n) refl, refl)
      | inr (d, n) ↦
          elim (Bool-cases (current_revision d.conversation_id db.states == d.base_revision)) [
            | inl b ↦ inl (
              record db {
                states =
                    upsert_state
                      (record {
                        conversation_id = d.conversation_id;
                        revision = d.revision;
                        state = d.state;
                        generation_id = id;
                      })
                      db.states;
              },
              rw (promote_if_completed, promote_analysis_draft, n, b) refl,
              refl,
            )
            | inr b ↦ inr (
              refl,
              state_conflict,
              rw (promote_if_completed, promote_analysis_draft, n, b) refl,
              refl,
            )
          ]
    ]
promote-cases _ id db = inl (db, refl, refl)

abbrev Finalizes :
    Writer
    → Status
    → Option String
    → Option ErrorCode
    → ConversationEvent
    → Option MessageState
    → ℕ
    → ℕ
    → Tables
    → Type 0
Finalizes w status error code terminal state event_id now db =
    ((t : Tables) × (finalize w status error code terminal state event_id now db ≡ ok (true, t)))
    ⊎ ((is_completed status ≡ true)
        × (f : Fault) × (finalize w status error code terminal state event_id now db ≡ err f)
        × (is_state_fault f ≡ true))

-- `finalize` by the one who holds the generation, where its condition is met.
pub finalize-Held :
    (w : Writer) (status : Status) (error : Option String) (code : Option ErrorCode)
    (terminal : ConversationEvent) (state : Option MessageState) (event_id now : ℕ) (db : Tables)
    → Held w db
    → any (is_finalizable w status) db.generations ≡ true
    → Finalizes w status error code terminal state event_id now db
unfolding finalize finish_tables
finalize-Held w status error code terminal state event_id now db h met =
    let ended =
      update_where (is_finalizable w status) (finish status error code now) db.generations in
    let row = if is_finalizable w status h.row then finish status error code now h.row else h.row in
    let there =
      first_where-update_where (λ g. g.id == w.id) (is_finalizable w status)
        (finish status error code now) (λ g. refl) db.generations h.found in
    elim (promote-cases status w.id (record db { generations = ended })) [
      | inl (mid, e, same) ↦
          let (t, q) =
            enqueue-found (identity_of w) terminal event_id now
              (finish_tables w status error state now mid) row
              (subst (λ gs. first_where (λ g. g.id == w.id) gs ≡ some row) (sym same) there) in
          inl (t, rw (finalize, met, e, q) refl)
      | inr (c, f, e, k) ↦ inr (c, f, rw (finalize, met, e) refl, k)
    ]

-- A failure or a cancellation finds the held row.
pub met-Held :
    (w : Writer) (status : Status) (db : Tables)
    → Held w db
    → is_completed status ≡ false
    → any (is_finalizable w status) db.generations ≡ true
met-Held w status db h c =
    let id = first_where-holds (λ g. g.id == w.id) db.generations h.found in
    any-first_where (λ g. g.id == w.id) (is_finalizable w status) db.generations h.row h.found
      (rw (id, h.token, h.owned, c) refl)

pub is_completed_eq : (s : Status) → is_completed s ≡ true → s ≡ completed
is_completed_eq completed h = refl
is_completed_eq _ h = cc

-- A completion misses it only where a cancellation is requested.
pub unmet-wanted :
    (w : Writer) (db : Tables)
    → Held w db
    → any (is_finalizable w completed) db.generations ≡ false
    → is_cancel_wanted w.id db ≡ true
unfolding is_cancel_wanted
unmet-wanted w db h u = elim (Bool-cases (is_cancel_requested (h.row).status)) [
  | inl b ↦ rw (is_cancel_wanted, h.found) (ground (arith, b))
  | inr b ↦
      let id = first_where-holds (λ g. g.id == w.id) db.generations h.found in
      let met =
        any-first_where (λ g. g.id == w.id) (is_finalizable w completed) db.generations h.row
          h.found (rw (id, h.token, h.owned, b) refl) in
      cc
]
