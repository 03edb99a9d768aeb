-- ===== src/Lifecycle/NumberedSteps.antt =====
-- The numbering of the events along the steps of the system.
use gist_agent.Base.{
  ℕ, String, Bool, true, false, List, [], ◌∷◌, ◌≡◌, refl, sym, subst, arith, rows_where,
  update_where, any, ok, All, All-mono, All-append, All-update_where, ◌==◌, Bool-cases, inl, inr,
  ◌∙◌, map,
}
use gist_agent.Contracts.{ConversationEvent}
use gist_agent.Database.{Generation, EventRow, Tables}
use gist_agent.Database.Outbox.{enqueue_generation_event}
use gist_agent.Turns.{Request, Draws, cancel, is_cancellable, request_cancel}
use gist_agent.Worker.{claim_row, claim_attempt, claim_run, heartbeat, identity_of, Writer}
use gist_agent.Worker.Publishing.{
  publish, mark_first_delta, checkpoint_message, identity_of_row, is_queued, is_writable_by,
  end_stale,
}
use gist_agent.Lifecycle.{
  Settings, Step, creates, cancels, claims_row, claims_attempt, claims_run, beats, marks,
  checkpoints, publishes, finalizes, fails_queued, fails_stale, Reach, here, next, IsFresh,
  IsGenuine,
}
use gist_agent.Lifecycle.Rows.{Moves}
use gist_agent.Lifecycle.Transitions.{enqueue-Moves}
use gist_agent.Lifecycle.Steps.{fail_row-Moves, end_stale-Moves}
use gist_agent.Lifecycle.Keys.{
  Distinct, Owns, Distinct-Owns, Added, create_turn-Grows, Step-Distinct,
}
use gist_agent.Lifecycle.Log.{events_of}
use gist_agent.Lifecycle.Numbering.{IsNumbered, Numbered, Numbered-update_where, Numbered-enqueue}
use gist_agent.Lifecycle.Phases.{
  SameLog, Closes, Updated, finalize-phases, fail_queued-phases, fail_stale-phases,
}

-- The rows, once they have changed, still share their users with the rows of their identifiers.
Owns-Moves : (r : Generation) (a b : List Generation) → Moves a b → Owns a r → Owns b r
Owns-Moves r [] [] m o = tt
Owns-Moves r [] (y ∷ ys) m o = absurd m.0
Owns-Moves r (x ∷ xs) [] m o = absurd m
Owns-Moves r (x ∷ xs) (y ∷ ys) (m, ms) (o, os) =
    ((λ e. m.same_user ∙ o (subst (λ k. (k == r.id) ≡ true) m.same_id e)), Owns-Moves r xs ys ms os)

All-rows_where :
    (P : Generation → Type 0) (p : Generation → Bool) (gs : List Generation)
    → All P gs
    → All P (rows_where p gs)
All-rows_where P p [] h = tt
All-rows_where P p (x ∷ xs) (h, hs) = elim (Bool-cases (p x)) [
  | inl b ↦ rw b (h, All-rows_where P p xs hs)
  | inr b ↦ rw b (All-rows_where P p xs hs)
]

All-end_stale :
    (gs : List Generation) (now : ℕ) (rows : List Generation)
    → All (Owns gs) rows
    → All (Owns gs) (map (end_stale now) rows)
All-end_stale gs now [] h = tt
All-end_stale gs now (x ∷ xs) (h, hs) = (h, All-end_stale gs now xs hs)

Numbered-SameLog :
    (a b : Tables) → SameLog a b → Numbered a.generations a.events → Numbered b.generations b.events
Numbered-SameLog a b (g, e) n = rw (g, e) n

-- A loop that logs one closing event for each of the rows.
Numbered-Closes :
    (rows : List Generation) (a b : Tables)
    → Closes rows a b
    → All (Owns a.generations) rows
    → Numbered a.generations a.events
    → Numbered b.generations b.events
Numbered-Closes [] a b s o n = Numbered-SameLog a b s n
Numbered-Closes (r ∷ rows) a b (before, after, e, event_id, now, s, d, h, rest) (o, os) n =
    let moves = enqueue-Moves (identity_of_row r) e event_id now before h in
    let owned : All (Owns before.generations) (r ∷ rows) =
      subst (λ gs. All (Owns gs) (r ∷ rows)) (sym s.0) (o, os) in
    Numbered-Closes rows after b rest
      (All-mono (Owns before.generations) (Owns after.generations)
        (λ x k. Owns-Moves x before.generations after.generations moves k) rows owned.1)
      (Numbered-enqueue (identity_of_row r) e now before after event_id h owned.0
        (Numbered-SameLog a before s n))

-- An update of the rows, and then the loop over some of them.
Numbered-ends :
    (p : Generation → Bool) (f : Generation → Generation) (rows : List Generation)
    (db mid last : Tables)
    → ((g : Generation)
        → ((f g).id ≡ g.id) × ((f g).user_id ≡ g.user_id) × ((f g).last_sequence ≡ g.last_sequence))
    → Moves db.generations (update_where p f db.generations)
    → Updated p f db mid
    → Closes rows mid last
    → All (Owns db.generations) rows
    → Numbered db.generations db.events
    → Numbered last.generations last.events
Numbered-ends p f rows db mid last same moves (u, v) c o n =
    Numbered-Closes rows mid last c
      (rw u
        (All-mono (Owns db.generations) _ (λ x k. Owns-Moves x db.generations _ moves k) rows o))
      (rw (u, v) (Numbered-update_where p f same db.generations db.events n))

no_events :
    (id : ℕ) (es : List EventRow)
    → any (λ e. e.generation_id == id) es ≡ false
    → events_of id es ≡ []
no_events id [] h = refl
no_events id (x ∷ xs) h = ground (arith, no_events id xs)

Numbered-Added :
    (r : Request) (d : Draws) (db last : Tables)
    → Added r d db last
    → IsFresh d.id db
    → Numbered db.generations db.events
    → Numbered last.generations last.events
Numbered-Added r d db last a f n =
    rw (a.grown, a.same_events)
      (All-append (λ g. IsNumbered g (events_of g.id db.events)) db.generations _ n
        (rw (no_events d.id db.events f.1)
          (record { consecutive = tt; complete = refl; owned = tt; faithful = tt }, tt)))

-- An update of columns other than the keys and the counter.
Numbered-updates :
    (p : Generation → Bool) (f : Generation → Generation) (db : Tables)
    → ((g : Generation)
        → ((f g).id ≡ g.id) × ((f g).user_id ≡ g.user_id) × ((f g).last_sequence ≡ g.last_sequence))
    → Numbered db.generations db.events
    → Numbered (update_where p f db.generations) db.events
Numbered-updates p f db same n = Numbered-update_where p f same db.generations db.events n

IsGenuine-update_where :
    (w : Writer) (p : Generation → Bool) (f : Generation → Generation) (gs : List Generation)
    → ((g : Generation) → ((f g).id ≡ g.id) × ((f g).user_id ≡ g.user_id))
    → IsGenuine w gs
    → IsGenuine w (update_where p f gs)
IsGenuine-update_where w p f gs same h =
    All-update_where (λ g. (g.id == w.id) ≡ true → g.user_id ≡ w.user_id)
      (λ g. (g.id == w.id) ≡ true → g.user_id ≡ w.user_id) p f
      (λ g k _ e. (same g).1 ∙ k (subst (λ i. (i == w.id) ≡ true) (same g).0 e)) (λ g k _. k) gs h

mark_first_delta-Numbered :
    (w : Writer) (now : ℕ) (db : Tables)
    → Numbered db.generations db.events
    → Numbered (mark_first_delta w now db).generations (mark_first_delta w now db).events
unfolding mark_first_delta
mark_first_delta-Numbered w now db n = elim (Bool-cases (any (is_writable_by w) db.generations)) [
  | inl b ↦ rw b (Numbered-updates _ _ db (λ g. (refl, refl, refl)) n)
  | inr b ↦ rw b n
]

checkpoint-SameLog :
    (w : Writer) (blocks llm_messages : String) (db last : Tables)
    → checkpoint_message w blocks llm_messages db ≡ ok last
    → SameLog db last
unfolding checkpoint_message
checkpoint-SameLog w blocks llm_messages db last h = ground arith

cancel-Updated :
    (user_id id now : ℕ) (db last : Tables)
    → cancel user_id id now db ≡ ok last
    → Updated (is_cancellable user_id id) (request_cancel now) db last
unfolding cancel
cancel-Updated user_id id now db last h = ground arith

publish-enqueues :
    (w : Writer) (e : ConversationEvent) (event_id now : ℕ) (db last : Tables)
    → publish w e event_id now db ≡ ok last
    → enqueue_generation_event (identity_of w) e event_id now db ≡ ok last
unfolding publish
publish-enqueues w e event_id now db last h = ground arith

pub Step-Numbered :
    {settings : Settings} {db last : Tables}
    → Step settings db last
    → Distinct db.generations
    → Numbered db.generations db.events
    → Numbered last.generations last.events
unfolding claim_row claim_attempt claim_run heartbeat
Step-Numbered {db = db} {last = last} (creates r d c l f h) k n =
    elim (create_turn-Grows r d c db last h) [
      | inl same ↦ rw same n
      | inr a ↦ Numbered-Added r d db last a f n
    ]
Step-Numbered {db = db} {last = last} (cancels user_id id now h) k n =
    let (u, v) = cancel-Updated user_id id now db last h in
    rw (u, v) (Numbered-updates _ _ db (λ g. (refl, refl, refl)) n)
Step-Numbered {db = db} (claims_row id token now) k n =
    Numbered-updates _ _ db (λ g. (refl, refl, refl)) n
Step-Numbered (claims_attempt id token) k n = n
Step-Numbered {db = db} (claims_run id token now) k n =
    Numbered-updates _ _ db (λ g. (refl, refl, refl)) n
Step-Numbered {db = db} (beats id token now) k n =
    Numbered-updates _ _ db (λ g. (refl, refl, refl)) n
Step-Numbered {db = db} (marks w now) k n = mark_first_delta-Numbered w now db n
Step-Numbered {db = db} {last = last} (checkpoints w blocks llm_messages h) k n =
    Numbered-SameLog db last (checkpoint-SameLog w blocks llm_messages db last h) n
Step-Numbered {db = db} {last = last} (publishes w e event_id now g o h) k n =
    Numbered-enqueue (identity_of w) e now db last event_id
      (publish-enqueues w e event_id now db last h) g n
Step-Numbered {db = db} {last = last}
      (finalizes w status error code terminal state event_id now g t c o h) k n =
    elim (finalize-phases w status error code terminal state event_id now db last _ h) [
      | inl (a, b, same) ↦ rw same n
      | inr (a, b, (mid, (u, v), e)) ↦
          Numbered-enqueue (identity_of w) terminal now mid last event_id e
            (subst (IsGenuine w) (sym u)
              (IsGenuine-update_where w _ _ db.generations (λ g. (refl, refl)) g))
            (rw (u, v) (Numbered-updates _ _ db (λ g. (refl, refl, refl)) n))
    ]
Step-Numbered {db = db} {last = last} (fails_queued id error event_id now h) k n =
    let (mid, u, c) = fail_queued-phases id error event_id now db last h in
    Numbered-ends _ _ _ db mid last (λ g. (refl, refl, refl))
      (fail_row-Moves id error now db.generations) u c
      (All-rows_where (Owns db.generations) (is_queued id) db.generations
        (Distinct-Owns db.generations k))
      n
Step-Numbered {settings} {db = db} {last = last} (fails_stale timeout setting event_id now h) k n =
    let (mid, u, c) =
      fail_stale-phases settings.code_text timeout setting event_id now _ db last h in
    Numbered-ends _ _ _ db mid last (λ g. (refl, refl, refl))
      (end_stale-Moves _ _ now db.generations) u c
      (All-end_stale db.generations now _
        (All-rows_where (Owns db.generations) _ db.generations (Distinct-Owns db.generations k)))
      n

-- Where the generations have distinct identifiers and each one's logged events are numbered from 1 to
-- its `last_sequence` and carry its user, this still holds after any sequence of steps of turns
-- and workers: no number is skipped, repeated or out of order.
pub Reach-Numbered :
    {settings : Settings} {db last : Tables}
    → Reach settings db last
    → Distinct db.generations
    → Numbered db.generations db.events
    → Distinct last.generations × Numbered last.generations last.events
Reach-Numbered here d n = (d, n)
Reach-Numbered (next r s) d n =
    let (d', n') = Reach-Numbered r d n in (Step-Distinct s d', Step-Numbered s d' n')
