-- ===== src/Lifecycle/Transitions.antt =====
-- The operations of the API and of the workers as moves of the rows of `generation`.
use gist_agent.Base.{
  ℕ, Option, none, some, true, [], ◌∷◌, ◌++◌, ok, ◌≡◌, arith, Evolves-concat, update_where,
  Bool-cases, inl, inr, is_some_eq, any, ◌&&◌, ◌==◌,
}
use gist_agent.Contracts.{
  Status, pending, starting, running, is_pending, is_starting, ConversationEvent,
}
use gist_agent.Database.{Generation, Conversation, Tables}
use gist_agent.Database.Outbox.{Identity, enqueue_generation_event}
use gist_agent.Turns
use gist_agent.Turns.{
  Request, Draws, Created, create_turn, cancel, is_cancellable, is_same_key, is_own_conversation,
  new_generation, admit, replay,
}
use gist_agent.Worker.{Writer, claim_row, claim_run, heartbeat, is_claimable, is_beating}
use gist_agent.Worker.Publishing.{publish, mark_first_delta, is_writable_by}
use gist_agent.Lifecycle.{Leads, here, then, start, run, request_cancel, here}
use gist_agent.Lifecycle.Rows.{
  RowStep, RowStep-refl, IsNew, Rows, Rows-of_Moves, Moves, Moves-refl, Moves-update_where,
  generations-enqueue, Moves-next_sequence,
}

-- What an update of a row's status, times and token leaves as it is.
abbrev Kept : Generation → Generation → Type 0
Kept g h =
    (h.id ≡ g.id)
    × (h.user_id ≡ g.user_id)
    × (h.conversation_id ≡ g.conversation_id)
    × (h.response_message_id ≡ g.response_message_id)
    × (h.last_sequence ≡ g.last_sequence)

pub moved : (g h : Generation) → Kept g h → Leads g.status h.status → RowStep g h
moved g h (a, b, c, d, e) l = record {
  same_id = a;
  same_user = b;
  same_conversation = c;
  same_response = d;
  grows = omega arith;
  leads = l;
}

admit-Rows :
    (r : Request) (d : Draws) (c : Created) (db : Tables) (o : Option Conversation) {next : Tables}
    → admit r d db o ≡ ok (c, next)
    → Rows db.generations next.generations
unfolding admit
admit-Rows r d c db none h = cc
admit-Rows r d c db (some v) {next} h =
    let q : next.generations
        ≡ db.generations ++ new_generation r d v.datasource_id db.generations ∷ [] =
      ground arith in
    rw q (Evolves-concat RowStep IsNew RowStep-refl _ _ here)

replay-Rows :
    (r : Request) (d : Draws) (c : Created) (db : Tables) (o : Option Generation) {next : Tables}
    → replay r d db o ≡ ok (c, next)
    → Rows db.generations next.generations
unfolding replay
replay-Rows r d c db none h = admit-Rows r d c db _ h
replay-Rows r d c db (some g) {next} h =
    let q : next.generations ≡ db.generations = ground arith in
    rw q (Rows-of_Moves _ _ (Moves-refl _))

pub create_turn-Rows :
    (r : Request) (d : Draws) (c : Created) (db : Tables) {next : Tables}
    → create_turn r d db ≡ ok (c, next)
    → Rows db.generations next.generations
unfolding create_turn
create_turn-Rows r d c db h = replay-Rows r d c db _ h

pub cancel-Moves :
    (user_id id now : ℕ) (db : Tables) {next : Tables}
    → cancel user_id id now db ≡ ok next
    → Moves db.generations next.generations
unfolding cancel
cancel-Moves user_id id now db {next} h =
    let q : next.generations
        ≡ update_where (is_cancellable user_id id) (Turns.request_cancel now) db.generations =
      ground arith in
    rw q (
      Moves-update_where (is_cancellable user_id id) (Turns.request_cancel now)
        (λ g p. moved _ _ (ground arith) (then here (request_cancel (ground arith)))) _)

start_lem : (s : Status) → is_pending s ≡ true → Leads s starting
start_lem pending h = then here start
start_lem s h = cc

run_lem : (s : Status) → is_starting s ≡ true → Leads s running
run_lem starting h = then here run
run_lem s h = cc

pub claim_row-Moves :
    (id token now : ℕ) (db : Tables) → Moves db.generations (claim_row id token now db).generations
unfolding claim_row
claim_row-Moves id token now db =
    Moves-update_where (is_claimable id) _
      (λ g p. moved _ _ (ground arith) (start_lem g.status (ground arith))) _

pub claim_run-Moves :
    (id token now : ℕ) (db : Tables) → Moves db.generations (claim_run id token now db).generations
unfolding claim_run
claim_run-Moves id token now db =
    Moves-update_where (λ g. g.id == id && is_some_eq g.writer_token token && is_starting g.status)
      _ (λ g p. moved _ _ (ground arith) (run_lem g.status (ground arith))) _

pub heartbeat-Moves :
    (id token now : ℕ) (db : Tables)
    → Moves db.generations (heartbeat id token now db).1.generations
unfolding heartbeat
heartbeat-Moves id token now db =
    Moves-update_where (is_beating id token) _ (λ g p. moved _ _ (ground arith) here) _

pub mark_first_delta-Moves :
    (w : Writer) (now : ℕ) (db : Tables)
    → Moves db.generations (mark_first_delta w now db).generations
unfolding mark_first_delta
mark_first_delta-Moves w now db = elim (Bool-cases (any (is_writable_by w) db.generations)) [
  | inl e ↦ rw e (Moves-update_where (is_writable_by w) _ (λ g p. moved _ _ (ground arith) here) _)
  | inr e ↦ rw e (Moves-refl _)
]

pub enqueue-Moves :
    (i : Identity) (e : ConversationEvent) (event_id now : ℕ) (db : Tables) {next : Tables}
    → enqueue_generation_event i e event_id now db ≡ ok next
    → Moves db.generations next.generations
enqueue-Moves i e event_id now db h =
    rw (generations-enqueue i e event_id now db h) (Moves-next_sequence _ _ _)

pub publish-Moves :
    (w : Writer) (e : ConversationEvent) (event_id now : ℕ) (db : Tables) {next : Tables}
    → publish w e event_id now db ≡ ok next
    → Moves db.generations next.generations
unfolding publish
publish-Moves w e event_id now db h = elim (Bool-cases (any (is_writable_by w) db.generations)) [
  | inl b ↦ enqueue-Moves _ e event_id now db (rw b at h)
  | inr b ↦ cc (rw b at h)
]
