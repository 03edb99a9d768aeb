-- ===== src/Lifecycle.antt =====
-- The life of a generation as a state machine, and the system as steps that the API and the workers
-- take for turns, one transaction or statement at a time, in any order.
pub mod Rows
pub mod Transitions
pub mod Steps
pub mod Endings
pub mod Courses
pub mod Capacity
pub mod Keys
pub mod Log
pub mod Phases
pub mod Numbering
pub mod NumberedSteps
pub mod Delivery
pub mod Finalizing
pub mod Running
pub mod Settling
use gist_agent.Base.{
  ℕ, String, Option, none, some, Bool, true, false, List, Result, ok, ◌≡◌, refl, arith, any, ◌==◌,
  All,
}
use gist_agent.Contracts.{
  Status, pending, starting, running, completed, failed, cancelled, cancel_requested, is_active,
  is_writable, is_terminal, is_done, ConversationEvent,
}
use gist_agent.Contracts.Errors.{ErrorCode}
use gist_agent.Database.{Generation, Tables}
use gist_agent.Turns.{Request, Draws, Created, create_turn, cancel}
use gist_agent.Worker.{
  Writer, MessageState, claim_row, claim_attempt, claim_run, heartbeat, finalize,
}
use gist_agent.Worker.Publishing.{
  publish, mark_first_delta, checkpoint_message, fail_queued, fail_stale,
}

-- The edges of the status diagram.
pub data Edge : Status → Status → Type 0 where
  start : Edge pending starting
  run : Edge starting running
  request_cancel : {s : Status} → is_active s ≡ true → Edge s cancel_requested
  complete : {s : Status} → is_writable s ≡ true → Edge s completed
  fail : {s : Status} → is_active s ≡ true → Edge s failed
  stop : {s : Status} → is_active s ≡ true → Edge s cancelled

pub data Leads (s : Status) : Status → Type 0 where
  here : Leads s s
  then : {t u : Status} → Leads s t → Edge t u → Leads s u

-- What stays the same while the system runs: the limit on a user's active generations, and how an
-- error code is written as a text.
pub record Settings : Type 0 where
  pub limit : ℕ
  pub code_text : Option ErrorCode → Option String

-- A new identifier: no row of `generation` has it, nor does an event refer to it.
abbrev pub IsFresh : ℕ → Tables → Type 0
IsFresh id db =
    (any (λ g. g.id == id) db.generations ≡ false)
    × (any (λ e. e.generation_id == id) db.events ≡ false)

-- An identity's user is that of its generation.
abbrev pub IsGenuine : Writer → List Generation → Type 0
IsGenuine w = All (λ g. (g.id == w.id) ≡ true → g.user_id ≡ w.user_id)

-- One step of turns and workers; the removal of a conversation is none of them. A call that fails leaves the tables alone, so it is no step. A worker
-- writes under the identity that it read from the generation. It finalizes with the status of an ended generation, and without a token only to cancel; what it
-- publishes while it runs is not the closing event.
pub data Step (settings : Settings) (db : Tables) : Tables → Type 0 where
  creates :
      (r : Request) (d : Draws) (c : Created) {next : Tables}
      → d.limit ≡ settings.limit
      → IsFresh d.id db
      → create_turn r d db ≡ ok (c, next)
      → Step settings db next
  cancels :
      (user_id id now : ℕ) {next : Tables}
      → cancel user_id id now db ≡ ok next
      → Step settings db next
  claims_row : (id token now : ℕ) → Step settings db (claim_row id token now db)
  claims_attempt : (id token : ℕ) → Step settings db (claim_attempt id token db)
  claims_run : (id token now : ℕ) → Step settings db (claim_run id token now db)
  beats : (id token now : ℕ) → Step settings db (heartbeat id token now db).1
  marks : (w : Writer) (now : ℕ) → Step settings db (mark_first_delta w now db)
  checkpoints :
      (w : Writer) (blocks llm_messages : String) {next : Tables}
      → checkpoint_message w blocks llm_messages db ≡ ok next
      → Step settings db next
  publishes :
      (w : Writer) (e : ConversationEvent) (event_id now : ℕ) {next : Tables}
      → IsGenuine w db.generations
      → is_done e.type ≡ false
      → publish w e event_id now db ≡ ok next
      → Step settings db next
  finalizes :
      (w : Writer) (status : Status) (error : Option String) (code : Option ErrorCode)
      (terminal : ConversationEvent) (state : Option MessageState) (event_id now : ℕ) {ended : Bool}
      {next : Tables}
      → IsGenuine w db.generations
      → is_terminal status ≡ true
      → (w.writer_token ≡ none → status ≡ cancelled)
      → is_done terminal.type ≡ true
      → finalize w status error code terminal state event_id now db ≡ ok (ended, next)
      → Step settings db next
  fails_queued :
      (id : ℕ) (error : String) (event_id now : ℕ) {next : Tables}
      → fail_queued id error event_id now db ≡ ok next
      → Step settings db next
  fails_stale :
      (timeout setting event_id now : ℕ) {n : ℕ} {next : Tables}
      → fail_stale settings.code_text timeout setting event_id now db ≡ ok (n, next)
      → Step settings db next

pub data Reach (settings : Settings) (db : Tables) : Tables → Type 0 where
  here : Reach settings db db
  next : {a b : Tables} → Reach settings db a → Step settings a b → Reach settings db b

pub Leads-trans : {s t u : Status} → Leads s t → Leads t u → Leads s u
Leads-trans p here = p
Leads-trans p (then q e) = then (Leads-trans p q) e

-- An ended generation has no edge out.
pub Edge-is_active : {s t : Status} → Edge s t → is_active s ≡ true
Edge-is_active start = refl
Edge-is_active run = refl
Edge-is_active (request_cancel h) = h
Edge-is_active {s} (complete h) = ground arith
Edge-is_active (fail h) = h
Edge-is_active (stop h) = h
