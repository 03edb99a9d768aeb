-- ===== src/Tests.antt =====
-- The theorems at concrete tables and stores: a question asked in a new conversation, a generation that
-- runs, one that has ended, and a browser that lags behind.
pub mod Services
pub mod Memories
pub mod Runs
pub mod Logins
pub mod Patches
pub mod Deletions
pub mod Messages
use gist_agent.Base.{
  ℕ, String, none, some, true, false, List, [], ◌∷◌, ok, first_where, ◌==◌, ◌≤◌, ◌⊎◌, refl, ◌≡◌,
  arith, any, All,
}
use gist_agent.Contracts.{
  pending, Activity, analysis_activity, running, failed, cancel_requested, ConversationEvent,
  text_chunk,
}
use gist_agent.Database.{Generation, Conversation, Message, EventRow, Tables, assistant}
use gist_agent.Database.Outbox.{stream_event, append_event, next_sequence, enqueue_generation_event}
use gist_agent.Turns.{Request, Draws, create_turn, created_of, new_generation, insert_turn}
use gist_agent.Turns.History.{History, history, events}
use gist_agent.Worker.{
  heartbeat, Writer, identity_of, done_event, finalize, finish, finish_tables, promote_if_completed,
}
use gist_agent.Worker.Publishing.{identity_of_row}
use gist_agent.Lifecycle.Finalizing.{finalize-once}
use gist_agent.Client.Blocks.{Block, block_of, apply_block}
use gist_agent.Client.{
  GenerationState, Thread, Store, gap, apply_event, apply_known, resync, receive,
}
use gist_agent.Client.Sequence.{sequence_of, Applied, Ignored, Refused, apply_event-outcome}
use gist_agent.Client.Recovery.{resync-history, receive-gap}
use gist_agent.Client.Activities.{shown, apply_block-once}
use gist_agent.Turns.Idempotency.{create_turn-again}
use gist_agent.Lifecycle.{Settings, Reach, here, next, creates, beats}
use gist_agent.Lifecycle.Keys.{Distinct}
use gist_agent.Lifecycle.Numbering.{Numbered, IsNumbered}
use gist_agent.Lifecycle.NumberedSteps.{Reach-Numbered}
use gist_agent.Lifecycle.Endings.{Reach-IsStopping, IsStopping}
use gist_agent.Lifecycle.Courses.{Course, begun, steps, removes, IsLasting, Course-ended}
use gist_agent.Conversations.{remove, find_one, delete_conversation}
use gist_agent.Lifecycle.Capacity.{Reach-IsWithin, IsWithin}
use gist_agent.Lifecycle.Delivery.{history-unseen, unseen}

abbrev settings : Settings
settings = record { limit = 2; code_text = λ c. none }

abbrev chat : Conversation
chat = record { id = 7; user_id = 1; title = "新对话"; datasource_id = some 3; updated_at = 0 }

abbrev start_tables : Tables
start_tables = record {
  generations = [];
  messages = [];
  conversations = chat ∷ [];
  turns = [];
  attempts = [];
  events = [];
  outbox = [];
  states = [];
  drafts = [];
}

abbrev question : Request
question = record {
  user_id = 1;
  conversation_id = 7;
  message = "hello";
  datasource_id = none;
  idempotency_key = "k";
  request_hash = "h";
  reasoning_enabled = false;
}

abbrev draws : Draws
draws = record {
  id = 10;
  request_message_id = 11;
  response_message_id = 12;
  turn_id = 13;
  now = 100;
  limit = 2;
  model_provider = "p";
  model_name = "m";
}

abbrev asked : Tables
asked = insert_turn question draws chat start_tables

abbrev asked_row : Generation
asked_row = new_generation question draws (some 3) []

create_turn_runs : create_turn question draws start_tables ≡ ok (created_of asked_row, asked)
unfolding create_turn
create_turn_runs = refl

asked-Reach : Reach settings start_tables asked
asked-Reach =
    next here (creates question draws (created_of asked_row) refl (refl, refl) create_turn_runs)

Reach-Numbered_example : Distinct asked.generations × Numbered asked.generations asked.events
Reach-Numbered_example = Reach-Numbered asked-Reach tt tt

Reach-IsWithin_example : IsWithin 2 asked.generations
Reach-IsWithin_example =
    Reach-IsWithin asked-Reach (record { one_each = λ c. omega arith; limited = λ u. omega arith })

abbrev stopped_row : Generation
stopped_row = record asked_row { status = cancel_requested; cancel_requested_at = some 101 }

abbrev ended_row : Generation
ended_row = record asked_row { status = failed; completed_at = some 101 }

abbrev tables_with : Generation → Tables
tables_with g = record asked { generations = g ∷ [] }

abbrev same_settings_beat : Generation → Tables
same_settings_beat g = (heartbeat 10 5 102 (tables_with g)).1

beat-Reach : (g : Generation) → Reach settings (tables_with g) (same_settings_beat g)
beat-Reach g = next here (beats 10 5 102)

ended-IsLasting : All (IsLasting 10 7 failed) (tables_with ended_row).generations
ended-IsLasting = ((λ e. (refl, refl)), tt)

-- The worker's heartbeat, and then the removal of the conversation.
ended-Course :
    Course settings 10
      (tables_with ended_row)
      (7 ∷ [])
      (delete_conversation 7 1 (same_settings_beat ended_row))
unfolding remove find_one delete_conversation heartbeat
ended-Course = removes 7 1 (steps begun (beats 10 5 102) (omega arith)) refl

Course-ended_example :
    All (IsLasting 10 7 failed) (delete_conversation 7 1 (same_settings_beat ended_row)).generations
    × ((any (λ r. r.id == 10) (delete_conversation 7 1 (same_settings_beat ended_row)).generations
          ≡ true)
        ⊎ (any (λ k. k == 7) (7 ∷ []) ≡ true))
Course-ended_example = Course-ended 10 7 failed ended-Course refl ended-IsLasting refl

Reach-IsStopping_example :
    (h : Generation) × (first_where (λ r. r.id == 10) (same_settings_beat stopped_row).generations
      ≡ some h)
    × IsStopping h.status
Reach-IsStopping_example = Reach-IsStopping 10 stopped_row (beat-Reach stopped_row) refl refl

-- A generation that runs, with two logged events.
abbrev running_row : Generation
running_row = record asked_row { status = running; writer_token = some 5; last_sequence = 2 }

abbrev chunk : ConversationEvent
chunk = record (done_event running none none) { type = text_chunk; content = some "a" }

abbrev logged : ℕ → EventRow
logged n = record {
  generation_id = 10;
  user_id = 1;
  conversation_id = 7;
  message_id = 12;
  sequence = n;
  event_type = text_chunk;
  payload = stream_event (identity_of_row asked_row) chunk n n;
}

abbrev running_tables : Tables
running_tables = record asked { generations = running_row ∷ []; events = logged 1 ∷ logged 2 ∷ [] }

abbrev response : Message
response = record {
  id = 12;
  conversation_id = 7;
  role = assistant;
  content = "";
  blocks = "[]";
  llm_messages = "[]";
}

running-IsNumbered : IsNumbered running_row running_tables.events
running-IsNumbered = record {
  consecutive = (refl, (refl, tt));
  complete = refl;
  owned = (refl, (refl, tt));
  faithful = ((refl, refl, refl), ((refl, refl, refl), tt));
}

history-unseen_example : history 1 10 1 running_tables ≡ ok (events ((logged 2).payload ∷ []) 2)
history-unseen_example =
    history-unseen 1 10 1 running_tables running_row response refl refl refl running-IsNumbered
      (omega arith)

abbrev writer : Writer
writer = record {
  id = 10;
  conversation_id = 7;
  message_id = 12;
  user_id = 1;
  writer_token = some 5;
}

abbrev closing : ConversationEvent
closing = done_event failed none none

abbrev finalized : Tables
finalized =
    append_event (identity_of writer) closing 3 3
      (record (finish_tables writer failed none none 103 running_tables) {
        generations = next_sequence 10 103 (finish failed none none 103 running_row ∷ []);
      })

finalize_runs :
    finalize writer failed none none closing none 3 103 running_tables ≡ ok (true, finalized)
unfolding finalize promote_if_completed enqueue_generation_event
finalize_runs = refl

finalize-once_example :
    finalize writer failed none none closing none 4 104 finalized ≡ ok (false, finalized)
finalize-once_example =
    finalize-once writer failed none none closing none 3 103 running_tables finalized refl
      (refl, tt) finalize_runs writer failed none none closing none 4 104 refl

create_turn-again_example : create_turn question draws asked ≡ ok (created_of asked_row, asked)
create_turn-again_example =
    create_turn-again question draws draws (created_of asked_row) start_tables asked
      create_turn_runs

-- A browser that knows the generation and has seen none of its events.
abbrev seen_state : GenerationState
seen_state = record {
  id = 10;
  conversation_id = 7;
  message_id = 12;
  status = pending;
  sequence = 0;
}

abbrev thread : Thread
thread = record {
  id = 7;
  messages = (record { id = 12; content = ""; blocks = []; animate_text = false }) ∷ [];
  updated_at = 0;
}

abbrev store : Store
store = record { generations = seen_state ∷ []; conversations = thread ∷ []; fetches = [] }

abbrev no_blocks : String → List Block
no_blocks s = []

abbrev ask : ℕ → History
ask after = events (unseen 10 after running_tables.events) 2

history_asked : history 1 10 0 running_tables ≡ ok (ask 0)
history_asked =
    history-unseen 1 10 0 running_tables running_row response refl refl refl running-IsNumbered
      (omega arith)

resync-history_example : sequence_of 10 (resync no_blocks 10 ask 200 store) ≡ 2
resync-history_example =
    resync-history no_blocks 1 200 running_tables running_row response seen_state store ask refl
      refl running-IsNumbered refl (omega arith) history_asked

leaves_gap : (apply_event (logged 2).payload 200 store).0 ≡ gap
unfolding apply_event apply_known
leaves_gap = refl

receive-gap_example : sequence_of 10 (receive no_blocks (logged 2).payload ask 200 store) ≡ 2
receive-gap_example =
    receive-gap no_blocks 1 200 running_tables running_row response seen_state store ask
      (logged 2).payload refl refl running-IsNumbered refl (omega arith) history_asked refl
      (omega arith) (omega arith) leaves_gap

apply_event-outcome_example :
    Applied (logged 1).payload 0 (apply_event (logged 1).payload 200 store)
    ⊎ Ignored (logged 1).payload 0 store (apply_event (logged 1).payload 200 store)
    ⊎ Refused (logged 1).payload 0 store (apply_event (logged 1).payload 200 store)
apply_event-outcome_example = apply_event-outcome (logged 1).payload 200 store (omega arith)

abbrev step_activity : Activity
step_activity = record { id = "a"; body = "" }

abbrev activity_event : ConversationEvent
activity_event = record chunk { type = analysis_activity; activity = some step_activity }

abbrev activity_blocks : List Block
activity_blocks = block_of activity_event ∷ []

shown_single : (k : String) → shown k activity_blocks ≤ 1
shown_single k = ground arith

apply_block-once_example : shown "a" (apply_block activity_event activity_blocks) ≤ 1
apply_block-once_example = apply_block-once activity_event activity_blocks (λ k. shown_single k) "a"
