-- ===== src/Tests/Services.antt =====
-- The theorems on the SQL check, the text buffer, the semaphores, the relay and the answer at concrete
-- data.
use gist_agent.Base.Text.{concat}
use gist_agent.Worker.Answer.{new_stream, push_all, finish_answer, join_all}
use gist_agent.Worker.Showing.{push_all-finish}
use gist_agent.Base.{
  Bool, str_eq, false, ◌≤◌, ◌⊎◌, inr, ℕ, String, none, some, true, List, [], ◌∷◌, ◌≡◌, refl, inl,
  ok, All, arith,
}
use gist_agent.Contracts.{running, completed, text_chunk, ConversationEvent, StreamEvent}
use gist_agent.Database.{Delivery, event}
use gist_agent.Worker.{done_event}
use gist_agent.Worker.Buffer.{flush, Tick, sends, timer, run_buffer, sent}
use gist_agent.Worker.Coalescing.{joined, run_buffer-sent}
use gist_agent.Worker.Semaphores.{Gate, Call, acquires, releases, after_calls}
use gist_agent.Worker.Limits.{IsBounded, after_calls-IsBounded}
use gist_agent.Sql.{
  Entries, Node, text, array, object, no_more, more, no_entry, entry, check, has, entry_at, get,
  is_select, is_write, writes_or_locks_at, check_from, cte_name,
}
use gist_agent.Sql.Calls.{Calls}
use gist_agent.Sql.Soundness.{check-Reads}
use gist_agent.Sql.Reads.{Reads, statement, source, Item, Cte}
use gist_agent.Tests.{asked_row}
use gist_agent.Relay.{Channel, Try, publish_tries}
use gist_agent.Relay.Dispatch.{Job, candidates}
use gist_agent.Relay.Rounds.{In, candidates-first}
use gist_agent.Relay.Ordering.{IsOrdered, publish_tries-IsOrdered}

abbrev piece : String → ConversationEvent
piece s = record (done_event running none none) { type = text_chunk; content = some s }

abbrev closing : ConversationEvent
closing = done_event completed none none

abbrev ticks : List Tick
ticks = sends (piece "a") ∷ sends (piece "b") ∷ timer ∷ sends (piece "c") ∷ sends closing ∷ []

run_buffer-sent_example :
    joined (flush (run_buffer ticks (record { waiting = none; published = [] }))).published
    ≡ joined (sent ticks)
run_buffer-sent_example = run_buffer-sent ticks

abbrev gate : Gate
gate = record { key = 1; limit = 1; leases = [] }

abbrev calls : List Call
calls = acquires 10 20 5 (1 ∷ []) ∷ acquires 11 21 6 (1 ∷ []) ∷ releases 5 (1 ∷ []) ∷ []

after_calls-IsBounded_example : All IsBounded (after_calls calls (gate ∷ []))
after_calls-IsBounded_example = after_calls-IsBounded calls (gate ∷ []) (omega arith, tt)

-- `SELECT … FROM orders`, and the same under a WITH clause that the query reads.
abbrev orders : Node
orders = object (
    entry "type" (text "select") (
      entry "from" (array (more (object (entry "table" (text "orders") no_entry)) no_more))
        no_entry))

abbrev recent : Node
recent =
    object (
      entry "stmt" orders (entry "name" (object (entry "value" (text "recent") no_entry)) no_entry))

abbrev query : Node
query = object (
    entry "type" (text "select") (
      entry "with" (array (more recent no_more)) (
        entry "from" (array (more (object (entry "table" (text "recent") no_entry)) no_more))
          no_entry)))

abbrev no_text : Node → String
no_text v = ""

query-passes : check no_text ("orders" ∷ []) [] query ≡ ok tt
unfolding check is_select is_write entry_at writes_or_locks_at get check_from cte_name
query-passes = refl

query-Reads : Reads no_text [] query "" "orders"
unfolding entry_at get
query-Reads = statement refl refl Cte.first (source refl refl Item.first refl (inr refl))

check-Reads_example :
    (◌≡◌ {A = String} "" "" ⊎ ◌≡◌ {A = String} "" "public") × (has "orders" ("orders" ∷ []) ≡ true)
check-Reads_example =
    check-Reads no_text ("orders" ∷ []) [] query "" "orders" query-passes query-Reads

abbrev first_event : StreamEvent
first_event = record {
  event = piece "a";
  event_id = 4;
  generation_id = 10;
  conversation_id = 7;
  message_id = 12;
  sequence = 1;
}

abbrev channel : Channel
channel = record { last = 0; stream = []; user_stream = []; published = [] }

abbrev tries : List Try
tries =
    record { event_id = 4; delivery = event 1 1 first_event; generations = asked_row ∷ [] }
    ∷ record { event_id = 4; delivery = event 1 1 first_event; generations = asked_row ∷ [] }
    ∷ []

publish_tries-IsOrdered_example : IsOrdered (publish_tries 10 tries channel)
publish_tries-IsOrdered_example =
    publish_tries-IsOrdered 10 tries channel (record { ascending = tt; tops = refl })

abbrev job : ℕ → Delivery → Job
job id d = record {
  id = id;
  aggregate_id = 10;
  delivery = d;
  attempts = 0;
  last_error = none;
  created_at = id;
  published_at = none;
  dead_lettered_at = none;
  next_attempt_at = 0;
  locked_at = none;
  lock_token = none;
}

-- Two waiting events of one generation: the second one is not taken.
abbrev jobs : List Job
jobs = job 1 (event 1 1 first_event) ∷ job 2 (event 1 2 first_event) ∷ []

taken : In (job 1 (event 1 1 first_event)) (candidates 5 jobs)
unfolding candidates
taken = inl refl

candidates-first_example :
    (1 ≤ 2) × (◌≡◌ {A = ℕ} 2 1 ⊎ ¬ In (job 2 (event 1 2 first_event)) (candidates 5 jobs))
candidates-first_example =
    candidates-first 5 jobs (job 1 (event 1 1 first_event)) (job 2 (event 1 2 first_event)) 1 1 1 2
      first_event first_event taken (inr (inl refl)) refl refl refl refl refl

-- `count(…)` in the list of a SELECT.
abbrev count_call : Entries
count_call = entry "type" (text "aggr_func") (entry "name" (text "count") no_entry)

abbrev count_query : Node
count_query = object (entry "columns" (array (more (object count_call) no_more)) no_entry)

abbrev same_text : String → String
same_text s = s

-- An answer in fragments: the first one is held back, the second one shows its language.
abbrev fragments : List String
fragments = "1 " ∷ "二" ∷ "三" ∷ []

abbrev is_second : String → Bool
is_second s = str_eq s "1 二"

abbrev never : String → Bool
never s = false

push_all-finish_example :
    concat
      (push_all never is_second fragments (new_stream true)).0
      (finish_answer (join_all fragments) (push_all never is_second fragments (new_stream true)).1)
    ≡ join_all fragments
push_all-finish_example = push_all-finish never is_second true fragments
