-- ===== src/Tests/Memories.antt =====
-- The theorems on memories at a concrete data source: one user, who owns it, and one memory.
use gist_agent.Base.{
  ◌≤◌, none, some, true, false, [], ◌∷◌, length, ◌≡◌, refl, Result, ok, err, arith, String, ◌==◌,
}
use gist_agent.Base.Text.{trim, trim_start, trim_end, is_space, units, squeeze}
use gist_agent.Sql.{Node, entry_at, text, object, entry, no_entry}
use gist_agent.Contracts.{completed}
use gist_agent.Tests.{asked_row}
use gist_agent.Memory.{
  Store, DataSource, DatasourceMemory, MemoryFault, active, manual, conversation, positive_integer,
  bounded_text, has_other_key, validate_memory, validate_stored, is_accessible, authorize,
  join_rows, record_of, Candidate, accepted, pending,
}
use gist_agent.Memory.Policy.{
  Unicode, normalized_name, normalize, matches, sort_matches, related_memories,
}
use gist_agent.Memory.Writing.{
  Draw, create, update, save, place, replace, insert_memory, update_memory, insert_revision,
  remember_from_conversation, learn, active_rows, order_by_id, insert_by_id,
}
use gist_agent.Memory.Decisions.{decide, decide_on, save_candidate, is_visible}
use gist_agent.Memory.Steps.{run, next, done, creating}
use gist_agent.Memory.Versions.{IsNumbered}
use gist_agent.Memory.Effects.{IsBounded}
use gist_agent.Memory.History.{Steps-IsNumbered, update-stale, Extends, Steps-Extends}
use gist_agent.Memory.Decided.{decide-repeated}
use gist_agent.Memory.Once.{remember-repeated}
use gist_agent.Memory.Resemblance.{related_memories-bounds}

-- Texts in which nothing changes under normalisation.
abbrev plain : Unicode
plain = record { nfkc = λ s. s; lower = λ s. s; is_mark = λ c. c == 44 }

abbrev owned : DataSource
owned = record { id = 3; created_by = some 1; is_local = true }

abbrev no_memories : Store
no_memories = record {
  sources = owned ∷ [];
  permissions = [];
  generations = [];
  memories = [];
  revisions = [];
  candidates = [];
}

abbrev body_of : String → String → Node
body_of name description =
    object (entry "name" (text name) (entry "description" (text description) no_entry))

abbrev gmv : Node
gmv = body_of "GMV" "paid orders"

abbrev draw : Draw
draw = record { id = 9; now = 50 }

abbrev result_store {ℓ} : {A : Type ℓ} → Result MemoryFault (A × Store) → Store
result_store (ok p) = p.1
result_store (err e) = no_memories

unfoldable one_memory : Store
unfolding run create positive_integer validate_memory bounded_text has_other_key entry_at trim
    trim_start trim_end is_space units authorize is_accessible save place insert_memory
    insert_revision join_rows normalized_name squeeze record_of
one_memory = result_store (create plain draw 1 3 gmv no_memories)

created : run plain (creating draw 1 3 gmv) no_memories ≡ ok one_memory
unfolding one_memory run create positive_integer validate_memory bounded_text has_other_key entry_at
    trim trim_start trim_end is_space units authorize is_accessible save place insert_memory
    insert_revision join_rows normalized_name squeeze record_of
created = refl

Steps-IsNumbered_example : IsNumbered one_memory × IsBounded one_memory.candidates
unfolding one_memory run create positive_integer validate_memory bounded_text has_other_key entry_at
    trim trim_start trim_end is_space units authorize is_accessible save place insert_memory
    insert_revision join_rows normalized_name squeeze record_of
Steps-IsNumbered_example =
    Steps-IsNumbered {u = plain} {s = no_memories} (next (creating draw 1 3 gmv) created done)
      (λ id. refl) (λ id. omega arith)

Steps-Extends_example : Extends no_memories one_memory
Steps-Extends_example = Steps-Extends (next (creating draw 1 3 gmv) created done)

abbrev described : Node
described = object (entry "description" (text "settled orders") no_entry)

abbrev later : Draw
later = record { id = 10; now = 60 }

abbrev pub described_memory : DatasourceMemory
described_memory = record {
  name = "GMV";
  description = "settled orders";
  id = 9;
  datasource_id = 3;
  version = 2;
  status = active;
  source = manual;
  source_message_id = none;
  created_by = 1;
  confirmed_by = 1;
  created_at = 50;
  updated_at = 60;
}

unfoldable two_versions : Store
unfolding one_memory update replace update_memory run create positive_integer validate_memory
    bounded_text has_other_key entry_at trim trim_start trim_end is_space units authorize
    is_accessible save place insert_memory insert_revision join_rows normalized_name squeeze
    record_of
two_versions = result_store (update plain later 1 9 1 described false one_memory)

updated : update plain later 1 9 1 described false one_memory ≡ ok (described_memory, two_versions)
unfolding two_versions one_memory update replace update_memory run create positive_integer
    validate_memory bounded_text has_other_key entry_at trim trim_start trim_end is_space units
    authorize is_accessible save place insert_memory insert_revision join_rows normalized_name
    squeeze record_of
updated = refl

update-stale_example :
    ¬ (update plain draw 1 9 1 gmv true two_versions ≡ ok (described_memory, two_versions))
update-stale_example =
    update-stale plain later 1 9 1 described false one_memory described_memory two_versions
      two_versions updated done draw 1 gmv true (described_memory, two_versions)

related_memories-bounds_example :
    (1
      ≤ length (
          related_memories plain
            (record { name = " GMV"; description = "x" })
            (described_memory ∷ [])
            none))
    × (length (
          related_memories plain
            (record { name = " GMV"; description = "x" })
            (described_memory ∷ [])
            none)
        ≤ 5)
unfolding normalize squeeze trim trim_start trim_end is_space
related_memories-bounds_example =
    related_memories-bounds plain (record { name = " GMV"; description = "x" }) none
      (described_memory ∷ []) refl

abbrev gmv_memory : DatasourceMemory
gmv_memory = record described_memory {
  description = "paid orders";
  version = 1;
  source = conversation;
  source_message_id = some 5;
  updated_at = 50;
}

unfoldable remembered : Store
unfolding remember_from_conversation learn active_rows order_by_id insert_by_id related_memories
    matches sort_matches run create positive_integer validate_memory bounded_text has_other_key
    entry_at trim trim_start trim_end is_space units authorize is_accessible save place
    insert_memory insert_revision join_rows normalized_name squeeze record_of
remembered = result_store (remember_from_conversation plain draw 1 3 5 gmv no_memories)

remembers :
    remember_from_conversation plain draw 1 3 5 gmv no_memories ≡ ok (gmv_memory, remembered)
unfolding remembered remember_from_conversation learn active_rows order_by_id insert_by_id
    related_memories matches sort_matches run create positive_integer validate_memory bounded_text
    has_other_key entry_at trim trim_start trim_end is_space units authorize is_accessible save
    place insert_memory insert_revision join_rows normalized_name squeeze record_of
remembers = refl

is_valid :
    validate_memory (body_of "Refund" "refunded orders")
    ≡ ok (record { name = "Refund"; description = "refunded orders" })
unfolding validate_memory bounded_text has_other_key entry_at trim trim_start trim_end is_space
    units
is_valid = refl

remember-repeated_example :
    remember_from_conversation plain later 1 3 5 (body_of "Refund" "refunded orders") remembered
    ≡ ok (gmv_memory, remembered)
remember-repeated_example =
    remember-repeated plain draw later 1 3 5 gmv (body_of "Refund" "refunded orders")
      (record { name = "Refund"; description = "refunded orders" }) no_memories gmv_memory
      remembered (λ id. refl) remembers is_valid

abbrev candidate : Candidate
candidate = record {
  id = 20;
  datasource_id = 3;
  user_id = 1;
  generation_id = 10;
  source_message_id = 11;
  memory_id = none;
  expected_version = none;
  content = record { name = "GMV"; description = "paid orders" };
  version = 1;
  status = pending;
  result_memory_id = none;
  result_version = none;
}

abbrev proposed : Store
proposed = record no_memories {
  generations = record asked_row { status = completed } ∷ [];
  candidates = candidate ∷ [];
}

unfoldable settled : Store
unfolding decide decide_on save_candidate is_visible validate_stored run create positive_integer
    validate_memory bounded_text has_other_key entry_at trim trim_start trim_end is_space units
    authorize is_accessible save place insert_memory insert_revision join_rows normalized_name
    squeeze record_of
settled = result_store (decide plain draw 1 20 1 true none proposed)

settles :
    decide plain draw 1 20 1 true none proposed
    ≡ ok (record { status = accepted; memory_id = some 9; version = some 1 }, settled)
unfolding settled decide decide_on save_candidate is_visible validate_stored run create
    positive_integer validate_memory bounded_text has_other_key entry_at trim trim_start trim_end
    is_space units authorize is_accessible save place insert_memory insert_revision join_rows
    normalized_name squeeze record_of
settles = refl

decide-repeated_example :
    decide plain later 1 20 1 true none settled
    ≡ ok (record { status = accepted; memory_id = some 9; version = some 1 }, settled)
decide-repeated_example =
    decide-repeated plain draw later 1 20 1 true none proposed
      (record { status = accepted; memory_id = some 9; version = some 1 }) settled settles
