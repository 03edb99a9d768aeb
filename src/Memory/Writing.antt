-- ===== src/Memory/Writing.antt =====
-- packages/database/src/memory-repository.ts: the operations that write a memory and its revisions.
-- The time and the identifier that the database draws for a new row are arguments.
use gist_agent.Base.{
  ℕ, ◌+◌, Option, none, some, Bool, true, false, not, ◌&&◌, ◌||◌, List, [], ◌∷◌, ◌++◌, map, ◌==◌,
  ltb, str_eq, if◌then◌else◌, is_some_eq, is_some, is_empty, any, update_where, Result, ok, err,
  ◌>>=◌, String,
}
use gist_agent.Sql.{Node, Entries}
use gist_agent.Memory.{
  MemoryContent, MemoryStatus, MemorySource, MemoryRow, Revision, Store, DatasourceMemory,
  MemoryFault, bad_request, not_found, conflict, review_required, unique_violation, no_row, active,
  deleted, is_active, positive_integer, validate_memory, authorize, memory_at, Row, join_rows,
  is_current, record_of, first_row, transaction,
}
use gist_agent.Memory.Policy.{Unicode, normalized_name, related_memories}

-- What the database draws for a statement: `gen_random_uuid()` and `NOW()`.
pub record Draw : Type 0 where
  pub id : ℕ
  pub now : ℕ

-- The unique index `datasource_memory_active_name`, for the row that is written.
abbrev pub name_taken : MemoryRow → List MemoryRow → Bool
name_taken m = any (λ x.
    is_active m.status
    && is_active x.status
    && x.datasource_id == m.datasource_id
    && str_eq x.normalized_name m.normalized_name
    && not (x.id == m.id))

unfoldable pub insert_memory : MemoryRow → List MemoryRow → Result MemoryFault (List MemoryRow)
insert_memory m ms =
    if is_some (memory_at m.id ms) || name_taken m ms
    then err unique_violation
    else ok (ms ++ m ∷ [])

-- `UPDATE datasource_memory SET version=?,status=?,normalized_name=? WHERE id=?`.
abbrev pub with_version : ℕ → MemoryStatus → String → MemoryRow → MemoryRow
with_version version status name m = record {
  id = m.id;
  datasource_id = m.datasource_id;
  version = version;
  status = status;
  normalized_name = name;
  created_by = m.created_by;
  created_at = m.created_at;
}

unfoldable pub update_memory :
    MemoryRow → ℕ → MemoryStatus → String → List MemoryRow → Result MemoryFault (List MemoryRow)
update_memory m version status name ms =
    if name_taken (with_version version status name m) ms
    then err unique_violation
    else ok (update_where (λ x. x.id == m.id) (with_version version status name) ms)

unfoldable pub insert_revision : Revision → List Revision → Result MemoryFault (List Revision)
insert_revision r rs =
    if any (λ x. x.memory_id == r.memory_id && x.version == r.version) rs
    then err unique_violation
    else ok (rs ++ r ∷ [])

-- What `save` is given beside the user and the data source.
pub record Saving : Type 0 where
  pub content : MemoryContent
  pub id : Option ℕ
  pub expected : Option ℕ
  pub source_message_id : Option ℕ
  pub is_deleted : Bool

abbrev pub status_of : Saving → MemoryStatus
status_of w = if w.is_deleted then deleted else active

-- The memory's identifier, its new version and the rows.
pub record Placed : Type 0 where
  pub id : ℕ
  pub version : ℕ
  pub memories : List MemoryRow

-- The new row of a memory that is not there yet.
abbrev pub first_version : Unicode → Draw → ℕ → ℕ → Saving → MemoryRow
first_version u draw user ds w = record {
  id = draw.id;
  datasource_id = ds;
  version = 1;
  status = status_of w;
  normalized_name = normalized_name u w.content.name;
  created_by = user;
  created_at = draw.now;
}

-- The next version of a row that `WHERE id=? AND datasource_id=? FOR UPDATE` finds.
unfoldable pub replace :
    Unicode → ℕ → Saving → Option MemoryRow → List MemoryRow → Result MemoryFault Placed
unfolding update_memory
replace u ds w none ms = err not_found
replace u ds w (some m) ms =
    if not (m.datasource_id == ds)
    then err not_found
    else if not (is_some_eq w.expected m.version) || not (is_active m.status)
    then err conflict
    else update_memory m (m.version + 1) (status_of w) (normalized_name u w.content.name) ms
      >>= λ changed. ok (record { id = m.id; version = m.version + 1; memories = changed })

unfoldable pub place :
    Unicode → Draw → ℕ → ℕ → Saving → Option ℕ → List MemoryRow → Result MemoryFault Placed
unfolding insert_memory replace
place u draw user ds w none ms = insert_memory (first_version u draw user ds w) ms >>= λ added.
    ok (record { id = draw.id; version = 1; memories = added })
place u draw user ds w (some id) ms = replace u ds w (memory_at id ms) ms

abbrev pub revision_of : Draw → ℕ → Saving → Placed → Revision
revision_of draw user w p = record {
  memory_id = p.id;
  version = p.version;
  content = w.content;
  status = status_of w;
  source = if is_some w.source_message_id then MemorySource.conversation else MemorySource.manual;
  source_message_id = w.source_message_id;
  confirmed_by = user;
  created_at = draw.now;
}

abbrev pub with_memories : List MemoryRow → List Revision → Store → Store
with_memories ms rs s = record {
  sources = s.sources;
  permissions = s.permissions;
  generations = s.generations;
  memories = ms;
  revisions = rs;
  candidates = s.candidates;
}

-- The row of a memory at a version.
abbrev pub at_version : ℕ → ℕ → MemoryRow → Revision → Bool
at_version id version m r = m.id == id && r.version == version

-- `save`.
unfoldable pub save :
    Unicode → Draw → ℕ → ℕ → Saving → Store → Result MemoryFault (DatasourceMemory × Store)
unfolding authorize place insert_revision join_rows
save u draw user ds w s = authorize s ds user true >>= λ _.
    place u draw user ds w w.id s.memories >>= λ p.
    insert_revision (revision_of draw user w p) s.revisions >>= λ revisions.
    first_row (join_rows (at_version p.id p.version) p.memories revisions) no_row >>= λ row.
    ok (record_of row, with_memories p.memories revisions s)

abbrev pub new_memory : MemoryContent → Option ℕ → Saving
new_memory content source_message_id = record {
  content = content;
  id = none;
  expected = none;
  source_message_id = source_message_id;
  is_deleted = false;
}

-- `create`.
unfoldable pub create :
    Unicode → Draw → ℕ → ℕ → Node → Store → Result MemoryFault (DatasourceMemory × Store)
unfolding positive_integer validate_memory save
create u draw user ds body s = positive_integer ds >>= λ _. validate_memory body >>= λ content.
    transaction (save u draw user ds (new_memory content none) s)

-- `{ ...previous, ...patch }`: the patch's entries stand first, where a look-up finds them.
abbrev pub merge_onto : MemoryContent → Entries → Entries
merge_onto c Entries.no_entry =
    Entries.entry "name" (Node.text c.name)
      (Entries.entry "description" (Node.text c.description) Entries.no_entry)
merge_onto c (Entries.entry k v es) = Entries.entry k v (merge_onto c es)

abbrev pub patched : Bool → MemoryContent → Entries → Result MemoryFault MemoryContent
patched true previous patch = ok previous
patched false previous patch = validate_memory (Node.object (merge_onto previous patch))

-- `update`; a deletion is an update that keeps the content.
-- `if (!object(patch)) throw ...`.
abbrev pub patch_of : Node → Result MemoryFault Entries
patch_of (Node.object patch) = ok patch
patch_of _ = err bad_request

unfoldable pub update :
    Unicode → Draw → ℕ → ℕ → ℕ → Node → Bool → Store → Result MemoryFault (DatasourceMemory × Store)
unfolding positive_integer validate_memory save join_rows
update u draw user id expected body is_deleted s = positive_integer expected >>= λ _.
    patch_of body >>= λ patch. transaction (
      first_row (join_rows (λ m r. m.id == id && is_current m r) s.memories s.revisions) not_found
      >>= λ row. patched is_deleted (row.1).content patch >>= λ content.
          save u draw user (row.0).datasource_id
            (record {
              content = content;
              id = some id;
              expected = some expected;
              source_message_id = none;
              is_deleted = is_deleted;
            })
            s)

-- The active memories of a data source in their current versions, `ORDER BY d.id`.
unfoldable pub insert_by_id : Row → List Row → List Row
insert_by_id x [] = x ∷ []
insert_by_id x (y ∷ ys) =
    let rest = insert_by_id x ys in if ltb (y.0).id (x.0).id then y ∷ rest else x ∷ y ∷ ys

unfoldable pub order_by_id : List Row → List Row
unfolding insert_by_id
order_by_id [] = []
order_by_id (x ∷ xs) = insert_by_id x (order_by_id xs)

abbrev pub is_active_row : ℕ → MemoryRow → Revision → Bool
is_active_row ds m r = m.datasource_id == ds && is_active m.status && is_current m r

unfoldable pub active_rows : ℕ → Store → List Row
unfolding join_rows order_by_id
active_rows ds s = order_by_id (join_rows (is_active_row ds) s.memories s.revisions)

abbrev pub is_from : ℕ → ℕ → MemoryRow → Revision → Bool
is_from ds message m r = m.datasource_id == ds && is_some_eq r.source_message_id message

-- What `rememberFromConversation` does where a memory has the message for its source, and where none has.
unfoldable pub recall : List Row → Store → Result MemoryFault (DatasourceMemory × Store)
unfolding join_rows
recall existing s = first_row existing no_row >>= λ row.
    first_row (join_rows (λ m r. m.id == (row.0).id && is_current m r) s.memories s.revisions)
      no_row
    >>= λ current. ok (record_of current, s)

unfoldable pub learn :
    Unicode
    → Draw
    → ℕ
    → ℕ
    → ℕ
    → MemoryContent
    → Store
    → Result MemoryFault (DatasourceMemory × Store)
unfolding save active_rows related_memories
learn u draw user ds message content s =
    if is_empty (related_memories u content (map record_of (active_rows ds s)) none)
    then save u draw user ds (new_memory content (some message)) s
    else err review_required

-- `rememberFromConversation`.
unfoldable pub remember_from_conversation :
    Unicode → Draw → ℕ → ℕ → ℕ → Node → Store → Result MemoryFault (DatasourceMemory × Store)
unfolding validate_memory authorize join_rows recall learn
remember_from_conversation u draw user ds message body s = validate_memory body >>= λ content.
    transaction (
      authorize s ds user true >>= λ _.
      let existing = join_rows (is_from ds message) s.memories s.revisions in
      if is_empty existing then learn u draw user ds message content s else recall existing s)
