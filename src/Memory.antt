-- ===== src/Memory.antt =====
-- packages/database/src: the memories of a data source. memory-schema.ts gives the tables and
-- memory-repository.ts the queries; a memory is a row that carries its current version, and its
-- revisions, one row for each version. A body that a client has sent is a JavaScript value. The
-- identifiers of rows are natural numbers, so `memoryId`, the check of their format, has no place here.
pub mod Policy
pub mod Writing
pub mod Reading
pub mod Candidates
pub mod Decisions
pub mod Steps
pub mod Numbering
pub mod Versions
pub mod Effects
pub mod Operations
pub mod History
pub mod Decided
pub mod Once
pub mod Resemblance
use gist_agent.Base.{
  ℕ, String, Option, none, some, Bool, true, false, not, ◌&&◌, ◌||◌, List, [], ◌∷◌, ◌++◌, ◌==◌, ltb,
  str_eq, if◌then◌else◌, is_some_eq, is_none, any, first_where, rows_where, Result, ok, err, ◌>>=◌,
}
use gist_agent.Base.Text.{trim, units}
use gist_agent.Contracts.{Status}
use gist_agent.Database.{Generation}
use gist_agent.Sql.{Node, Entries, entry_at, has}

-- `MemoryContent`.
pub record MemoryContent : Type 0 where
  pub name : String
  pub description : String

pub data MemoryStatus : Type 0 where
  active deleted : MemoryStatus

pub data MemorySource : Type 0 where
  manual conversation : MemorySource

pub data CandidateStatus : Type 0 where
  pending accepted rejected : CandidateStatus

-- `datasource_memory`.
pub record MemoryRow : Type 0 where
  pub id : ℕ
  pub datasource_id : ℕ
  pub version : ℕ
  pub status : MemoryStatus
  pub normalized_name : String
  pub created_by : ℕ
  pub created_at : ℕ

-- `datasource_memory_revision`.
pub record Revision : Type 0 where
  pub memory_id : ℕ
  pub version : ℕ
  pub content : MemoryContent
  pub status : MemoryStatus
  pub source : MemorySource
  pub source_message_id : Option ℕ
  pub confirmed_by : ℕ
  pub created_at : ℕ

-- `datasource_memory_candidate`.
pub record Candidate : Type 0 where
  pub id : ℕ
  pub datasource_id : ℕ
  pub user_id : ℕ
  pub generation_id : ℕ
  pub source_message_id : ℕ
  pub memory_id : Option ℕ
  pub expected_version : Option ℕ
  pub content : MemoryContent
  pub version : ℕ
  pub status : CandidateStatus
  pub result_memory_id : Option ℕ
  pub result_version : Option ℕ

-- `data_source`, the columns that the access check reads.
pub record DataSource : Type 0 where
  pub id : ℕ
  pub created_by : Option ℕ
  pub is_local : Bool

-- `datasource_permission`.
pub record Permission : Type 0 where
  pub datasource_id : ℕ
  pub user_id : ℕ

pub record Store : Type 0 where
  pub sources : List DataSource
  pub permissions : List Permission
  pub generations : List Generation
  pub memories : List MemoryRow
  pub revisions : List Revision
  pub candidates : List Candidate

-- `DatasourceMemory`.
pub record DatasourceMemory : Type 0 where
  pub name : String
  pub description : String
  pub id : ℕ
  pub datasource_id : ℕ
  pub version : ℕ
  pub status : MemoryStatus
  pub source : MemorySource
  pub source_message_id : Option ℕ
  pub created_by : ℕ
  pub confirmed_by : ℕ
  pub created_at : ℕ
  pub updated_at : ℕ

-- `MemoryError` by its status, `MemoryReviewRequired`, what the database throws for a value that a
-- unique index already has, and what the runtime throws for a row that is not there.
pub data MemoryFault : Type 0 where
  bad_request not_found conflict review_required unique_violation no_row : MemoryFault

abbrev pub is_active : MemoryStatus → Bool
is_active active = true
is_active deleted = false

-- `positiveInteger`, of what is a natural number.
unfoldable pub positive_integer : ℕ → Result MemoryFault ℕ
positive_integer n = if n == 0 || ltb 9007199254740991 n then err bad_request else ok n

-- `text`.
unfoldable pub bounded_text : ℕ → Node → Result MemoryFault String
unfolding trim units
bounded_text max (Node.text s) =
    if str_eq (trim s) "" || ltb max (units s) then err bad_request else ok (trim s)
bounded_text max _ = err bad_request

-- `Object.keys(v).some(...)`.
unfoldable pub has_other_key : Entries → Bool
has_other_key Entries.no_entry = false
has_other_key (Entries.entry k v es) = not (has k ("name" ∷ "description" ∷ [])) || has_other_key es

unfoldable pub validate_memory : Node → Result MemoryFault MemoryContent
unfolding bounded_text has_other_key entry_at
validate_memory (Node.object es) =
    if has_other_key es
    then err bad_request
    else bounded_text 200 (entry_at "name" es) >>= λ name.
        bounded_text 4000 (entry_at "description" es) >>= λ description.
        ok (record { name = name; description = description })
validate_memory _ = err bad_request

-- `validateMemory(c.content)`, of a content that is stored.
unfoldable pub validate_stored : MemoryContent → Result MemoryFault MemoryContent
unfolding bounded_text validate_memory
validate_stored c = validate_memory (
    Node.object (
      Entries.entry "name" (Node.text c.name)
        (Entries.entry "description" (Node.text c.description) Entries.no_entry)))

-- `transaction`: an error undoes what was done, and a value that is not unique is a conflict.
abbrev pub transaction {ℓ} : {A : Type ℓ} → Result MemoryFault A → Result MemoryFault A
transaction (ok a) = ok a
transaction (err unique_violation) = err conflict
transaction (err other) = err other

-- The data sources that `authorize` finds.
unfoldable pub is_readable : Store → ℕ → DataSource → Bool
is_readable s user d =
    is_some_eq d.created_by user
    || is_none d.created_by
    || any (λ p. p.datasource_id == d.id && p.user_id == user) s.permissions

unfoldable pub is_accessible : Store → ℕ → Bool → DataSource → Bool
unfolding is_readable
is_accessible s user write d = if write then is_some_eq d.created_by user else is_readable s user d

unfoldable pub authorize : Store → ℕ → ℕ → Bool → Result MemoryFault (Unit {0})
unfolding is_accessible
authorize s ds user write =
    if any (λ d. d.id == ds && is_accessible s user write d) s.sources then ok tt else err not_found

-- A row of `datasource_memory` by its primary key.
abbrev pub memory_at : ℕ → List MemoryRow → Option MemoryRow
memory_at id = first_where (λ m. m.id == id)

-- `SELECT ... FROM datasource_memory d JOIN datasource_memory_revision r ON r.memory_id=d.id WHERE ...`.
abbrev pub Row : Type 0
Row = MemoryRow × Revision

abbrev pub add_row :
    (MemoryRow → Revision → Bool) → Revision → List Row → Option MemoryRow → List Row
add_row p r rows none = rows
add_row p r rows (some m) = if p m r then (m, r) ∷ rows else rows

unfoldable pub join_rows : (MemoryRow → Revision → Bool) → List MemoryRow → List Revision → List Row
join_rows p ms [] = []
join_rows p ms (r ∷ rs) = add_row p r (join_rows p ms rs) (memory_at r.memory_id ms)

abbrev pub is_current : MemoryRow → Revision → Bool
is_current m r = r.version == m.version

-- `record`.
unfoldable pub record_of : Row → DatasourceMemory
record_of (m, r) = record {
  name = r.content.name;
  description = r.content.description;
  id = m.id;
  datasource_id = m.datasource_id;
  version = r.version;
  status = if is_active m.status then r.status else deleted;
  source = r.source;
  source_message_id = r.source_message_id;
  created_by = m.created_by;
  confirmed_by = r.confirmed_by;
  created_at = m.created_at;
  updated_at = r.created_at;
}

-- `rows[0]`, and what follows where there is one.
abbrev pub first_row : List Row → MemoryFault → Result MemoryFault Row
first_row [] missing = err missing
first_row (row ∷ rows) missing = ok row
