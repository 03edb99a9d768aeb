-- ===== src/Memory/Reading.antt =====
-- packages/database/src/memory-repository.ts: the operations that read memories.
use gist_agent.Base.{
  ℕ, ◌+◌, ◌-◌, Option, none, some, Bool, true, false, ◌&&◌, List, map, ◌==◌, ltb, if◌then◌else◌,
  take, length, get_elem?, rows_where, Result, ok, err, ◌>>=◌,
}
use gist_agent.Sql.{Node}
use gist_agent.Memory.{
  MemoryContent, MemoryRow, Revision, Store, DatasourceMemory, MemoryFault, bad_request, not_found,
  positive_integer, validate_memory, authorize, Row, join_rows, is_current, record_of, first_row,
  transaction,
}
use gist_agent.Memory.Policy.{Unicode, RelatedMemory, related_memories}
use gist_agent.Memory.Writing.{active_rows}

-- `snapshot`.
unfoldable pub snapshot : ℕ → ℕ → Store → Result MemoryFault (List DatasourceMemory)
unfolding authorize active_rows
snapshot user ds s =
    transaction (authorize s ds user false >>= λ _. ok (map record_of (active_rows ds s)))

-- `related`.
unfoldable pub related :
    Unicode → ℕ → ℕ → Node → Option ℕ → Store → Result MemoryFault (List RelatedMemory)
unfolding positive_integer validate_memory snapshot related_memories
related u user ds body exclude_id s = positive_integer ds >>= λ _.
    validate_memory body >>= λ content.
    snapshot user ds s >>= λ memories. ok (related_memories u content memories exclude_id)

-- `get`; without a version, the current one.
abbrev pub is_asked : ℕ → Option ℕ → MemoryRow → Revision → Bool
is_asked id none m r = m.id == id && is_current m r
is_asked id (some version) m r = m.id == id && r.version == version

abbrev pub check_version : Option ℕ → Result MemoryFault (Unit {0})
check_version none = ok tt
check_version (some n) = positive_integer n >>= λ _. ok tt

unfoldable pub get : ℕ → ℕ → Option ℕ → Store → Result MemoryFault DatasourceMemory
unfolding positive_integer authorize join_rows
get user id version s = check_version version >>= λ _. transaction (
    first_row (join_rows (is_asked id version) s.memories s.revisions) not_found >>= λ row.
    authorize s (row.0).datasource_id user false >>= λ _. ok (record_of row))

-- `list`: a page after a cursor, one row more than the limit to see whether there is a next page. Whether a text contains the query is a parameter.
pub record Page : Type 0 where
  pub items : List DatasourceMemory
  pub next_cursor : Option ℕ

abbrev pub after_cursor : Option ℕ → Row → Bool
after_cursor none row = true
after_cursor (some id) row = ltb id (row.0).id

abbrev pub limit_of : Option ℕ → Result MemoryFault ℕ
limit_of none = ok 20
limit_of (some n) = positive_integer n

abbrev pub id_at : List Row → ℕ → Option ℕ
id_at rows i = elim (get_elem? rows i) [ none ↦ none | some row ↦ some (row.0).id ]

abbrev pub page_of : ℕ → List Row → Page
page_of limit rows = record {
  items = map record_of (take limit rows);
  next_cursor = if ltb limit (length rows) then id_at rows (limit - 1) else none;
}

unfoldable pub list :
    (MemoryContent → Bool) → ℕ → ℕ → Option ℕ → Option ℕ → Store → Result MemoryFault Page
unfolding positive_integer authorize active_rows
list meets_query user ds cursor limit s = positive_integer ds >>= λ _. limit_of limit >>= λ n.
    if ltb 100 n
    then err bad_request
    else transaction (
        authorize s ds user false >>= λ _.
        let rows = take (n + 1) (
          rows_where (λ row. meets_query (row.1).content && after_cursor cursor row)
            (active_rows ds s)) in
        ok (page_of n rows))
