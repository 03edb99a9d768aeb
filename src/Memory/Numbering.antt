-- ===== src/Memory/Numbering.antt =====
-- packages/database/src/memory-repository.ts: what `save` writes.
use gist_agent.Base.{
  any, ◌&&◌, passes, not, ◌||◌, ℕ, ◌+◌, Option, none, some, true, List, [], ◌∷◌, ◌++◌, ◌==◌, ==_iff,
  is_some_eq, is_some, first_where-holds, update_where, ok, ◌>>=◌, >>=-eq-ok, ok-injective, ◌≡◌,
  refl, sym, ap, subst, arith,
}
use gist_agent.Memory.{
  MemoryStatus, MemoryRow, Revision, Store, DatasourceMemory, memory_at, join_rows, record_of,
  is_active, first_row, authorize, no_row,
}
use gist_agent.Memory.Policy.{Unicode}
use gist_agent.Memory.Writing.{
  Draw, Saving, Placed, with_version, insert_memory, update_memory, replace, place, insert_revision,
  revision_of, save, at_version, status_of, name_taken, first_version,
}
use gist_agent.Memory.{unique_violation, not_found, conflict}
use gist_agent.Memory.Policy.{normalized_name}
use Prim.Native.String.{String}

-- What a write makes of the rows: a new memory, or the next version of one that is there.
pub data PlacedBy (ds : ℕ) (id expected : Option ℕ) (ms : List MemoryRow) (p : Placed)
    : Type 0 where
  fresh :
      (m : MemoryRow)
      → id ≡ none
      → memory_at m.id ms ≡ none
      → m.id ≡ p.id
      → m.datasource_id ≡ ds
      → m.version ≡ 1
      → p.version ≡ 1
      → p.memories ≡ ms ++ m ∷ []
      → PlacedBy ds id expected ms p
  revised :
      (m : MemoryRow) (status : MemoryStatus) (name : String)
      → id ≡ some m.id
      → is_some_eq expected m.version ≡ true
      → memory_at m.id ms ≡ some m
      → m.id ≡ p.id
      → p.version ≡ m.version + 1
      → p.memories ≡ update_where (λ x. x.id == m.id) (with_version (m.version + 1) status name) ms
      → PlacedBy ds id expected ms p

pub memory_at-id :
    (id : ℕ) (ms : List MemoryRow) {m : MemoryRow} → memory_at id ms ≡ some m → m.id ≡ id
memory_at-id id ms h = (==_iff _ id).0 (first_where-holds (λ x. x.id == id) ms h)

insert_memory-eq-ok :
    (m : MemoryRow) (ms : List MemoryRow) {out : List MemoryRow}
    → insert_memory m ms ≡ ok out
    → (memory_at m.id ms ≡ none) × (out ≡ ms ++ m ∷ [])
unfolding insert_memory
insert_memory-eq-ok m ms h =
    let q =
      passes (is_some (memory_at m.id ms) || name_taken m ms) unique_violation (ok (ms ++ m ∷ []))
        h in
    (ground arith, sym (ok-injective q.1))

update_memory-eq-ok :
    (m : MemoryRow) (v : ℕ) (status : MemoryStatus) (name : String) (ms : List MemoryRow)
    {out : List MemoryRow}
    → update_memory m v status name ms ≡ ok out
    → out ≡ update_where (λ x. x.id == m.id) (with_version v status name) ms
unfolding update_memory
update_memory-eq-ok m v status name ms h = sym (
    ok-injective
      (passes (name_taken (with_version v status name m) ms) unique_violation
        (ok (update_where (λ x. x.id == m.id) (with_version v status name) ms)) h).1)

replace-PlacedBy :
    (u : Unicode) (ds : ℕ) (w : Saving) (id : ℕ) (ms : List MemoryRow) (o : Option MemoryRow)
    {p : Placed}
    → memory_at id ms ≡ o
    → replace u ds w o ms ≡ ok p
    → PlacedBy ds (some id) w.expected ms p
unfolding replace
replace-PlacedBy u ds w id ms none e h = cc
replace-PlacedBy u ds w id ms (some m) e h =
    let i = memory_at-id id ms e in
    let name = normalized_name u w.content.name in
    let (elsewhere, h1) = passes (not (m.datasource_id == ds)) not_found _ h in
    let (stale, h2) =
      passes (not (is_some_eq w.expected m.version) || not (is_active m.status)) conflict _ h1 in
    let (changed, h3, h4) =
      >>=-eq-ok (update_memory m (m.version + 1) (status_of w) name ms) _ h2 in
    subst (λ x. PlacedBy ds (some id) w.expected ms x) (ok-injective h4)
      (revised m (status_of w) name (ap some (sym i)) (ground arith)
        (subst (λ k. memory_at k ms ≡ some m) (sym i) e) refl refl
        (update_memory-eq-ok m (m.version + 1) (status_of w) name ms h3))

place-PlacedBy :
    (u : Unicode) (draw : Draw) (user ds : ℕ) (w : Saving) (id : Option ℕ) (ms : List MemoryRow)
    {p : Placed}
    → place u draw user ds w id ms ≡ ok p
    → PlacedBy ds id w.expected ms p
unfolding place
place-PlacedBy u draw user ds w (some id) ms h =
    replace-PlacedBy u ds w id ms (memory_at id ms) refl h
place-PlacedBy u draw user ds w none ms h =
    let m = first_version u draw user ds w in
    let (added, h1, h2) = >>=-eq-ok (insert_memory m ms) _ h in
    let (absent, rows) = insert_memory-eq-ok m ms h1 in
    subst (λ x. PlacedBy ds none w.expected ms x) (ok-injective h2)
      (fresh m refl absent refl refl refl refl rows)

-- What `save` makes of a store.
pub record SavedBy (ds : ℕ) (w : Saving) (s t : Store) (d : DatasourceMemory) : Type 0 where
  pub placed : Placed
  pub revision : Revision
  pub by : PlacedBy ds w.id w.expected s.memories placed
  pub memory_id : revision.memory_id ≡ placed.id
  pub version : revision.version ≡ placed.version
  pub source : revision.source_message_id ≡ w.source_message_id
  pub revisions : t.revisions ≡ s.revisions ++ revision ∷ []
  pub memories : t.memories ≡ placed.memories
  pub sources : t.sources ≡ s.sources
  pub permissions : t.permissions ≡ s.permissions
  pub generations : t.generations ≡ s.generations
  pub candidates : t.candidates ≡ s.candidates
  pub returned :
      first_row (join_rows (at_version placed.id placed.version) t.memories t.revisions) no_row
        >>= (λ row. ok (record_of row))
      ≡ ok d

insert_revision-eq-ok :
    (r : Revision) (rs : List Revision) {out : List Revision}
    → insert_revision r rs ≡ ok out
    → out ≡ rs ++ r ∷ []
unfolding insert_revision
insert_revision-eq-ok r rs h = sym (
    ok-injective
      (passes (any (λ x. x.memory_id == r.memory_id && x.version == r.version) rs) unique_violation
        (ok (rs ++ r ∷ [])) h).1)

pub save-SavedBy :
    (u : Unicode) (draw : Draw) (user ds : ℕ) (w : Saving) (s : Store) {d : DatasourceMemory}
    {t : Store}
    → save u draw user ds w s ≡ ok (d, t)
    → SavedBy ds w s t d
unfolding save
save-SavedBy u draw user ds w s h =
    let (a, h1, h2) = >>=-eq-ok (authorize s ds user true) _ h in
    let (p, h3, h4) = >>=-eq-ok (place u draw user ds w w.id s.memories) _ h2 in
    let r = revision_of draw user w p in
    let (rs, h5, h6) = >>=-eq-ok (insert_revision r s.revisions) _ h4 in
    let (row, h7, h8) =
      >>=-eq-ok (first_row (join_rows (at_version p.id p.version) p.memories rs) no_row) _ h6 in
    subst (λ x. SavedBy ds w s x.1 x.0) (ok-injective h8)
      (record {
        placed = p;
        revision = r;
        by = place-PlacedBy u draw user ds w w.id s.memories h3;
        memory_id = refl;
        version = refl;
        source = refl;
        revisions = insert_revision-eq-ok r s.revisions h5;
        memories = refl;
        sources = refl;
        permissions = refl;
        generations = refl;
        candidates = refl;
        returned = ap (λ m. m >>= (λ row. ok (record_of row))) h7;
      })
