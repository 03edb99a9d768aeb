-- ===== src/Memory/Versions.antt =====
-- packages/database/src/memory-repository.ts: the revisions of a memory against its version.
use gist_agent.Base.{
  if◌then◌else◌, ◌&&◌, ℕ, zero, suc, ◌+◌, Option, none, some, List, [], ◌∷◌, ◌++◌, map, ◌==◌,
  ==_iff, is_some, Bool-cases, Option-cases, inl, inr, rows_where, append-nil, update_where, ◌≡◌,
  refl, sym, subst, arith, or_else,
}
use gist_agent.Memory.{MemoryStatus, MemoryRow, Revision, Store, DatasourceMemory, memory_at}
use gist_agent.Memory.Writing.{Saving, Placed, with_version}
use Prim.Native.String.{String}
use gist_agent.Memory.Numbering.{SavedBy, PlacedBy, fresh, revised}

-- The versions in the history of a memory, and the version that its row carries.
abbrev pub versions_of : ℕ → List Revision → List ℕ
versions_of id rs = map (λ r. r.version) (rows_where (λ r. r.memory_id == id) rs)

abbrev pub version_in : Option MemoryRow → ℕ
version_in none = 0
version_in (some m) = m.version

abbrev pub version_at : ℕ → List MemoryRow → ℕ
version_at id ms = version_in (memory_at id ms)

abbrev pub up_to : ℕ → List ℕ
up_to zero = []
up_to (suc n) = up_to n ++ suc n ∷ []

-- Each memory's revisions are numbered from 1 to its version, in this order; what is no memory has none.
abbrev pub IsNumbered : Store → Type 0
IsNumbered s = (id : ℕ) → versions_of id s.revisions ≡ up_to (version_at id s.memories)

pub memory_at-append :
    (id : ℕ) (ms : List MemoryRow) (m : MemoryRow)
    → memory_at id (ms ++ m ∷ []) ≡ or_else (memory_at id ms) (if m.id == id then some m else none)
memory_at-append id [] m = refl
memory_at-append id (x ∷ xs) m = ground (arith, memory_at-append id xs m)

version_at-update_where :
    (i n id : ℕ) (status : MemoryStatus) (name : String) (ms : List MemoryRow)
    → version_at id (update_where (λ x. x.id == i) (with_version n status name) ms)
      ≡ (if (i == id) && is_some (memory_at id ms) then n else version_at id ms)
version_at-update_where i n id status name [] = ground arith
version_at-update_where i n id status name (x ∷ xs) =
    ground (arith, version_at-update_where i n id status name xs)

versions_of-concat :
    (id : ℕ) (rs : List Revision) (r : Revision)
    → versions_of id (rs ++ r ∷ [])
      ≡ versions_of id rs ++ (if r.memory_id == id then r.version ∷ [] else [])
versions_of-concat id [] r = ground arith
versions_of-concat id (x ∷ xs) r = ground (arith, versions_of-concat id xs r)

-- Whatever is placed, the memory is at the new version, and no other memory has moved.
version_at-PlacedBy :
    {ds : ℕ} {id expected : Option ℕ} {ms : List MemoryRow} {p : Placed}
    → PlacedBy ds id expected ms p
    → (k : ℕ)
    → version_at k p.memories ≡ (if p.id == k then suc (version_at k ms) else version_at k ms)
version_at-PlacedBy {ms = ms} {p = p} (fresh m i absent e o v w q) k =
    rw (q, memory_at-append k ms m, sym e)
      (elim (Bool-cases (m.id == k)) [
        | inl b ↦
            let none_there : memory_at k ms ≡ none =
              subst (λ j. memory_at j ms ≡ none) ((==_iff m.id k).0 b) absent in
            rw (none_there, b) v
        | inr b ↦ elim (Option-cases (memory_at k ms)) [
          | inl n ↦ rw n (ground arith)
          | inr (x, n) ↦ rw n (ground arith)
        ]
      ])
version_at-PlacedBy {ms = ms} {p = p} (revised m status name i x found e w q) k =
    rw (q, version_at-update_where m.id (m.version + 1) k status name ms, sym e)
      (elim (Bool-cases (m.id == k)) [
        | inl b ↦
            let there : memory_at k ms ≡ some m =
              subst (λ j. memory_at j ms ≡ some m) ((==_iff m.id k).0 b) found in
            rw (there, b) (omega arith)
        | inr b ↦ rw b refl
      ])

version-PlacedBy :
    {ds : ℕ} {id expected : Option ℕ} {ms : List MemoryRow} {p : Placed}
    → PlacedBy ds id expected ms p
    → p.version ≡ suc (version_at p.id ms)
version-PlacedBy {ms = ms} {p = p} (fresh m i absent e o v w q) = rw (sym e, absent) w
version-PlacedBy {ms = ms} {p = p} (revised m status name i x found e w q) =
    rw (sym e, found) (omega (arith, w))

-- The current version of every memory after a save.
pub version_at-SavedBy :
    {ds : ℕ} {w : Saving} {s t : Store} {d : DatasourceMemory} (v : SavedBy ds w s t d) (k : ℕ)
    → version_at k t.memories
      ≡ (if (v.placed).id == k then suc (version_at k s.memories) else version_at k s.memories)
version_at-SavedBy {s = s} v k = rw v.memories (version_at-PlacedBy v.by k)

pub SavedBy-IsNumbered :
    {ds : ℕ} {w : Saving} {s t : Store} {d : DatasourceMemory}
    → SavedBy ds w s t d
    → IsNumbered s
    → IsNumbered t
SavedBy-IsNumbered {s = s} v numbered k =
    let p = v.placed in
    rw
      (
        v.revisions,
        versions_of-concat k s.revisions v.revision,
        v.memory_id,
        v.version,
        numbered k,
        version_at-SavedBy v k,
      )
      (elim (Bool-cases (p.id == k)) [
        | inl b ↦ rw (b, version-PlacedBy v.by, (==_iff p.id k).0 b) refl
        | inr b ↦ rw b (append-nil (up_to (version_at k s.memories)))
      ])
