-- ===== src/Memory/Effects.antt =====
-- packages/database/src/memory-repository.ts: what each operation that succeeds has changed.
use gist_agent.Base.{
  ◌⊎◌, if-cases, is_empty-eq-true, ℕ, ◌≤◌, none, some, Bool, true, ◌&&◌, List, [], map, ◌==◌,
  is_empty, count_where, inl, inr, Result, ok, >>=-eq-ok, ok-injective, ◌≡◌, refl, sym, ap, subst,
  arith,
}
use gist_agent.Sql.{Node}
use gist_agent.Memory.{
  Store, MemoryContent, MemoryFault, Candidate, DatasourceMemory, Row, join_rows, first_row,
  is_current, record_of, transaction, positive_integer, validate_memory, authorize, not_found,
  no_row,
}
use gist_agent.Memory.Policy.{Unicode, related_memories}
use gist_agent.Memory.Writing.{
  Draw, Saving, new_memory, create, update, patched, patch_of, remember_from_conversation, recall,
  learn, is_from, active_rows,
}
use gist_agent.Memory.Candidates.{of_generation}
use gist_agent.Memory.Numbering.{SavedBy, save-SavedBy}

-- The memories and their revisions: nothing, or what one `save` did.
pub data Written (s t : Store) : Type 0 where
  kept : t.memories ≡ s.memories → t.revisions ≡ s.revisions → Written s t
  wrote :
      {ds : ℕ} {w : Saving} {v : Store} {d : DatasourceMemory}
      → SavedBy ds w s v d
      → t.memories ≡ v.memories
      → t.revisions ≡ v.revisions
      → Written s t

abbrev pub IsBounded : List Candidate → Type 0
IsBounded cs = (id : ℕ) → count_where (of_generation id) cs ≤ 10

pub record Effect (s t : Store) : Type 0 where
  pub written : Written s t
  pub bounded : IsBounded s.candidates → IsBounded t.candidates

pub Effect-refl : (s : Store) → Effect s s
Effect-refl s = record { written = kept refl refl; bounded = λ b. b }

pub SavedBy-Effect :
    {ds : ℕ} {w : Saving} {s t : Store} {d : DatasourceMemory} → SavedBy ds w s t d → Effect s t
SavedBy-Effect v = record {
  written = wrote v refl refl;
  bounded = λ b. subst IsBounded (sym v.candidates) b;
}

pub transaction-eq-ok {ℓ} :
    {A : Type ℓ} (m : Result MemoryFault A) {a : A} → transaction m ≡ ok a → m ≡ ok a
transaction-eq-ok m h = ground arith

pub create-SavedBy :
    (u : Unicode) (draw : Draw) (user ds : ℕ) (body : Node) (s : Store) {d : DatasourceMemory}
    {t : Store}
    → create u draw user ds body s ≡ ok (d, t)
    → (content : MemoryContent) × SavedBy ds (new_memory content none) s t d
unfolding create
create-SavedBy u draw user ds body s h =
    let (a, h1, h2) = >>=-eq-ok (positive_integer ds) _ h in
    let (content, h3, h4) = >>=-eq-ok (validate_memory body) _ h2 in
    (content, save-SavedBy u draw user ds (new_memory content none) s (transaction-eq-ok _ h4))

abbrev pub update_of : MemoryContent → ℕ → ℕ → Bool → Saving
update_of content id expected is_deleted = record {
  content = content;
  id = some id;
  expected = some expected;
  source_message_id = none;
  is_deleted = is_deleted;
}

pub update-SavedBy :
    (u : Unicode) (draw : Draw) (user id expected : ℕ) (patch : Node) (is_deleted : Bool)
    (s : Store) {d : DatasourceMemory} {t : Store}
    → update u draw user id expected patch is_deleted s ≡ ok (d, t)
    → (ds : ℕ) × (content : MemoryContent) × SavedBy ds
        (update_of content id expected is_deleted)
        s
        t
        d
unfolding update
update-SavedBy u draw user id expected body is_deleted s h =
    let (a, h1, h2) = >>=-eq-ok (positive_integer expected) _ h in
    let (patch, h3, h4) = >>=-eq-ok (patch_of body) _ h2 in
    let (row, h5, h6) =
      >>=-eq-ok
        (first_row (join_rows (λ m r. m.id == id && is_current m r) s.memories s.revisions)
          not_found)
        _ (transaction-eq-ok _ h4) in
    let (content, h7, h8) = >>=-eq-ok (patched is_deleted (row.1).content patch) _ h6 in
    (
      (row.0).datasource_id,
      content,
      save-SavedBy u draw user (row.0).datasource_id (update_of content id expected is_deleted) s
          h8,
    )

abbrev pub existing_of : ℕ → ℕ → Store → List Row
existing_of ds message s = join_rows (is_from ds message) s.memories s.revisions

learn-SavedBy :
    (u : Unicode) (draw : Draw) (user ds message : ℕ) (content : MemoryContent) (s : Store)
    {d : DatasourceMemory} {t : Store}
    → learn u draw user ds message content s ≡ ok (d, t)
    → (related_memories u content (map record_of (active_rows ds s)) none ≡ [])
      × SavedBy ds (new_memory content (some message)) s t d
unfolding learn
learn-SavedBy u draw user ds message content s h =
    let likes = related_memories u content (map record_of (active_rows ds s)) none in
    elim (if-cases (is_empty likes) _ _ h) [
      | inl (e, h1) ↦ (
        is_empty-eq-true likes e,
        save-SavedBy u draw user ds (new_memory content (some message)) s h1,
      )
      | inr (e, h1) ↦ cc
    ]

-- Either a memory has the message for its source and nothing is written, or none has and one is saved.
pub remember-cases :
    (u : Unicode) (draw : Draw) (user ds message : ℕ) (body : Node) (s : Store)
    {d : DatasourceMemory} {t : Store}
    → remember_from_conversation u draw user ds message body s ≡ ok (d, t)
    → (recall (existing_of ds message s) s ≡ ok (d, t))
      ⊎ ((existing_of ds message s ≡ [])
          × (content : MemoryContent) × SavedBy ds (new_memory content (some message)) s t d)
unfolding remember_from_conversation
remember-cases u draw user ds message body s h =
    let (content, h1, h2) = >>=-eq-ok (validate_memory body) _ h in
    let (a, h3, h4) = >>=-eq-ok (authorize s ds user true) _ (transaction-eq-ok _ h2) in
    elim (if-cases (is_empty (existing_of ds message s)) _ _ h4) [
      | inl (e, h5) ↦
          inr (is_empty-eq-true _ e, content, (learn-SavedBy u draw user ds message content s h5).1)
      | inr (e, h5) ↦ inl h5
    ]

pub recall-same :
    (existing : List Row) (s : Store) {d : DatasourceMemory} {t : Store}
    → recall existing s ≡ ok (d, t)
    → s ≡ t
unfolding recall
recall-same existing s h =
    let (row, h1, h2) = >>=-eq-ok (first_row existing no_row) _ h in
    let (current, h3, h4) =
      >>=-eq-ok
        (first_row (join_rows (λ m r. m.id == (row.0).id && is_current m r) s.memories s.revisions)
          no_row)
        _ h2 in
    ap (λ x. x.1) (ok-injective h4)

pub remember-Effect :
    (u : Unicode) (draw : Draw) (user ds message : ℕ) (body : Node) (s : Store)
    {d : DatasourceMemory} {t : Store}
    → remember_from_conversation u draw user ds message body s ≡ ok (d, t)
    → Effect s t
remember-Effect u draw user ds message body s h =
    elim (remember-cases u draw user ds message body s h) [
      | inl again ↦ subst (Effect s) (recall-same _ s again) (Effect-refl s)
      | inr (none_yet, content, saved) ↦ SavedBy-Effect saved
    ]
