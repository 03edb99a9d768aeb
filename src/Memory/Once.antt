-- ===== src/Memory/Once.antt =====
-- packages/database/src/memory-repository.ts: the memory that a message of a conversation asks for.
use gist_agent.Base.{
  ℕ, Option, none, some, Bool, true, false, ◌&&◌, List, [], ◌∷◌, ◌++◌, ◌==◌, ==_refl, is_empty,
  if◌then◌else◌, Bool-cases, Option-cases, inl, inr, or_else, ok, ◌>>=◌, >>=-eq-ok, ok-injective,
  ◌≡◌, refl, sym, ap, subst, ◌∙◌, arith,
}
use gist_agent.Sql.{Node}
use gist_agent.Memory.{
  Store, MemoryContent, MemoryRow, Revision, Row, DatasourceMemory, authorize, is_accessible,
  join_rows, add_row, memory_at, first_row, no_row, is_current, record_of, transaction,
  validate_memory,
}
use gist_agent.Memory.Policy.{Unicode}
use gist_agent.Memory.Writing.{
  Draw, remember_from_conversation, recall, is_from, at_version, new_memory,
}
use gist_agent.Memory.Numbering.{SavedBy, PlacedBy, fresh, revised, memory_at-id}
use gist_agent.Memory.Versions.{IsNumbered, versions_of, memory_at-append}
use gist_agent.Memory.Effects.{existing_of, remember-cases, recall-same, transaction-eq-ok}

keeps :
    (m : MemoryRow) (o : Option MemoryRow) (b : Bool)
    → b ≡ false
    → or_else o (if b then some m else none) ≡ o
keeps m none b h = ground arith
keeps m (some x) b h = refl

add_row-append :
    (p : MemoryRow → Revision → Bool) (r : Revision) (xs ys : List Row) (o : Option MemoryRow)
    → add_row p r (xs ++ ys) o ≡ add_row p r xs o ++ ys
add_row-append p r xs ys none = refl
add_row-append p r xs ys (some m) = ground arith

-- A memory that no revision belongs to adds nothing to a join with the revisions that are there.
join_rows-other :
    (p : MemoryRow → Revision → Bool) (ms : List MemoryRow) (m : MemoryRow) (rs : List Revision)
    → versions_of m.id rs ≡ []
    → join_rows p (ms ++ m ∷ []) rs ≡ join_rows p ms rs
unfolding join_rows
join_rows-other p ms m [] h = refl
join_rows-other p ms m (r ∷ rs) h = elim (Bool-cases (r.memory_id == m.id)) [
  | inl b ↦ cc (rw b at h)
  | inr b ↦
      let ahead : memory_at r.memory_id (ms ++ m ∷ []) ≡ memory_at r.memory_id ms =
        memory_at-append r.memory_id ms m
        ∙ keeps m (memory_at r.memory_id ms) (m.id == r.memory_id) (ground arith) in
      ap (add_row p r _) ahead
      ∙ ap (λ x. add_row p r x (memory_at r.memory_id ms)) (join_rows-other p ms m rs (rw b at h))
]

join_rows-concat :
    (p : MemoryRow → Revision → Bool) (ms : List MemoryRow) (rs : List Revision) (r : Revision)
    (m : MemoryRow)
    → memory_at r.memory_id ms ≡ some m
    → join_rows p ms (rs ++ r ∷ []) ≡ join_rows p ms rs ++ (if p m r then (m, r) ∷ [] else [])
unfolding join_rows
join_rows-concat p ms [] r m h = ap (add_row p r []) h
join_rows-concat p ms (x ∷ rs) r m h =
    ap (λ rows. add_row p x rows (memory_at x.memory_id ms)) (join_rows-concat p ms rs r m h)
    ∙ add_row-append p x (join_rows p ms rs) _ (memory_at x.memory_id ms)

-- A condition on the key finds nothing where no revision has the key.
join_rows-absent :
    (p : MemoryRow → Revision → Bool) (id : ℕ) (ms : List MemoryRow) (rs : List Revision)
    → versions_of id rs ≡ []
    → join_rows (λ m r. m.id == id && p m r) ms rs ≡ []
unfolding join_rows
join_rows-absent p id ms [] h = refl
join_rows-absent p id ms (r ∷ rs) h = elim (Bool-cases (r.memory_id == id)) [
  | inl b ↦ cc (rw b at h)
  | inr b ↦
      let rest = join_rows-absent p id ms rs (rw b at h) in
      elim (Option-cases (memory_at r.memory_id ms)) [
        | inl n ↦ ap (add_row (λ m r. m.id == id && p m r) r _) n ∙ rest
        | inr (m, n) ↦
            ap (add_row (λ m r. m.id == id && p m r) r _) n
            ∙ rw (subst (λ k. (k == id) ≡ false) (sym (memory_at-id r.memory_id ms n)) b) rest
      ]
]

-- The rows of a new memory and of its one revision.
join_rows-new :
    (p : MemoryRow → Revision → Bool) (ms : List MemoryRow) (m : MemoryRow) (rs : List Revision)
    (r : Revision)
    → memory_at m.id ms ≡ none
    → versions_of m.id rs ≡ []
    → r.memory_id ≡ m.id
    → join_rows p (ms ++ m ∷ []) (rs ++ r ∷ [])
      ≡ join_rows p ms rs ++ (if p m r then (m, r) ∷ [] else [])
join_rows-new p ms m rs r absent none_yet e =
    join_rows-concat p (ms ++ m ∷ []) rs r m
      (rw (e, memory_at-append m.id ms m, absent, ==_refl m.id) refl)
    ∙ ap (λ rows. rows ++ (if p m r then (m, r) ∷ [] else [])) (join_rows-other p ms m rs none_yet)

only :
    (row : Row) (c : Bool) (rows : List Row)
    → c ≡ true
    → rows ≡ []
    → rows ++ (if c then row ∷ [] else []) ≡ row ∷ []
only row c rows h e = rw (e, h) refl

-- What was saved for a message is found by the message, and is what was returned.
recall-SavedBy :
    (ds message : ℕ) (content : MemoryContent) (s t : Store) (d : DatasourceMemory)
    → IsNumbered s
    → existing_of ds message s ≡ []
    → SavedBy ds (new_memory content (some message)) s t d
    → (is_empty (existing_of ds message t) ≡ false)
      × (recall (existing_of ds message t) t ≡ ok (d, t))
unfolding recall
recall-SavedBy ds message content s t d numbered none_yet v = by_cases v.by
  where
    by_cases :
        PlacedBy ds none none s.memories v.placed
        → (is_empty (existing_of ds message t) ≡ false)
          × (recall (existing_of ds message t) t ≡ ok (d, t))
    by_cases (revised m status name i x found e w q) = cc
    by_cases (fresh m i absent e o one w q) =
        let r = v.revision in
        let unused : versions_of m.id s.revisions ≡ [] = numbered m.id ∙ rw absent refl in
        let rows : (p : MemoryRow → Revision → Bool)
            → join_rows p t.memories t.revisions
              ≡ join_rows p s.memories s.revisions ++ (if p m r then (m, r) ∷ [] else []) =
          λ p.
            rw (v.memories, q, v.revisions)
              (join_rows-new p s.memories m s.revisions r absent unused (v.memory_id ∙ sym e)) in
        let found : existing_of ds message t ≡ (m, r) ∷ [] =
          rows (is_from ds message) ∙ only (m, r) _ _ (rw v.source (ground arith)) none_yet in
        let current : join_rows (λ x y. x.id == m.id && is_current x y) t.memories t.revisions
            ≡ (m, r) ∷ [] =
          rows (λ x y. x.id == m.id && is_current x y)
          ∙ only (m, r) _ _ (rw (v.version, w, one) (ground arith))
              (join_rows-absent is_current m.id s.memories s.revisions unused) in
        let p = v.placed in
        let written : join_rows (at_version p.id p.version) t.memories t.revisions ≡ (m, r) ∷ [] =
          rows (at_version p.id p.version)
          ∙ only (m, r) _ _ (rw (sym e, v.version) (ground arith))
              (join_rows-absent (λ x y. y.version == p.version) p.id s.memories s.revisions
                (subst (λ k. versions_of k s.revisions ≡ []) e unused)) in
        let returned : record_of (m, r) ≡ d = ok-injective (
          sym (ap (λ x. first_row x no_row >>= (λ row. ok (record_of row))) written)
          ∙ v.returned) in
        (rw found refl, rw (found, current, returned) refl)

authorize-sources :
    (s t : Store) (ds user : ℕ)
    → t.sources ≡ s.sources
    → authorize t ds user true ≡ authorize s ds user true
unfolding authorize is_accessible
authorize-sources s t ds user e = rw e refl

remember-found :
    (u : Unicode) (draw : Draw) (user ds message : ℕ) (body : Node) (content : MemoryContent)
    (s : Store) {a : Unit {0}}
    → validate_memory body ≡ ok content
    → authorize s ds user true ≡ ok a
    → is_empty (existing_of ds message s) ≡ false
    → remember_from_conversation u draw user ds message body s
      ≡ transaction (recall (existing_of ds message s) s)
unfolding remember_from_conversation
remember-found u draw user ds message body content s v a e = rw (v, a, e) refl

remember-authorized :
    (u : Unicode) (draw : Draw) (user ds message : ℕ) (body : Node) (s : Store)
    {x : DatasourceMemory × Store}
    → remember_from_conversation u draw user ds message body s ≡ ok x
    → (a : Unit {0}) × (authorize s ds user true ≡ ok a)
unfolding remember_from_conversation
remember-authorized u draw user ds message body s h =
    let (content, h1, h2) = >>=-eq-ok (validate_memory body) _ h in
    let (a, h3, h4) = >>=-eq-ok (authorize s ds user true) _ (transaction-eq-ok _ h2) in (a, h3)

recall-is_empty :
    (existing : List Row) (s : Store) {x : DatasourceMemory × Store}
    → recall existing s ≡ ok x
    → is_empty existing ≡ false
unfolding recall
recall-is_empty [] s h = cc
recall-is_empty (row ∷ rows) s h = refl

-- A memory is saved once for a message: where a request to remember has succeeded, a further one for
-- the same message, whatever valid content it has, returns the same memory and changes nothing.
pub remember-repeated :
    (u : Unicode) (first second : Draw) (user ds message : ℕ) (body again : Node)
    (content : MemoryContent) (s : Store) (d : DatasourceMemory) (t : Store)
    → IsNumbered s
    → remember_from_conversation u first user ds message body s ≡ ok (d, t)
    → validate_memory again ≡ ok content
    → remember_from_conversation u second user ds message again t ≡ ok (d, t)
remember-repeated u first second user ds message body again content s d t numbered h valid =
    let (a, access) = remember-authorized u first user ds message body s h in
    let recalls : (x : Store)
        → authorize x ds user true ≡ ok a
        → is_empty (existing_of ds message x) ≡ false
        → recall (existing_of ds message x) x ≡ ok (d, t)
        → remember_from_conversation u second user ds message again x ≡ ok (d, t) =
      λ x access some_there found.
        remember-found u second user ds message again content x valid access some_there
        ∙ ap transaction found in
    elim (remember-cases u first user ds message body s h) [
      | inl found ↦
          subst (λ x. remember_from_conversation u second user ds message again x ≡ ok (d, t))
            (recall-same _ s found) (recalls s access (recall-is_empty _ s found) found)
      | inr (none_yet, saved_content, v) ↦
          let (some_there, found) =
            recall-SavedBy ds message saved_content s t d numbered none_yet v in
          recalls t (authorize-sources s t ds user v.sources ∙ access) some_there found
    ]
