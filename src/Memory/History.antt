-- ===== src/Memory/History.antt =====
-- packages/database/src/memory-repository.ts: the history of the memories under any sequence of
-- operations.
use gist_agent.Base.{
  ℕ, suc, ◌≤◌, some, Bool, List, [], ◌∷◌, ◌++◌, ◌==◌, ==_refl, Bool-cases, inl, inr, ok, append-nil,
  append_assoc, ◌≡◌, refl, sym, ap, ◌∙◌, arith,
}
use gist_agent.Sql.{Node}
use gist_agent.Memory.{Store, DatasourceMemory, Revision}
use gist_agent.Memory.Policy.{Unicode}
use gist_agent.Memory.Writing.{Draw, Placed, update}
use gist_agent.Memory.Steps.{Steps, done, next}
use gist_agent.Memory.Numbering.{PlacedBy, fresh, revised}
use gist_agent.Memory.Versions.{IsNumbered, version_at, SavedBy-IsNumbered, version_at-SavedBy}
use gist_agent.Memory.Effects.{Written, kept, wrote, IsBounded, update-SavedBy}
use gist_agent.Memory.Operations.{run-Effect}

Written-IsNumbered : {s t : Store} → Written s t → IsNumbered s → IsNumbered t
Written-IsNumbered {s = s} (kept m r) n k = rw (m, r) (n k)
Written-IsNumbered (wrote {v = v} saved m r) n k = rw (m, r) (SavedBy-IsNumbered saved n k)

-- Whatever operations succeed, in whatever order: the revisions of each memory are numbered from 1 to
-- the memory's version, in the order in which they were written, and no generation has more than ten
-- candidates, if both held before.
pub Steps-IsNumbered :
    {u : Unicode} {s t : Store}
    → Steps u s t
    → IsNumbered s
    → IsBounded s.candidates
    → IsNumbered t × IsBounded t.candidates
Steps-IsNumbered done n b = (n, b)
Steps-IsNumbered {u = u} {s = s} (next o h rest) n b =
    let outcome = run-Effect u o s h in
    Steps-IsNumbered rest (Written-IsNumbered outcome.written n) (outcome.bounded b)

-- No operation changes or removes a revision, and no version goes back.
pub record Extends (s t : Store) : Type 0 where
  pub added : List Revision
  pub revisions : t.revisions ≡ s.revisions ++ added
  pub versions : (id : ℕ) → version_at id s.memories ≤ version_at id t.memories

Extends-refl : (s : Store) → Extends s s
Extends-refl s = record {
  added = [];
  revisions = sym (append-nil s.revisions);
  versions = λ id. omega arith;
}

Extends-trans : {s t v : Store} → Extends s t → Extends t v → Extends s v
Extends-trans {s = s} e f = record {
  added = e.added ++ f.added;
  revisions =
      f.revisions ∙ ap (λ x. x ++ f.added) e.revisions ∙ append_assoc s.revisions e.added f.added;
  versions = λ id. omega (arith, e.versions id, f.versions id);
}

Written-Extends : {s t : Store} → Written s t → Extends s t
Written-Extends {s = s} (kept m r) = record {
  added = [];
  revisions = r ∙ sym (append-nil s.revisions);
  versions = λ id. rw m (omega arith);
}
Written-Extends (wrote saved m r) = record {
  added = saved.revision ∷ [];
  revisions = r ∙ saved.revisions;
  versions = λ id.
      rw (m, version_at-SavedBy saved id)
        (elim (Bool-cases ((saved.placed).id == id)) [
          | inl b ↦ rw b (omega arith)
          | inr b ↦ rw b (omega arith)
        ]);
}

-- Whatever operations succeed, the revisions that were there stay as they were, before the new ones,
-- and the version of no memory decreases.
pub Steps-Extends : {u : Unicode} {s t : Store} → Steps u s t → Extends s t
Steps-Extends {s = s} done = Extends-refl s
Steps-Extends {u = u} {s = s} (next o h rest) =
    Extends-trans (Written-Extends (run-Effect u o s h).written) (Steps-Extends rest)

PlacedBy-expected :
    (ds id expected : ℕ) (s : Store) (p : Placed)
    → PlacedBy ds (some id) (some expected) s.memories p
    → (version_at id s.memories ≡ expected) × (p.id ≡ id)
PlacedBy-expected ds id expected s p (fresh m i absent e o v w q) = cc
PlacedBy-expected ds id expected s p (revised m status name i x found e w q) =
    let same : id ≡ m.id = cc in (rw (same, found) (ground arith), sym e ∙ sym same)

-- An update succeeds only at the current version, and moves it on.
update-versions :
    (u : Unicode) (draw : Draw) (user id expected : ℕ) (patch : Node) (is_deleted : Bool)
    (s : Store) {d : DatasourceMemory} {t : Store}
    → update u draw user id expected patch is_deleted s ≡ ok (d, t)
    → (version_at id s.memories ≡ expected) × (version_at id t.memories ≡ suc expected)
update-versions u draw user id expected patch is_deleted s h =
    let (ds, content, saved) = update-SavedBy u draw user id expected patch is_deleted s h in
    let (now, there) = PlacedBy-expected ds id expected s saved.placed saved.by in
    (now, version_at-SavedBy saved id ∙ rw (there, ==_refl id, now) refl)

-- Of the updates of one memory that expect the same version, at most one succeeds: where an update has
-- succeeded, then after any further operations every update that expects the version it expected fails.
pub update-stale :
    (u : Unicode) (first : Draw) (user id expected : ℕ) (patch : Node) (is_deleted : Bool)
    (s : Store) (d : DatasourceMemory) (t v : Store)
    → update u first user id expected patch is_deleted s ≡ ok (d, t)
    → Steps u t v
    → (second : Draw) (other : ℕ) (change : Node) (deletes : Bool) (r : DatasourceMemory × Store)
    → ¬ (update u second other id expected change deletes v ≡ ok r)
update-stale u first user id expected patch is_deleted s d t v h steps second other change deletes
      (e, w) k =
    let (before, after) = update-versions u first user id expected patch is_deleted s h in
    let (now, later) = update-versions u second other id expected change deletes v k in
    absurd (omega (arith, after, now, (Steps-Extends steps).versions id))
