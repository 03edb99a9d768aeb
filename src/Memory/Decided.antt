-- ===== src/Memory/Decided.antt =====
-- packages/database/src/memory-repository.ts: a decision that is sent again.
use gist_agent.Base.{
  ℕ, ◌+◌, Option, none, some, Bool, true, false, ◌==◌, ==_refl, ==_iff, inl, inr, first_where,
  first_where-update_where, ok, >>=-eq-ok, ok-injective, ◌≡◌, refl, sym, ap, subst, ◌∙◌,
}
use gist_agent.Memory.{
  is_accessible, Store, MemoryContent, Candidate, CandidateStatus, authorize, transaction,
  positive_integer,
}
use gist_agent.Memory.Policy.{Unicode}
use gist_agent.Memory.Writing.{Draw, save}
use gist_agent.Memory.Decisions.{
  Edit, Decision, Saved, is_visible, is_decidable, decide, decide_on, save_candidate,
  content_to_save, saving_of, decided, verdict, same_status, is_repeated, edited_content,
  check_edit,
}
use gist_agent.Memory.Numbering.{save-SavedBy}
use gist_agent.Memory.Effects.{transaction-eq-ok}
use gist_agent.Memory.Operations.{decide_on-cases, decided_store}

-- What saving a candidate leaves alone.
record Kept (s t : Store) : Type 0 where
  candidates : t.candidates ≡ s.candidates
  sources : t.sources ≡ s.sources
  permissions : t.permissions ≡ s.permissions
  generations : t.generations ≡ s.generations

save_candidate-Kept :
    (u : Unicode) (draw : Draw) (user : ℕ) (accept : Bool) (edited : Option MemoryContent)
    (edit : Option Edit) (c : Candidate) (s : Store) {saved : Saved}
    → save_candidate u draw user accept edited edit c s ≡ ok saved
    → Kept s saved.store
unfolding save_candidate
save_candidate-Kept u draw user false edited edit c s h =
    subst (λ x. Kept s x.store) (ok-injective h)
      (record { candidates = refl; sources = refl; permissions = refl; generations = refl })
save_candidate-Kept u draw user true edited edit c s h =
    let (content, h1, h2) = >>=-eq-ok (content_to_save edited c) _ h in
    let ((d, t), h3, h4) =
      >>=-eq-ok (save u draw user c.datasource_id (saving_of content edit c) s) _ h2 in
    let v = save-SavedBy u draw user c.datasource_id (saving_of content edit c) s h3 in
    subst (λ x. Kept s x.store) (ok-injective h4)
      (record {
        candidates = v.candidates;
        sources = v.sources;
        permissions = v.permissions;
        generations = v.generations;
      })

same_status_refl : (a : CandidateStatus) → same_status a a ≡ true
same_status_refl CandidateStatus.pending = refl
same_status_refl CandidateStatus.accepted = refl
same_status_refl CandidateStatus.rejected = refl

-- The answer to a decision that the candidate already has.
decide_on-repeated :
    (u : Unicode) (draw : Draw) (user expected : ℕ) (accept : Bool) (edited : Option MemoryContent)
    (edit : Option Edit) (c : Candidate) (s : Store) {a : Unit {0}}
    → authorize s c.datasource_id user true ≡ ok a
    → is_repeated accept expected c ≡ true
    → decide_on u draw user expected accept edited edit (some c) s
      ≡ ok (
        record { status = c.status; memory_id = c.result_memory_id; version = c.result_version },
        s,
      )
unfolding decide_on
decide_on-repeated u draw user expected accept edited edit c s a r = rw (a, r) refl

authorize-sources :
    (s t : Store) (ds user : ℕ)
    → t.sources ≡ s.sources
    → authorize t ds user true ≡ authorize s ds user true
unfolding authorize is_accessible
authorize-sources s t ds user e = rw e refl

-- The candidate, decided, is what the next decision about it finds.
find-decided :
    (s : Store) (user id : ℕ) (status : CandidateStatus) (saved : Saved) (c : Candidate)
    → Kept s saved.store
    → first_where (is_decidable s user id) s.candidates ≡ some c
    → first_where
        (is_decidable (decided_store status saved c) user id)
        (decided_store status saved c).candidates
      ≡ some (decided status saved c)
unfolding is_visible
find-decided s user id status saved c k h =
    let found =
      first_where-update_where (is_decidable s user id) (λ x. x.id == c.id) (decided status saved)
        (λ x. refl) s.candidates h in
    rw (k.candidates, k.generations) (found ∙ rw (==_refl c.id) refl)

decide_on-again :
    (u : Unicode) (draw second : Draw) (user id expected : ℕ) (accept : Bool)
    (edited : Option MemoryContent) (edit : Option Edit) (s : Store) (o : Option Candidate)
    {answer : Decision} {t : Store}
    → first_where (is_decidable s user id) s.candidates ≡ o
    → decide_on u draw user expected accept edited edit o s ≡ ok (answer, t)
    → decide_on u second user expected accept edited edit
        (first_where (is_decidable t user id) t.candidates)
        t
      ≡ ok (answer, t)
unfolding decide_on
decide_on-again u draw second user id expected accept edited edit s none e h = cc
decide_on-again u draw second user id expected accept edited edit s (some c) {answer = answer}
      {t = t} e h =
    let (a, access, h2) = >>=-eq-ok (authorize s c.datasource_id user true) _ h in
    elim (decide_on-cases u draw user expected accept edited edit c s h) [
      | inl (repeated, same) ↦
          subst
            (λ x.
              decide_on u second user expected accept edited edit
                (first_where (is_decidable x user id) x.candidates) x
              ≡ ok (answer, x))
            same
            (ap (λ x. decide_on u second user expected accept edited edit x s) e
              ∙ decide_on-repeated u second user expected accept edited edit c s access repeated
              ∙ sym (decide_on-repeated u draw user expected accept edited edit c s access repeated)
              ∙ subst
                  (λ x.
                    decide_on u draw user expected accept edited edit (some c) s ≡ ok (answer, x))
                  (sym same) h)
      | inr (saved, h5, v, qa, qt) ↦
          let kept = save_candidate-Kept u draw user accept edited edit c s h5 in
          let t = decided_store (verdict accept) saved c in
          let now = decided (verdict accept) saved c in
          let settled : is_repeated accept expected now ≡ true =
            rw
              (
                same_status_refl (verdict accept),
                (==_iff c.version expected).0 v,
                ==_refl (expected + 1),
              )
              refl in
          subst
            (λ x.
              decide_on u second user expected accept edited edit
                (first_where (is_decidable x user id) x.candidates) x
              ≡ ok (answer, x))
            qt
            (ap (λ x. decide_on u second user expected accept edited edit x t)
                (find-decided s user id (verdict accept) saved c kept e)
              ∙ decide_on-repeated u second user expected accept edited edit now t
                  (authorize-sources s t c.datasource_id user kept.sources ∙ access) settled
              ∙ ap (λ x. ok (x, t)) qa)
    ]

-- A decision that has succeeded and is sent again gets the same answer, and changes nothing.
pub decide-repeated :
    (u : Unicode) (first second : Draw) (user id expected : ℕ) (accept : Bool) (edit : Option Edit)
    (s : Store) (answer : Decision) (t : Store)
    → decide u first user id expected accept edit s ≡ ok (answer, t)
    → decide u second user id expected accept edit t ≡ ok (answer, t)
unfolding decide
decide-repeated u first second user id expected accept edit s answer t h =
    let (a, h1, h2) = >>=-eq-ok (positive_integer expected) _ h in
    let (edited, h3, h4) = >>=-eq-ok (edited_content edit) _ h2 in
    let (b, h5, h6) = >>=-eq-ok (check_edit accept edit) _ h4 in
    rw (h1, h3, h5)
      (ap transaction (
        decide_on-again u first second user id expected accept edited edit s _ refl
          (transaction-eq-ok _ h6)))
