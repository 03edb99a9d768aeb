-- ===== src/Memory/Operations.antt =====
-- packages/database/src/memory-repository.ts: what proposing and deciding change, and the operations
-- together.
use gist_agent.Base.{
  ==_iff, ◌⊎◌, if-cases, ℕ, ◌+◌, ◌≤◌, Option, none, some, Bool, true, false, not, ◌||◌, List, [],
  ◌∷◌, ◌==◌, leb, any, first_where, count_where, count_where-append, count_where-update_le,
  update_where, Bool-cases, inl, inr, Result, ok, err, >>=-eq-ok, ok-injective, passes, ◌≡◌, refl,
  ap, subst, arith,
}
use gist_agent.Database.{Generation}
use gist_agent.Memory.{
  Store, MemoryContent, MemoryFault, Candidate, CandidateStatus, positive_integer, validate_memory,
  authorize, conflict, unique_violation,
}
use gist_agent.Memory.Policy.{Unicode}
use gist_agent.Memory.Writing.{Draw, save}
use gist_agent.Memory.Candidates.{
  Proposal, of_generation, with_candidates, add_candidate, keep_or_add, propose_for, propose,
  new_candidate, is_same, check_arguments, check_target,
}
use gist_agent.Memory.Decisions.{
  Edit, Decision, Saved, save_candidate, decided, decide_on, decide, is_repeated, is_pending,
  verdict, edited_content, check_edit, content_to_save, saving_of,
}
use gist_agent.Memory.Steps.{
  Operation, run, store_of, creating, updating, remembering, proposing, deciding,
}
use gist_agent.Memory.Numbering.{save-SavedBy}
use gist_agent.Memory.Effects.{
  kept, wrote, Written, Effect, Effect-refl, SavedBy-Effect, transaction-eq-ok, create-SavedBy,
  update-SavedBy, remember-Effect,
}

-- Proposing.
one_more : (n : ℕ) → leb 10 n ≡ false → n + (1 + 0) ≤ 10
one_more n h = ground arith

add_candidate-IsBounded :
    (c : Candidate) (s : Store) {id : ℕ} {t : Store} → add_candidate c s ≡ ok (id, t) → Effect s t
unfolding add_candidate
add_candidate-IsBounded c s h =
    let (few, h1) =
      passes (leb 10 (count_where (of_generation c.generation_id) s.candidates)) conflict _ h in
    let (unused, h2) = passes (any (λ x. x.id == c.id) s.candidates) unique_violation _ h1 in
    subst (λ x. Effect s x.1) (ok-injective h2)
      (record {
        written = kept refl refl;
        bounded = λ b id.
            rw (count_where-append (of_generation id) s.candidates (c ∷ []))
              elim (Bool-cases (c.generation_id == id)) [
                | inl e ↦ rw e (
                    one_more (count_where (of_generation id) s.candidates) (
                      subst (λ k. leb 10 (count_where (of_generation k) s.candidates) ≡ false)
                        ((==_iff c.generation_id id).0 e) few))
                | inr e ↦ rw e (omega (arith, b id))
              ];
      })

keep_or_add-Effect :
    (o : Option Candidate) (c : Candidate) (s : Store) {id : ℕ} {t : Store}
    → keep_or_add o c s ≡ ok (id, t)
    → Effect s t
unfolding keep_or_add
keep_or_add-Effect (some x) c s h = subst (λ x. Effect s x.1) (ok-injective h) (Effect-refl s)
keep_or_add-Effect none c s h = add_candidate-IsBounded c s h

propose_for-Effect :
    (draw : Draw) (user ds : ℕ) (o : Option Generation) (content : MemoryContent) (p : Proposal)
    (s : Store) {id : ℕ} {t : Store}
    → propose_for draw user ds o content p s ≡ ok (id, t)
    → Effect s t
unfolding propose_for
propose_for-Effect draw user ds none content p s h = cc
propose_for-Effect draw user ds (some g) content p s h =
    let (a, h1, h2) = >>=-eq-ok (authorize s ds user true) _ h in
    let (b, h3, h4) = >>=-eq-ok (check_target ds p.memory_id p.expected_version s.memories) _ h2 in
    keep_or_add-Effect
      (first_where (is_same g.id content p.memory_id p.expected_version) s.candidates)
      (new_candidate draw user ds g content p) s h4

propose-Effect :
    (draw : Draw) (user ds generation_id writer_token : ℕ) (p : Proposal) (s : Store) {id : ℕ}
    {t : Store}
    → propose draw user ds generation_id writer_token p s ≡ ok (id, t)
    → Effect s t
unfolding propose
propose-Effect draw user ds generation_id writer_token p s h =
    let (content, h1, h2) = >>=-eq-ok (validate_memory p.content) _ h in
    let (a, h3, h4) = >>=-eq-ok (check_arguments p.memory_id p.expected_version) _ h2 in
    propose_for-Effect draw user ds _ content p s (transaction-eq-ok _ h4)

-- Deciding.
save_candidate-Effect :
    (u : Unicode) (draw : Draw) (user : ℕ) (accept : Bool) (edited : Option MemoryContent)
    (edit : Option Edit) (c : Candidate) (s : Store) {saved : Saved}
    → save_candidate u draw user accept edited edit c s ≡ ok saved
    → Effect s saved.store
unfolding save_candidate
save_candidate-Effect u draw user false edited edit c s h =
    subst (λ x. Effect s x.store) (ok-injective h) (Effect-refl s)
save_candidate-Effect u draw user true edited edit c s h =
    let (content, h1, h2) = >>=-eq-ok (content_to_save edited c) _ h in
    let ((d, t), h3, h4) =
      >>=-eq-ok (save u draw user c.datasource_id (saving_of content edit c) s) _ h2 in
    subst (λ x. Effect s x.store) (ok-injective h4)
      (SavedBy-Effect (save-SavedBy u draw user c.datasource_id (saving_of content edit c) s h3))

count_where-decided :
    (id i : ℕ) (status : CandidateStatus) (saved : Saved) (cs : List Candidate)
    → count_where (of_generation id) (update_where (λ x. x.id == i) (decided status saved) cs)
      ≤ count_where (of_generation id) cs
count_where-decided id i status saved cs =
    count_where-update_le (of_generation id) (λ x. x.id == i) (decided status saved) (λ x h k. k) cs

abbrev pub decided_store : CandidateStatus → Saved → Candidate → Store
decided_store status saved c =
    with_candidates
      (update_where (λ x. x.id == c.id) (decided status saved) (saved.store).candidates) saved.store

decided-Effect :
    (status : CandidateStatus) (saved : Saved) (c : Candidate) (s : Store)
    → Effect s saved.store
    → Effect s (decided_store status saved c)
decided-Effect status saved c s o = record {
  written = still o.written;
  bounded = λ b id.
      omega
        (arith, count_where-decided id c.id status saved (saved.store).candidates, o.bounded b id);
}
  where
    still : Written s saved.store → Written s (decided_store status saved c)
    still (kept m r) = kept m r
    still (wrote v m r) = wrote v m r

abbrev pub decision_of : CandidateStatus → Saved → Decision
decision_of status saved = record {
  status = status;
  memory_id = saved.memory_id;
  version = saved.version;
}

-- A decision that succeeds repeats an earlier one, or is the first and settles the candidate.
pub decide_on-cases :
    (u : Unicode) (draw : Draw) (user expected : ℕ) (accept : Bool) (edited : Option MemoryContent)
    (edit : Option Edit) (c : Candidate) (s : Store) {answer : Decision} {t : Store}
    → decide_on u draw user expected accept edited edit (some c) s ≡ ok (answer, t)
    → ((is_repeated accept expected c ≡ true) × (s ≡ t))
      ⊎ ((saved : Saved) × (save_candidate u draw user accept edited edit c s ≡ ok saved)
          × ((c.version == expected) ≡ true)
          × (decision_of (verdict accept) saved ≡ answer)
          × (decided_store (verdict accept) saved c ≡ t))
unfolding decide_on
decide_on-cases u draw user expected accept edited edit c s h =
    let (a, h1, h2) = >>=-eq-ok (authorize s c.datasource_id user true) _ h in
    elim (if-cases (is_repeated accept expected c) _ _ h2) [
      | inl (e, h3) ↦ inl (e, ap (λ x. x.1) (ok-injective h3))
      | inr (e, h3) ↦
          let (settled, h4) =
            passes (not (is_pending c.status) || not (c.version == expected)) conflict _ h3 in
          let (saved, h5, h6) =
            >>=-eq-ok (save_candidate u draw user accept edited edit c s) _ h4 in
          inr (
            saved,
            h5,
            ground arith,
            ap (λ x. x.0) (ok-injective h6),
            ap (λ x. x.1) (ok-injective h6),
          )
    ]

decide_on-Effect :
    (u : Unicode) (draw : Draw) (user expected : ℕ) (accept : Bool) (edited : Option MemoryContent)
    (edit : Option Edit) (o : Option Candidate) (s : Store) {answer : Decision} {t : Store}
    → decide_on u draw user expected accept edited edit o s ≡ ok (answer, t)
    → Effect s t
unfolding decide_on
decide_on-Effect u draw user expected accept edited edit none s h = cc
decide_on-Effect u draw user expected accept edited edit (some c) s h =
    elim (decide_on-cases u draw user expected accept edited edit c s h) [
      | inl (e, same) ↦ subst (Effect s) same (Effect-refl s)
      | inr (saved, h1, v, a, q) ↦ subst (Effect s) q (
          decided-Effect (verdict accept) saved c s
            (save_candidate-Effect u draw user accept edited edit c s h1))
    ]

decide-Effect :
    (u : Unicode) (draw : Draw) (user id expected : ℕ) (accept : Bool) (edit : Option Edit)
    (s : Store) {answer : Decision} {t : Store}
    → decide u draw user id expected accept edit s ≡ ok (answer, t)
    → Effect s t
unfolding decide
decide-Effect u draw user id expected accept edit s h =
    let (a, h1, h2) = >>=-eq-ok (positive_integer expected) _ h in
    let (edited, h3, h4) = >>=-eq-ok (edited_content edit) _ h2 in
    let (b, h5, h6) = >>=-eq-ok (check_edit accept edit) _ h4 in
    decide_on-Effect u draw user expected accept edited edit _ s (transaction-eq-ok _ h6)

store_of-eq-ok {ℓ} :
    {A : Type ℓ} (m : Result MemoryFault (A × Store)) {t : Store}
    → store_of m ≡ ok t
    → (a : A) × (m ≡ ok (a, t))
store_of-eq-ok (ok (a, s)) h = (a, ap (λ x. ok (a, x)) (ok-injective h))
store_of-eq-ok (err e) h = cc

pub run-Effect :
    (u : Unicode) (o : Operation) (s : Store) {t : Store} → run u o s ≡ ok t → Effect s t
unfolding run
run-Effect u (creating draw user ds body) s h =
    SavedBy-Effect (create-SavedBy u draw user ds body s (store_of-eq-ok _ h).1).1
run-Effect u (updating draw user id expected patch is_deleted) s h =
    SavedBy-Effect
      (update-SavedBy u draw user id expected patch is_deleted s (store_of-eq-ok _ h).1).2
run-Effect u (remembering draw user ds message body) s h =
    remember-Effect u draw user ds message body s (store_of-eq-ok _ h).1
run-Effect u (proposing draw user ds generation_id writer_token p) s h =
    propose-Effect draw user ds generation_id writer_token p s (store_of-eq-ok _ h).1
run-Effect u (deciding draw user id expected accept edit) s h =
    decide-Effect u draw user id expected accept edit s (store_of-eq-ok _ h).1
