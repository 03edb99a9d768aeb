-- ===== src/Analysis/Accepted.antt =====
-- apps/worker/src/analysis/analysis-state.ts: the state after a patch that is accepted.
use gist_agent.Base.{
  ℕ, ◌+◌, String, Option, none, some, Bool, true, false, not, List, [], ◌∷◌, str_eq, if◌then◌else◌,
  if-cases, all, All, ok, >>=-eq-ok, ok-injective, passes, inl, inr, ◌≡◌, refl, sym, ap, subst, ◌∙◌,
  arith,
}
use gist_agent.Sql.{Node, Entries, entry_at}
use gist_agent.Analysis.{
  AnalysisState, revision_conflict, condition_signature, object_with, exact_keys, entries_of,
  optional_at, state_text, has_twice, is_number,
}
use gist_agent.Analysis.Patching.{
  Deps, optionally, same_ref, same_hypothesis, patch_conditions, patch_fields, is_allowed,
  check_filters, clear_hypotheses, questions_of, with_questions, with_hypotheses, with_revision,
  hypotheses_of, patch_state, patch_keys, check_mode, start_of, patch_analysis_state,
}
use gist_agent.Analysis.Patched.{IsKnown, hypotheses_of_unique, patch_conditions-refs}

-- What holds of the state that a patch has made.
pub record IsPatched (deps : Deps) (current : AnalysisState) (p : Entries) (s : AnalysisState)
    : Type 0 where
  pub revision : s.revision ≡ current.revision + 1
  pub allowed : all (is_allowed deps) (s.conditions).filters ≡ true
  pub references :
      (v : Node)
      → optional_at "memoryRefs" p ≡ some v
      → All (IsKnown deps) (s.conditions).memory_refs
        × (has_twice same_ref (s.conditions).memory_refs ≡ false)
  pub cleared :
      optional_at "hypotheses" p ≡ none
      → str_eq (condition_signature deps.stringify s) (condition_signature deps.stringify current)
        ≡ false
      → s.hypotheses ≡ []
  pub unique :
      (v : Node)
      → optional_at "hypotheses" p ≡ some v
      → has_twice same_hypothesis s.hypotheses ≡ false

module _ (deps : Deps) where
  signature-conditions :
      (s t : AnalysisState)
      → s.conditions ≡ t.conditions
      → condition_signature deps.stringify s ≡ condition_signature deps.stringify t
  unfolding condition_signature
  signature-conditions s t e = rw e refl

  clear-conditions :
      (current s : AnalysisState) → (clear_hypotheses deps current s).conditions ≡ s.conditions
  unfolding clear_hypotheses
  clear-conditions current s = kept (
      not (
        str_eq (condition_signature deps.stringify s) (condition_signature deps.stringify current)))
    where
      kept : (b : Bool) → (if b then with_hypotheses deps [] s else s).conditions ≡ s.conditions
      kept true = refl
      kept false = refl

  clear-changed :
      (current s : AnalysisState)
      → str_eq (condition_signature deps.stringify s) (condition_signature deps.stringify current)
        ≡ false
      → (clear_hypotheses deps current s).hypotheses ≡ []
  unfolding clear_hypotheses
  clear-changed current s e = rw (clear_hypotheses, e) refl

  -- The last two fields: what is done to the hypotheses.
  last-IsPatched :
      (current : AnalysisState) (p : Entries) (s base last : AnalysisState) (o : Option Node)
      → optional_at "hypotheses" p ≡ o
      → base.conditions ≡ s.conditions
      → (str_eq (condition_signature deps.stringify s) (condition_signature deps.stringify current)
            ≡ false
          → base.hypotheses ≡ [])
      → all (is_allowed deps) (s.conditions).filters ≡ true
      → ((v : Node)
          → optional_at "memoryRefs" p ≡ some v
          → All (IsKnown deps) (s.conditions).memory_refs
            × (has_twice same_ref (s.conditions).memory_refs ≡ false))
      → optionally o base (hypotheses_of deps base) ≡ ok last
      → IsPatched deps current p (with_revision deps (current.revision + 1) last)
  last-IsPatched current p s base last none e same cleared allowed refs h =
      let q : last.conditions ≡ s.conditions =
        sym (ap (λ x. x.conditions) (ok-injective h)) ∙ same in
      record {
        revision = refl;
        allowed = rw q allowed;
        references = λ v given. rw q (refs v given);
        cleared = λ k differ.
            sym (ap (λ x. x.hypotheses) (ok-injective h))
            ∙ cleared (
                subst (λ x. str_eq x (condition_signature deps.stringify current) ≡ false)
                  (signature-conditions _ s q) differ);
        unique = λ v given. absurd (clash given);
      }
    where
      clash : {v : Node} → optional_at "hypotheses" p ≡ some v → ⊥
      clash given = let two : none ≡ some _ = sym e ∙ given in cc
  last-IsPatched current p s base last (some v) e same cleared allowed refs h =
      let (kept, once) = hypotheses_of_unique deps base v h in
      let q : last.conditions ≡ s.conditions = kept ∙ same in
      record {
        revision = refl;
        allowed = rw q allowed;
        references = λ v given. rw q (refs v given);
        cleared = λ k differ. absurd (clash k);
        unique = λ v given. once;
      }
    where
      clash : optional_at "hypotheses" p ≡ none → ⊥
      clash k = let two : some v ≡ none = sym e ∙ k in cc

  check_filters-allowed :
      (s : AnalysisState) {a : Unit {0}}
      → check_filters deps s ≡ ok a
      → all (is_allowed deps) (s.conditions).filters ≡ true
  unfolding check_filters
  check_filters-allowed s h = elim (if-cases (all (is_allowed deps) (s.conditions).filters) _ _ h) [
    | inl (e, q) ↦ e
    | inr (e, q) ↦ cc
  ]

  patch_fields-refs :
      (p : Entries) (start s : AnalysisState) (v : Node)
      → patch_fields deps p start ≡ ok s
      → optional_at "memoryRefs" p ≡ some v
      → All (IsKnown deps) (s.conditions).memory_refs
        × (has_twice same_ref (s.conditions).memory_refs ≡ false)
  unfolding patch_fields
  patch_fields-refs p start s v h given =
      let (question, h1, h2) =
        >>=-eq-ok (optionally (optional_at "question" p) start.question state_text) _ h in
      let (c, h3, h4) = >>=-eq-ok (patch_conditions deps p start.conditions) _ h2 in
      let (freshness, h5, h6) =
        >>=-eq-ok (optionally (optional_at "freshness" p) start.freshness _) _ h4 in
      let (filters, h7, h8) =
        >>=-eq-ok (optionally (optional_at "filters" p) (start.conditions).filters _) _ h6 in
      subst
        (λ x.
          All (IsKnown deps) (x.conditions).memory_refs
          × (has_twice same_ref (x.conditions).memory_refs ≡ false))
        (ok-injective h8) (patch_conditions-refs deps p start.conditions c v h3 given)

  patch_state-IsPatched :
      (current : AnalysisState) (p : Entries) (start : AnalysisState) {t : AnalysisState}
      → patch_state deps current p start ≡ ok t
      → IsPatched deps current p t
  unfolding patch_state
  patch_state-IsPatched current p start h =
      let (s, h1, h2) = >>=-eq-ok (patch_fields deps p start) _ h in
      let (a, h3, h4) = >>=-eq-ok (check_filters deps s) _ h2 in
      let cleared = clear_hypotheses deps current s in
      let (qs, h5, h6) =
        >>=-eq-ok
          (optionally (optional_at "openQuestions" p) cleared.open_questions (questions_of deps)) _
          h4 in
      let base = with_questions deps qs cleared in
      let (last, h7, h8) =
        >>=-eq-ok (optionally (optional_at "hypotheses" p) base (hypotheses_of deps base)) _ h6 in
      subst (IsPatched deps current p) (ok-injective h8) (
        last-IsPatched current p s base last _ refl (clear-conditions current s)
          (clear-changed current s) (check_filters-allowed s h3)
          (λ v given. patch_fields-refs p start s v h1 given) h7)

entries_of-eq-ok : (v : Node) {es : Entries} → entries_of v ≡ ok es → v ≡ Node.object es
entries_of-eq-ok (Node.object fs) h = ap Node.object (ok-injective h)
entries_of-eq-ok _ h = cc

object_with-eq-ok :
    (allowed : List String) (v : Node) {es : Entries}
    → object_with allowed v ≡ ok es
    → v ≡ Node.object es
object_with-eq-ok allowed v h =
    let (fs, h1, h2) = >>=-eq-ok (entries_of v) _ h in
    let (a, h3, h4) = >>=-eq-ok (exact_keys fs allowed) _ h2 in
    entries_of-eq-ok v h1 ∙ ap Node.object (ok-injective h4)

-- A patch that is accepted was made for the current revision, and the state that it makes has the next
-- one; all its filters are on fields that are allowed; where the patch gives references to memories,
-- they are to active memories at their current version, none twice; the identifiers of hypotheses that
-- it gives differ; and where it gives none and the conditions have changed, none is left.
pub patch_analysis_state-IsPatched :
    (deps : Deps) (task_id : ℕ) (current : AnalysisState) (args : Entries) (s : AnalysisState)
    → patch_analysis_state deps task_id current args ≡ ok s
    → (is_number current.revision (entry_at "expectedRevision" args) ≡ true)
      × (p : Entries) × (entry_at "patch" args ≡ Node.object p)
      × IsPatched deps current p s
unfolding patch_analysis_state
patch_analysis_state-IsPatched deps task_id current args s h =
    let (a, h1, h2) =
      >>=-eq-ok (exact_keys args ("expectedRevision" ∷ "mode" ∷ "patch" ∷ "reason" ∷ [])) _ h in
    let (fits, h3) =
      passes (not (is_number current.revision (entry_at "expectedRevision" args))) revision_conflict
        _ h2 in
    let (reason, h4, h5) = >>=-eq-ok (state_text (entry_at "reason" args)) _ h3 in
    let (b, h6, h7) = >>=-eq-ok (check_mode deps (optional_at "mode" args)) _ h5 in
    let (p, h8, h9) = >>=-eq-ok (object_with (patch_keys deps) (entry_at "patch" args)) _ h7 in
    (
      ground arith,
      p,
      object_with-eq-ok (patch_keys deps) (entry_at "patch" args) h8,
      patch_state-IsPatched deps current p (start_of deps task_id current (entry_at "mode" args))
          h9,
    )
