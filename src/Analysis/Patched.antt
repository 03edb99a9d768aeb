-- ===== src/Analysis/Patched.antt =====
-- apps/worker/src/analysis/analysis-state.ts: what a patch makes of references and hypotheses.
use gist_agent.Base.{
  Option, none, some, true, false, List, [], ◌∷◌, All, first_where, first_where-holds, ok,
  >>=-eq-ok, ok-injective, passes, ◌≡◌, refl, sym, ap, subst, arith,
}
use gist_agent.Memory.{DatasourceMemory, is_active}
use gist_agent.Sql.{Node, Nodes, Entries, entry_at}
use gist_agent.Analysis.{
  AnalysisState, Conditions, MemoryRef, duplicate_memory, duplicate_hypothesis, object_with,
  optional_at, list_of, map_nodes, has_twice,
}
use gist_agent.Analysis.Patching.{
  Deps, optionally, is_memory, ref_of, same_ref, same_hypothesis, memory_ref, unique_refs, refs_of,
  patch_conditions, with_hypotheses, hypothesis, add_hypotheses, unique_hypotheses, hypotheses_of,
}

-- A reference to a memory that is there, active and at this version.
abbrev pub IsKnown : Deps → MemoryRef → Type 0
IsKnown deps r =
    (d : DatasourceMemory) × (d.id ≡ r.id) × (d.version ≡ r.version) × (is_active d.status ≡ true)

module _ (deps : Deps) where
  memory_ref-IsKnown : (v : Node) {r : MemoryRef} → memory_ref deps v ≡ ok r → IsKnown deps r
  unfolding memory_ref
  memory_ref-IsKnown v h =
      let (es, h1, h2) = >>=-eq-ok (object_with ("id" ∷ "version" ∷ []) v) _ h in
      known (entry_at "id" es) (entry_at "version" es)
        (first_where (is_memory (entry_at "id" es) (entry_at "version" es)) deps.memories) refl h2
    where
      known :
          (a b : Node) (o : Option DatasourceMemory) {r : MemoryRef}
          → first_where (is_memory a b) deps.memories ≡ o
          → ref_of o ≡ ok r
          → IsKnown deps r
      known a b none e h = cc
      known a b (some d) e h =
          let hit = first_where-holds (is_memory a b) deps.memories e in
          (
            d,
            ap (λ x. x.id) (ok-injective h),
            ap (λ x. x.version) (ok-injective h),
            ground (arith, hit),
          )

  map_nodes-All :
      (vs : Nodes) {rs : List MemoryRef}
      → map_nodes (memory_ref deps) vs ≡ ok rs
      → All (IsKnown deps) rs
  unfolding map_nodes
  map_nodes-All Nodes.no_more h = subst (All (IsKnown deps)) (ok-injective h) tt
  map_nodes-All (Nodes.more v vs) h =
      let (r, h1, h2) = >>=-eq-ok (memory_ref deps v) _ h in
      let (rest, h3, h4) = >>=-eq-ok (map_nodes (memory_ref deps) vs) _ h2 in
      subst (All (IsKnown deps)) (ok-injective h4) (memory_ref-IsKnown v h1, map_nodes-All vs h3)

  refs_of-IsKnown :
      (v : Node) {rs : List MemoryRef}
      → refs_of deps v ≡ ok rs
      → All (IsKnown deps) rs × (has_twice same_ref rs ≡ false)
  unfolding refs_of unique_refs
  refs_of-IsKnown v h =
      let (vs, h1, h2) = >>=-eq-ok (list_of v) _ h in
      let (found, h3, h4) = >>=-eq-ok (map_nodes (memory_ref deps) vs) _ h2 in
      let (once, q) = passes (has_twice same_ref found) duplicate_memory _ h4 in
      subst (λ x. All (IsKnown deps) x × (has_twice same_ref x ≡ false)) (ok-injective q)
        (map_nodes-All vs h3, once)

  pub patch_conditions-refs :
      (p : Entries) (c d : Conditions) (v : Node)
      → patch_conditions deps p c ≡ ok d
      → optional_at "memoryRefs" p ≡ some v
      → All (IsKnown deps) d.memory_refs × (has_twice same_ref d.memory_refs ≡ false)
  unfolding patch_conditions
  patch_conditions-refs p c d v h given =
      let (refs, h1, h2) =
        >>=-eq-ok (optionally (optional_at "memoryRefs" p) c.memory_refs (refs_of deps)) _ h in
      let (a2, k2, h3) =
        >>=-eq-ok (optionally (optional_at "temporaryNotes" p) c.temporary_notes _) _ h2 in
      let (a3, k3, h4) = >>=-eq-ok (optionally (optional_at "timeRange" p) c.time_range _) _ h3 in
      let (a4, k4, h5) =
        >>=-eq-ok (optionally (optional_at "comparisonRange" p) c.comparison_range _) _ h4 in
      let (a5, k5, h6) = >>=-eq-ok (optionally (optional_at "grain" p) c.grain _) _ h5 in
      let found =
        refs_of-IsKnown v
          (subst (λ o. optionally o c.memory_refs (refs_of deps) ≡ ok refs) given h1) in
      subst (λ x. All (IsKnown deps) x × (has_twice same_ref x ≡ false))
        (ap (λ x. x.memory_refs) (ok-injective h6)) found

  add_hypotheses-conditions :
      (vs : Nodes) (s : AnalysisState) {t : AnalysisState}
      → add_hypotheses deps s vs ≡ ok t
      → t.conditions ≡ s.conditions
  unfolding add_hypotheses
  add_hypotheses-conditions Nodes.no_more s h = sym (ap (λ x. x.conditions) (ok-injective h))
  add_hypotheses-conditions (Nodes.more v vs) s h =
      let (a, h1, h2) = >>=-eq-ok (hypothesis deps s v) _ h in add_hypotheses-conditions vs _ h2

  pub hypotheses_of_unique :
      (s : AnalysisState) (v : Node) {t : AnalysisState}
      → hypotheses_of deps s v ≡ ok t
      → (t.conditions ≡ s.conditions) × (has_twice same_hypothesis t.hypotheses ≡ false)
  unfolding hypotheses_of unique_hypotheses
  hypotheses_of_unique s v h =
      let (vs, h1, h2) = >>=-eq-ok (list_of v) _ h in
      let (added, h3, h4) = >>=-eq-ok (add_hypotheses deps (with_hypotheses deps [] s) vs) _ h2 in
      let (once, q) =
        passes (has_twice same_hypothesis added.hypotheses) duplicate_hypothesis _ h4 in
      subst (λ x. (x.conditions ≡ s.conditions) × (has_twice same_hypothesis x.hypotheses ≡ false))
        (ok-injective q) (add_hypotheses-conditions vs (with_hypotheses deps [] s) h3, once)
