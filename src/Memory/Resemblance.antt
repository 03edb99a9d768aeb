-- ===== src/Memory/Resemblance.antt =====
-- packages/database/src/memory-policy.ts: which memories hold a new one back.
use gist_agent.Base.{
  ℕ, suc, ◌≤◌, Option, Bool, true, false, not, ◌&&◌, List, [], ◌∷◌, length, length-map, length-take,
  take, any, is_some_eq, str_eq, if◌then◌else◌, Bool-cases, inl, inr, ◌≡◌, refl, ap, ◌∙◌, arith,
}
use gist_agent.Memory.{MemoryContent, DatasourceMemory, is_active}
use gist_agent.Memory.Policy.{
  Unicode, Match, Reason, normalize, reason_of, match_of, is_related, matches, insert_match,
  sort_matches, related_of, related_memories,
}

length-insert_match : (m : Match) (ms : List Match) → length (insert_match m ms) ≡ suc (length ms)
unfolding insert_match
length-insert_match m [] = refl
length-insert_match m (n ∷ ns) = ground (arith, length-insert_match m ns)

length-sort_matches : (ms : List Match) → length (sort_matches ms) ≡ length ms
unfolding sort_matches
length-sort_matches [] = refl
length-sort_matches (m ∷ ms) =
    length-insert_match m (sort_matches ms) ∙ ap suc (length-sort_matches ms)

-- An active memory, not the excluded one, that has the new content's name.
abbrev pub has_name : Unicode → MemoryContent → Option ℕ → DatasourceMemory → Bool
has_name u content exclude_id m =
    is_active m.status
    && not (is_some_eq exclude_id m.id)
    && str_eq (normalize u content.name) (normalize u m.name)

reason_of-same_name :
    (u : Unicode) (content : MemoryContent) (m : DatasourceMemory)
    → str_eq (normalize u content.name) (normalize u m.name) ≡ true
    → reason_of u content m ≡ Reason.same_name
unfolding reason_of
reason_of-same_name u content m h = rw h refl

is_related-match_of :
    (u : Unicode) (content : MemoryContent) (m : DatasourceMemory)
    → str_eq (normalize u content.name) (normalize u m.name) ≡ true
    → is_related (match_of u content m) ≡ true
unfolding is_related match_of
is_related-match_of u content m h = rw (reason_of-same_name u content m h) refl

longer :
    {A : Type 0} (c : Bool) (x : A) (xs : List A)
    → 1 ≤ length xs
    → 1 ≤ length (if c then x ∷ xs else xs)
longer true x xs h = omega (arith, h)
longer false x xs h = h

matches-some :
    (u : Unicode) (content : MemoryContent) (exclude_id : Option ℕ) (ms : List DatasourceMemory)
    → any (has_name u content exclude_id) ms ≡ true
    → 1 ≤ length (matches u content ms exclude_id)
unfolding matches
matches-some u content exclude_id [] h = cc
matches-some u content exclude_id (m ∷ ms) h =
    let shown = is_active m.status && not (is_some_eq exclude_id m.id) in
    let same = str_eq (normalize u content.name) (normalize u m.name) in
    elim (Bool-cases shown) [
      | inl b ↦ rw b (elim (Bool-cases same) [
        | inl n ↦ rw (is_related-match_of u content m n) (omega arith)
        | inr n ↦
            longer (is_related (match_of u content m)) _ _
              (matches-some u content exclude_id ms (rw (b, n) at h))
      ])
      | inr b ↦ rw b (matches-some u content exclude_id ms (rw b at h))
    ]

-- Where an active memory of those given has the new content's name, up to Unicode form, case and white
-- space, at least one related memory is reported; and never more than five.
pub related_memories-bounds :
    (u : Unicode) (content : MemoryContent) (exclude_id : Option ℕ) (ms : List DatasourceMemory)
    → any (has_name u content exclude_id) ms ≡ true
    → (1 ≤ length (related_memories u content ms exclude_id))
      × (length (related_memories u content ms exclude_id) ≤ 5)
unfolding related_memories
related_memories-bounds u content exclude_id ms h =
    let found = matches u content ms exclude_id in
    let some_found = matches-some u content exclude_id ms h in
    rw
      (
        length-map (take 5 (sort_matches found)) related_of,
        length-take 5 (sort_matches found),
        length-sort_matches found,
      )
      (omega (arith, some_found))
