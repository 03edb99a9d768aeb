-- ===== src/Memory/Policy.antt =====
-- packages/database/src/memory-policy.ts: which memories of a data source a new content resembles.
-- Unicode normalisation, lower case and the classes of punctuation and separators are parameters. A
-- score is a fraction: numerator and denominator, compared exactly.
use gist_agent.Base.{
  ℕ, ◌+◌, ◌*◌, String, Option, none, some, Bool, not, ◌&&◌, ◌||◌, List, [], ◌∷◌, map, length, take,
  rows_where, any, ◌==◌, ltb, leb, str_eq, if◌then◌else◌, is_some_eq,
}
use gist_agent.Base.Text.{squeeze, trim, cons}
use gist_agent.Memory.{MemoryContent, DatasourceMemory, is_active}
use Prim.Native.Char.{code}

pub record Unicode : Type 0 where
  pub nfkc : String → String
  pub lower : String → String
  pub is_mark : ℕ → Bool

-- `RelatedMemory['reason']`.
pub data Reason : Type 0 where
  same_name same_content similar_content : Reason

pub record Score : Type 0 where
  pub numerator : ℕ
  pub denominator : ℕ

pub record Match : Type 0 where
  pub memory : DatasourceMemory
  pub reason : Reason
  pub score : Score

pub record RelatedMemory : Type 0 where
  pub memory : DatasourceMemory
  pub reason : Reason

abbrev pub score_le : Score → Score → Bool
score_le a b = leb (a.numerator * b.denominator) (b.numerator * a.denominator)

abbrev pub Gram : Type 0
Gram = ℕ × ℕ

abbrev pub has_gram : Gram → List Gram → Bool
has_gram g = any (λ h. (h.0 == g.0) && (h.1 == g.1))

-- `normalizedName` of memory-repository.ts.
unfoldable pub normalized_name : Unicode → String → String
unfolding trim squeeze
normalized_name u name = squeeze (u.lower (trim (u.nfkc name)))

module _ (u : Unicode) where
  unfoldable pub normalize : String → String
  unfolding trim squeeze
  normalize text = trim (squeeze (u.lower (u.nfkc text)))

  -- `.replace(/[\p{P}\p{Z}]/gu, '')`.
  unfoldable pub without_marks : String → String
  without_marks String.[] = ""
  without_marks (String.◌∷◌ c s) =
      let rest = without_marks s in if u.is_mark (code c) then rest else cons c rest

  unfoldable pub compact : String → String
  unfolding normalize without_marks
  compact text = without_marks (normalize text)

abbrev first_code : String → Option ℕ
first_code String.[] = none
first_code (String.◌∷◌ c s) = some (code c)

-- The pairs of neighbouring characters, as a set.
unfoldable pub grams : String → List Gram
grams String.[] = []
grams (String.◌∷◌ c s) =
    let rest = grams s in
    elim (first_code s) [
      | none ↦ rest
      | some d ↦ (if has_gram (code c, d) rest then rest else (code c, d) ∷ rest)
    ]

abbrev pub no_score : Score
no_score = record { numerator = 0; denominator = 1 }

-- `similarity`, of the grams of two texts.
unfoldable pub similarity : List Gram → List Gram → Score
similarity left right =
    if length left == 0 || length right == 0
    then no_score
    else let common = length (rows_where (λ g. has_gram g right) left) in
      if ltb common 3
      then no_score
      else record { numerator = 2 * common; denominator = length left + length right }

abbrev pub larger : Score → Score → Score
larger a b = if score_le a b then b else a

module _ (u : Unicode) where
  unfoldable pub grams_of : String → List Gram
  unfolding grams compact
  grams_of text = grams (compact u text)

  unfoldable pub reason_of : MemoryContent → DatasourceMemory → Reason
  unfolding normalize compact
  reason_of content memory =
      if str_eq (normalize u content.name) (normalize u memory.name)
      then same_name
      else if str_eq (compact u content.description) (compact u memory.description)
      then same_content
      else similar_content

  abbrev pub score_by : Reason → MemoryContent → DatasourceMemory → Score
  score_by same_name content memory = record { numerator = 3; denominator = 1 }
  score_by same_content content memory = record { numerator = 2; denominator = 1 }
  score_by similar_content content memory =
      larger (similarity (grams_of content.description) (grams_of memory.description))
        (similarity (grams_of content.name) (grams_of memory.name))

  unfoldable pub match_of : MemoryContent → DatasourceMemory → Match
  unfolding similarity grams_of reason_of
  match_of content memory = record {
    memory = memory;
    reason = reason_of content memory;
    score = score_by (reason_of content memory) content memory;
  }

-- `match.score >= 0.55`.
unfoldable pub is_related : Match → Bool
is_related m = leb (55 * m.score.denominator) (100 * m.score.numerator)

-- `b.score - a.score || a.memory.id.localeCompare(b.memory.id)`.
unfoldable pub comes_before : Match → Match → Bool
comes_before a b =
    not (score_le a.score b.score) || (score_le b.score a.score && leb a.memory.id b.memory.id)

unfoldable pub insert_match : Match → List Match → List Match
unfolding comes_before
insert_match m [] = m ∷ []
insert_match m (n ∷ ns) =
    let rest = insert_match m ns in if comes_before m n then m ∷ n ∷ ns else n ∷ rest

unfoldable pub sort_matches : List Match → List Match
unfolding insert_match
sort_matches [] = []
sort_matches (m ∷ ms) = insert_match m (sort_matches ms)

abbrev pub related_of : Match → RelatedMemory
related_of m = record { memory = m.memory; reason = m.reason }

unfoldable pub matches : Unicode → MemoryContent → List DatasourceMemory → Option ℕ → List Match
unfolding match_of is_related
matches u content memories exclude_id = rows_where is_related (
    map (match_of u content)
      (rows_where (λ m. is_active m.status && not (is_some_eq exclude_id m.id)) memories))

unfoldable pub related_memories :
    Unicode → MemoryContent → List DatasourceMemory → Option ℕ → List RelatedMemory
unfolding matches sort_matches
related_memories u content memories exclude_id =
    map related_of (take 5 (sort_matches (matches u content memories exclude_id)))
