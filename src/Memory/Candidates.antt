-- ===== src/Memory/Candidates.antt =====
-- packages/database/src/memory-repository.ts: the candidates that a generation proposes.
use gist_agent.Base.{
  ℕ, Option, none, some, Bool, true, false, ◌&&◌, List, [], ◌∷◌, ◌++◌, ◌==◌, leb, str_eq,
  if◌then◌else◌, is_some_eq, or_else, any, first_where, count_where, Result, ok, err, ◌>>=◌,
}
use gist_agent.Contracts.{is_writable}
use gist_agent.Database.{Generation}
use gist_agent.Sql.{Node}
use gist_agent.Memory.{
  MemoryContent, MemoryRow, Candidate, DataSource, Store, MemoryFault, bad_request, not_found,
  conflict, unique_violation, pending, is_active, positive_integer, validate_memory, authorize,
  transaction,
}
use gist_agent.Memory.Writing.{Draw}

abbrev pub same_option : Option ℕ → Option ℕ → Bool
same_option none none = true
same_option (some a) (some b) = a == b
same_option _ _ = false

abbrev pub same_content : MemoryContent → MemoryContent → Bool
same_content c d = str_eq c.name d.name && str_eq c.description d.description

-- `COALESCE(datasource_id,(SELECT id FROM data_source WHERE is_local=1 ORDER BY id LIMIT 1))=?`.
abbrev pub smaller_id : DataSource → Option ℕ → Option ℕ
smaller_id d none = some d.id
smaller_id d (some id) = if leb d.id id then some d.id else some id

unfoldable pub local_source : List DataSource → Option ℕ
local_source [] = none
local_source (d ∷ ds) = let rest = local_source ds in if d.is_local then smaller_id d rest else rest

-- The generation that may propose: it runs for this user, data source and writer.
unfoldable pub is_proposing : Store → ℕ → ℕ → ℕ → ℕ → Generation → Bool
unfolding local_source
is_proposing s generation_id user ds writer_token g =
    g.id == generation_id
    && g.user_id == user
    && is_some_eq (or_else g.datasource_id (local_source s.sources)) ds
    && is_some_eq g.writer_token writer_token
    && is_writable g.status

-- The memory that a candidate would change, and the version that it was read at.
pub record Proposal : Type 0 where
  pub content : Node
  pub memory_id : Option ℕ
  pub expected_version : Option ℕ

abbrev pub check_arguments : Option ℕ → Option ℕ → Result MemoryFault (Unit {0})
check_arguments none none = ok tt
check_arguments none (some v) = err bad_request
check_arguments (some id) none = err bad_request
check_arguments (some id) (some v) = positive_integer v >>= λ _. ok tt

abbrev pub is_target : ℕ → ℕ → MemoryRow → Bool
is_target id ds m = m.id == id && m.datasource_id == ds && is_active m.status

abbrev pub is_version : Option ℕ → MemoryRow → Bool
is_version expected m = is_some_eq expected m.version

abbrev pub check_target : ℕ → Option ℕ → Option ℕ → List MemoryRow → Result MemoryFault (Unit {0})
check_target ds none expected ms = ok tt
check_target ds (some id) expected ms = elim (first_where (is_target id ds) ms) [
  | none ↦ err not_found
  | some m ↦ (if is_version expected m then ok tt else err conflict)
]

abbrev pub is_same : ℕ → MemoryContent → Option ℕ → Option ℕ → Candidate → Bool
is_same generation_id content memory_id expected c =
    c.generation_id == generation_id
    && same_content c.content content
    && same_option c.memory_id memory_id
    && same_option c.expected_version expected

abbrev pub with_candidates : List Candidate → Store → Store
with_candidates cs s = record {
  sources = s.sources;
  permissions = s.permissions;
  generations = s.generations;
  memories = s.memories;
  revisions = s.revisions;
  candidates = cs;
}

abbrev pub of_generation : ℕ → Candidate → Bool
of_generation id c = c.generation_id == id

-- A candidate that the generation has not made yet, where it has not made ten.
unfoldable pub add_candidate : Candidate → Store → Result MemoryFault (ℕ × Store)
add_candidate c s =
    if leb 10 (count_where (of_generation c.generation_id) s.candidates)
    then err conflict
    else if any (λ x. x.id == c.id) s.candidates
    then err unique_violation
    else ok (c.id, with_candidates (s.candidates ++ c ∷ []) s)

unfoldable pub keep_or_add : Option Candidate → Candidate → Store → Result MemoryFault (ℕ × Store)
unfolding add_candidate
keep_or_add (some c) new s = ok (c.id, s)
keep_or_add none new s = add_candidate new s

abbrev pub new_candidate : Draw → ℕ → ℕ → Generation → MemoryContent → Proposal → Candidate
new_candidate draw user ds g content p = record {
  id = draw.id;
  datasource_id = ds;
  user_id = user;
  generation_id = g.id;
  source_message_id = g.request_message_id;
  memory_id = p.memory_id;
  expected_version = p.expected_version;
  content = content;
  version = 1;
  status = pending;
  result_memory_id = none;
  result_version = none;
}

unfoldable pub propose_for :
    Draw
    → ℕ
    → ℕ
    → Option Generation
    → MemoryContent
    → Proposal
    → Store
    → Result MemoryFault (ℕ × Store)
unfolding authorize keep_or_add
propose_for draw user ds none content p s = err conflict
propose_for draw user ds (some g) content p s = authorize s ds user true >>= λ _.
    check_target ds p.memory_id p.expected_version s.memories >>= λ _.
    keep_or_add (first_where (is_same g.id content p.memory_id p.expected_version) s.candidates)
      (new_candidate draw user ds g content p) s

-- `propose`; the answer is the candidate's identifier.
unfoldable pub propose : Draw → ℕ → ℕ → ℕ → ℕ → Proposal → Store → Result MemoryFault (ℕ × Store)
unfolding positive_integer validate_memory is_proposing propose_for
propose draw user ds generation_id writer_token p s = validate_memory p.content >>= λ content.
    check_arguments p.memory_id p.expected_version >>= λ _. transaction (
      propose_for draw user ds
        (first_where (is_proposing s generation_id user ds writer_token) s.generations) content p s)
