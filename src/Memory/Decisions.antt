-- ===== src/Memory/Decisions.antt =====
-- packages/database/src/memory-repository.ts: the candidates that are shown to the user, and what the
-- user decides about each.
use gist_agent.Base.{
  ℕ, ◌+◌, Option, none, some, Bool, true, false, not, ◌&&◌, ◌||◌, List, [], ◌∷◌, ◌==◌,
  if◌then◌else◌, is_some_eq, is_none, or_else, first_where, rows_where, update_where, Result, ok,
  err, ◌>>=◌,
}
use gist_agent.Contracts.{is_completed}
use gist_agent.Sql.{Node}
use gist_agent.Memory.{
  MemoryContent, Candidate, CandidateStatus, Store, MemoryFault, bad_request, not_found, conflict,
  pending, accepted, rejected, positive_integer, validate_memory, validate_stored, authorize,
  transaction,
}
use gist_agent.Memory.Policy.{Unicode}
use gist_agent.Memory.Writing.{Draw, Saving, save}
use gist_agent.Memory.Candidates.{check_arguments, with_candidates}

-- Candidates are shown, and decided, where their generation has completed.
unfoldable pub is_visible : Store → Candidate → Bool
is_visible s c = elim (first_where (λ g. g.id == c.generation_id) s.generations) [
  | none ↦ false
  | some g ↦ is_completed g.status
]

unfoldable pub is_visible_in : Store → Option ℕ → Candidate → Bool
is_visible_in s conversation_id c =
    elim (first_where (λ g. g.id == c.generation_id) s.generations) [
      | none ↦ false
      | some g ↦
          is_completed g.status
          && (is_none conversation_id || is_some_eq conversation_id g.conversation_id)
    ]

abbrev pub is_pending : CandidateStatus → Bool
is_pending pending = true
is_pending _ = false

abbrev pub same_status : CandidateStatus → CandidateStatus → Bool
same_status pending pending = true
same_status accepted accepted = true
same_status rejected rejected = true
same_status _ _ = false

-- What `candidates` returns of the rows: their contents are checked again.
unfoldable pub shown_candidates : List Candidate → Result MemoryFault (List Candidate)
unfolding validate_stored
shown_candidates [] = ok []
shown_candidates (c ∷ cs) = validate_stored c.content >>= λ content.
    shown_candidates cs >>= λ rest. ok (record c { content = content } ∷ rest)

-- `candidates`, in the order of insertion.
unfoldable pub candidates : ℕ → ℕ → Option ℕ → Store → Result MemoryFault (List Candidate)
unfolding positive_integer authorize is_visible_in shown_candidates
candidates user ds conversation_id s = positive_integer ds >>= λ _. transaction (
    authorize s ds user true >>= λ _. shown_candidates (
      rows_where
        (λ c.
          c.datasource_id == ds
          && c.user_id == user
          && is_pending c.status
          && is_visible_in s conversation_id c)
        s.candidates))

-- What the user changes in a candidate on accepting it.
pub record Edit : Type 0 where
  pub content : Node
  pub memory_id : Option ℕ
  pub expected_memory_version : Option ℕ

pub record Decision : Type 0 where
  pub status : CandidateStatus
  pub memory_id : Option ℕ
  pub version : Option ℕ

abbrev pub verdict : Bool → CandidateStatus
verdict accept = if accept then accepted else rejected

abbrev pub edited_content : Option Edit → Result MemoryFault (Option MemoryContent)
edited_content none = ok none
edited_content (some e) = validate_memory e.content >>= λ c. ok (some c)

abbrev pub check_edit : Bool → Option Edit → Result MemoryFault (Unit {0})
check_edit accept none = ok tt
check_edit true (some e) = check_arguments e.memory_id e.expected_memory_version
check_edit false (some e) = err bad_request

abbrev pub edited_id : Option Edit → Option ℕ
edited_id none = none
edited_id (some e) = e.memory_id

abbrev pub edited_version : Option Edit → Option ℕ
edited_version none = none
edited_version (some e) = e.expected_memory_version

abbrev pub content_to_save : Option MemoryContent → Candidate → Result MemoryFault MemoryContent
content_to_save (some edited) c = ok edited
content_to_save none c = validate_stored c.content

abbrev pub saving_of : MemoryContent → Option Edit → Candidate → Saving
saving_of content edit c = record {
  content = content;
  id = or_else (edited_id edit) c.memory_id;
  expected = or_else (edited_version edit) c.expected_version;
  source_message_id = some c.source_message_id;
  is_deleted = false;
}

pub record Saved : Type 0 where
  pub memory_id : Option ℕ
  pub version : Option ℕ
  pub store : Store

unfoldable pub save_candidate :
    Unicode
    → Draw
    → ℕ
    → Bool
    → Option MemoryContent
    → Option Edit
    → Candidate
    → Store
    → Result MemoryFault Saved
unfolding save validate_stored
save_candidate u draw user false edited edit c s =
    ok (record { memory_id = none; version = none; store = s })
save_candidate u draw user true edited edit c s = content_to_save edited c >>= λ content.
    save u draw user c.datasource_id (saving_of content edit c) s >>= λ saved.
    ok (record { memory_id = some (saved.0).id; version = some (saved.0).version; store = saved.1 })

abbrev pub decided : CandidateStatus → Saved → Candidate → Candidate
decided status saved c = record {
  id = c.id;
  datasource_id = c.datasource_id;
  user_id = c.user_id;
  generation_id = c.generation_id;
  source_message_id = c.source_message_id;
  memory_id = c.memory_id;
  expected_version = c.expected_version;
  content = c.content;
  version = c.version + 1;
  status = status;
  result_memory_id = saved.memory_id;
  result_version = saved.version;
}

-- The candidate was decided this way before, at this version.
abbrev pub is_repeated : Bool → ℕ → Candidate → Bool
is_repeated accept expected c = same_status c.status (verdict accept) && c.version == expected + 1

unfoldable pub decide_on :
    Unicode
    → Draw
    → ℕ
    → ℕ
    → Bool
    → Option MemoryContent
    → Option Edit
    → Option Candidate
    → Store
    → Result MemoryFault (Decision × Store)
unfolding authorize save_candidate
decide_on u draw user expected accept edited edit none s = err not_found
decide_on u draw user expected accept edited edit (some c) s =
    authorize s c.datasource_id user true >>= λ _.
    if is_repeated accept expected c
    then ok (
      record { status = c.status; memory_id = c.result_memory_id; version = c.result_version },
      s,
    )
    else if not (is_pending c.status) || not (c.version == expected)
    then err conflict
    else save_candidate u draw user accept edited edit c s >>= λ saved.
        let t = saved.store in
        ok (
          record { status = verdict accept; memory_id = saved.memory_id; version = saved.version },
          with_candidates
              (update_where (λ x. x.id == c.id) (decided (verdict accept) saved) t.candidates) t,
        )

abbrev pub is_decidable : Store → ℕ → ℕ → Candidate → Bool
is_decidable s user id c = c.id == id && c.user_id == user && is_visible s c

-- `decide`.
unfoldable pub decide :
    Unicode → Draw → ℕ → ℕ → ℕ → Bool → Option Edit → Store → Result MemoryFault (Decision × Store)
unfolding positive_integer validate_memory is_visible decide_on
decide u draw user id expected accept edit s = positive_integer expected >>= λ _.
    edited_content edit >>= λ edited. check_edit accept edit >>= λ _. transaction (
      decide_on u draw user expected accept edited edit
        (first_where (is_decidable s user id) s.candidates) s)
