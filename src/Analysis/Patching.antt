-- ===== src/Analysis/Patching.antt =====
-- apps/worker/src/analysis/analysis-state.ts: patchAnalysisState.
use gist_agent.Base.{
  ℕ, ◌+◌, String, Option, none, some, Bool, true, false, not, ◌&&◌, List, [], ◌∷◌, ◌++◌, ◌==◌, ltb,
  str_eq, if◌then◌else◌, is_empty, get_or_else, all, first_where, Result, ok, err, ◌>>=◌,
}
use gist_agent.Base.Text.{units}
use gist_agent.Memory.{DatasourceMemory, is_active}
use gist_agent.Sql.{Node, Nodes, Entries, entry_at, is_text, has, to_text}
use gist_agent.Analysis.{
  AnalysisState, Conditions, MemoryRef, Note, Filter, Hypothesis, Calendar, PatchFault,
  revision_conflict, bad_mode, unknown_memory, duplicate_memory, bad_freshness, field_not_allowed,
  bad_operator, bad_value, bad_status, missing_evidence, duplicate_hypothesis, active,
  new_analysis_state, condition_signature, object_with, exact_keys, optional_at, state_text,
  list_of, count_nodes, map_nodes, range_of, has_twice, is_number,
}

-- `deps`, and what JavaScript does with values.
pub record Deps : Type 0 where
  pub memories : List DatasourceMemory
  pub source_message_id : ℕ
  pub field_allowed : String → Bool
  pub validate_evidence : String → AnalysisState → Result PatchFault (Unit {0})
  pub calendar : Calendar
  pub show : Node → String
  pub stringify : Conditions → String

abbrev pub is_memory : Node → Node → DatasourceMemory → Bool
is_memory id version d = is_number d.id id && is_number d.version version && is_active d.status

abbrev pub ref_of : Option DatasourceMemory → Result PatchFault MemoryRef
ref_of none = err unknown_memory
ref_of (some d) = ok (record { id = d.id; version = d.version })

abbrev pub same_ref : MemoryRef → MemoryRef → Bool
same_ref a b = a.id == b.id

abbrev pub same_hypothesis : Hypothesis → Hypothesis → Bool
same_hypothesis a b = str_eq a.id b.id

-- What a patch leaves out stays as it is.
abbrev pub optionally :
    {A : Type 0} → Option Node → A → (Node → Result PatchFault A) → Result PatchFault A
optionally none a f = ok a
optionally (some v) a f = f v

module _ (deps : Deps) where
  unfoldable pub memory_ref : Node → Result PatchFault MemoryRef
  unfolding entry_at exact_keys
  memory_ref v = object_with ("id" ∷ "version" ∷ []) v >>= λ r.
      ref_of (first_where (is_memory (entry_at "id" r) (entry_at "version" r)) deps.memories)

  unfoldable pub unique_refs : List MemoryRef → Result PatchFault (List MemoryRef)
  unique_refs refs = if has_twice same_ref refs then err duplicate_memory else ok refs

  unfoldable pub refs_of : Node → Result PatchFault (List MemoryRef)
  unfolding list_of map_nodes memory_ref unique_refs
  refs_of v = list_of v >>= λ vs. map_nodes memory_ref vs >>= unique_refs

  unfoldable pub note : Node → Result PatchFault Note
  unfolding entry_at exact_keys state_text
  note v = object_with ("name" ∷ "description" ∷ []) v >>= λ d.
      state_text (entry_at "name" d) >>= λ name.
      state_text (entry_at "description" d) >>= λ description. ok (record {
        name = name;
        description = description;
        source_message_id = deps.source_message_id;
      })

  unfoldable pub notes : Node → Result PatchFault (List Note)
  unfolding list_of map_nodes note
  notes v = list_of v >>= map_nodes note

  unfoldable pub grain_of : Node → Result PatchFault (Option String)
  unfolding state_text
  grain_of Node.absent = ok none
  grain_of v = state_text v >>= λ s. ok (some s)

  unfoldable pub freshness_of : Node → Result PatchFault Node
  freshness_of v =
      if has (to_text deps.show v) ("reuse_allowed" ∷ "current_generation" ∷ [])
      then ok v
      else err bad_freshness

  -- Numbers are finite here.
  unfoldable pub is_scalar : Node → Bool
  unfolding units
  is_scalar (Node.text s) = not (ltb 1000 (units s))
  is_scalar (Node.flag b) = true
  is_scalar (Node.number n) = true
  is_scalar _ = false

  unfoldable pub all_scalars : Nodes → Bool
  unfolding is_scalar
  all_scalars Nodes.no_more = true
  all_scalars (Nodes.more v vs) = is_scalar v && all_scalars vs

  unfoldable pub is_list_value : Node → Bool
  unfolding count_nodes all_scalars
  is_list_value (Node.array vs) =
      not (count_nodes vs == 0) && not (ltb 100 (count_nodes vs)) && all_scalars vs
  is_list_value _ = false

  unfoldable pub is_single_value : Node → Bool
  unfolding is_scalar
  is_single_value Node.absent = true
  is_single_value v = is_scalar v

  abbrev pub operators : List String
  operators = "eq" ∷ "neq" ∷ "gt" ∷ "gte" ∷ "lt" ∷ "lte" ∷ "in" ∷ []

  -- A value that is left out is undefined, and neither.
  abbrev pub meets : (Node → Bool) → Option Node → Bool
  meets p none = false
  meets p (some v) = p v

  unfoldable pub filter_with : String → Node → Option Node → Result PatchFault Filter
  unfolding is_list_value is_single_value
  filter_with field operator value =
      if not (deps.field_allowed field)
      then err field_not_allowed
      else if not (has (to_text deps.show operator) operators)
      then err bad_operator
      else if not (meets (if is_text "in" operator then is_list_value else is_single_value) value)
      then err bad_value
      else ok (record { field = field; operator = operator; value = get_or_else value Node.absent })

  unfoldable pub filter_of : Node → Result PatchFault Filter
  unfolding entry_at exact_keys optional_at state_text filter_with
  filter_of v = object_with ("field" ∷ "operator" ∷ "value" ∷ []) v >>= λ f.
      state_text (entry_at "field" f) >>= λ field.
      filter_with field (entry_at "operator" f) (optional_at "value" f)

  unfoldable pub filters_of : Node → Result PatchFault (List Filter)
  unfolding list_of map_nodes filter_of
  filters_of v = list_of v >>= map_nodes filter_of

  -- `for (const id of evidenceIds) await deps.validateEvidence(id, state)`.
  unfoldable pub validate_all : List String → AnalysisState → Result PatchFault (Unit {0})
  validate_all [] s = ok tt
  validate_all (id ∷ ids) s = deps.validate_evidence id s >>= λ _. validate_all ids s

  unfoldable pub hypothesis_with :
      AnalysisState → Entries → List String → Result PatchFault Hypothesis
  unfolding entry_at state_text validate_all
  hypothesis_with s h evidence_ids =
      if has (to_text deps.show (entry_at "status" h)) ("supported" ∷ "refuted" ∷ [])
        && is_empty evidence_ids
      then err missing_evidence
      else validate_all evidence_ids s >>= λ _. state_text (entry_at "id" h) >>= λ id.
          state_text (entry_at "statement" h) >>= λ statement. ok (record {
            id = id;
            statement = statement;
            status = entry_at "status" h;
            evidence_ids = evidence_ids;
          })

  -- One round of the loop over the hypotheses; the state holds those before it.
  unfoldable pub hypothesis : AnalysisState → Node → Result PatchFault Hypothesis
  unfolding entry_at exact_keys list_of map_nodes state_text hypothesis_with
  hypothesis s v = object_with ("id" ∷ "statement" ∷ "status" ∷ "evidenceIds" ∷ []) v >>= λ h.
      if not (
        has (to_text deps.show (entry_at "status" h))
          ("open" ∷ "supported" ∷ "refuted" ∷ "unresolved" ∷ []))
      then err bad_status
      else list_of (entry_at "evidenceIds" h) >>= λ ids.
          map_nodes state_text ids >>= hypothesis_with s h

  abbrev pub with_hypotheses : List Hypothesis → AnalysisState → AnalysisState
  with_hypotheses hs s = record s { hypotheses = hs }

  unfoldable pub add_hypotheses : AnalysisState → Nodes → Result PatchFault AnalysisState
  unfolding hypothesis
  add_hypotheses s Nodes.no_more = ok s
  add_hypotheses s (Nodes.more v vs) =
      hypothesis s v >>= λ h. add_hypotheses (with_hypotheses (s.hypotheses ++ h ∷ []) s) vs

  unfoldable pub unique_hypotheses : AnalysisState → Result PatchFault AnalysisState
  unique_hypotheses s =
      if has_twice same_hypothesis s.hypotheses then err duplicate_hypothesis else ok s

  unfoldable pub hypotheses_of : AnalysisState → Node → Result PatchFault AnalysisState
  unfolding list_of add_hypotheses unique_hypotheses
  hypotheses_of s v =
      list_of v >>= λ vs. add_hypotheses (with_hypotheses [] s) vs >>= unique_hypotheses

  -- The conditions after the patch, but for the filters.
  unfoldable pub patch_conditions : Entries → Conditions → Result PatchFault Conditions
  unfolding optional_at refs_of notes range_of grain_of
  patch_conditions p c = optionally (optional_at "memoryRefs" p) c.memory_refs refs_of >>= λ refs.
      optionally (optional_at "temporaryNotes" p) c.temporary_notes notes >>= λ temporary_notes.
      optionally (optional_at "timeRange" p) c.time_range (range_of deps.calendar) >>= λ time_range.
      optionally (optional_at "comparisonRange" p) c.comparison_range (range_of deps.calendar)
      >>= λ comparison_range. optionally (optional_at "grain" p) c.grain grain_of >>= λ grain.
          ok (record {
            task_id = c.task_id;
            datasource_id = c.datasource_id;
            memory_refs = refs;
            temporary_notes = temporary_notes;
            time_range = time_range;
            comparison_range = comparison_range;
            filters = c.filters;
            grain = grain;
          })

  abbrev pub with_conditions :
      String → Conditions → Node → List Filter → AnalysisState → AnalysisState
  with_conditions question c freshness filters s = record {
    conditions = record c { filters = filters };
    conversation_id = s.conversation_id;
    revision = s.revision;
    question = question;
    status = s.status;
    freshness = freshness;
    hypotheses = s.hypotheses;
    open_questions = s.open_questions;
  }

  unfoldable pub patch_fields : Entries → AnalysisState → Result PatchFault AnalysisState
  unfolding optional_at state_text patch_conditions freshness_of filters_of
  patch_fields p s = optionally (optional_at "question" p) s.question state_text >>= λ question.
      patch_conditions p s.conditions >>= λ c.
      optionally (optional_at "freshness" p) s.freshness freshness_of >>= λ freshness.
      optionally (optional_at "filters" p) (s.conditions).filters filters_of >>= λ filters.
      ok (with_conditions question c freshness filters s)

  -- Every filter's field must be allowed, those of before the patch too.
  abbrev pub is_allowed : Filter → Bool
  is_allowed f = deps.field_allowed f.field

  unfoldable pub check_filters : AnalysisState → Result PatchFault (Unit {0})
  check_filters s = if all is_allowed (s.conditions).filters then ok tt else err field_not_allowed

  -- Hypotheses do not outlive the conditions that they were made under.
  unfoldable pub clear_hypotheses : AnalysisState → AnalysisState → AnalysisState
  unfolding condition_signature
  clear_hypotheses current s =
      if not
        (str_eq (condition_signature deps.stringify s) (condition_signature deps.stringify current))
      then with_hypotheses [] s
      else s

  unfoldable pub questions_of : Node → Result PatchFault (List String)
  unfolding list_of map_nodes state_text
  questions_of v = list_of v >>= map_nodes state_text

  abbrev pub with_questions : List String → AnalysisState → AnalysisState
  with_questions qs s = record s { open_questions = qs }

  abbrev pub with_revision : ℕ → AnalysisState → AnalysisState
  with_revision n s = record s { revision = n; status = active }

  unfoldable pub patch_state :
      AnalysisState → Entries → AnalysisState → Result PatchFault AnalysisState
  unfolding optional_at patch_fields check_filters clear_hypotheses questions_of hypotheses_of
  patch_state current p start = patch_fields p start >>= λ s. check_filters s >>= λ _.
      optionally (optional_at "openQuestions" p) (clear_hypotheses current s).open_questions
        questions_of
      >>= λ qs.
          optionally (optional_at "hypotheses" p) (with_questions qs (clear_hypotheses current s))
            (hypotheses_of (with_questions qs (clear_hypotheses current s)))
          >>= λ done. ok (with_revision (current.revision + 1) done)

  -- `args.mode`.
  abbrev pub check_mode : Option Node → Result PatchFault (Unit {0})
  check_mode none = ok tt
  check_mode (some v) =
      if has (to_text deps.show v) ("patch" ∷ "start_new_task" ∷ []) then ok tt else err bad_mode

  unfoldable pub start_of : (task_id : ℕ) → AnalysisState → Node → AnalysisState
  unfolding new_analysis_state
  start_of task_id current mode =
      if is_text "start_new_task" mode
      then new_analysis_state task_id current.conversation_id (current.conditions).datasource_id
          current.question current.revision
      else current

  abbrev pub patch_keys : List String
  patch_keys =
      "question" ∷ "memoryRefs" ∷ "temporaryNotes" ∷ "timeRange" ∷ "comparisonRange" ∷ "filters"
      ∷ "grain" ∷ "freshness" ∷ "hypotheses" ∷ "openQuestions" ∷ []

  -- `patchAnalysisState`; the identifier of a new task is drawn.
  unfoldable pub patch_analysis_state :
      (task_id : ℕ) → AnalysisState → Entries → Result PatchFault AnalysisState
  unfolding entry_at exact_keys optional_at state_text patch_state start_of
  patch_analysis_state task_id current args =
      exact_keys args ("expectedRevision" ∷ "mode" ∷ "patch" ∷ "reason" ∷ []) >>= λ _.
      if not (is_number current.revision (entry_at "expectedRevision" args))
      then err revision_conflict
      else state_text (entry_at "reason" args) >>= λ _.
          check_mode (optional_at "mode" args) >>= λ _.
          object_with patch_keys (entry_at "patch" args) >>= λ p.
          patch_state current p (start_of task_id current (entry_at "mode" args))
