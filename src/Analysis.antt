-- ===== src/Analysis.antt =====
-- apps/worker/src/analysis/analysis-state.ts and tool-arguments.ts: the state of an analysis and the tool
-- call that changes it. The call's arguments are JSON, so no entry of theirs is undefined. Dates, the
-- rendering of conditions as stable JSON, `String(...)` of what is no text, the access to fields and the
-- check of evidence are parameters.
pub mod Patching
pub mod Patched
pub mod Accepted
use gist_agent.Base.{
  ℕ, suc, ◌+◌, String, Option, none, some, Bool, true, false, not, ◌&&◌, ◌||◌, List, [], ◌∷◌, ◌++◌,
  map, length, ◌==◌, ltb, leb, str_eq, if◌then◌else◌, is_some, any, all, first_where, Result, ok,
  err, ◌>>=◌,
}
use gist_agent.Base.Text.{trim, units}
use gist_agent.Memory.{DatasourceMemory, is_active}
use gist_agent.Sql.{Node, Nodes, Entries, entry_at, is_text, has, to_text}

pub record MemoryRef : Type 0 where
  pub id : ℕ
  pub version : ℕ

pub record Note : Type 0 where
  pub name : String
  pub description : String
  pub source_message_id : ℕ

pub record Range : Type 0 where
  pub start : String
  pub end_exclusive : String
  pub timezone : String

pub record Filter : Type 0 where
  pub field : String
  pub operator : Node
  pub value : Node

pub record Hypothesis : Type 0 where
  pub id : String
  pub statement : String
  pub status : Node
  pub evidence_ids : List String

pub data StateStatus : Type 0 where
  active complete partial awaiting_clarification unable_to_complete : StateStatus

-- What the signature of the conditions is made of.
pub record Conditions : Type 0 where
  pub task_id : ℕ
  pub datasource_id : ℕ
  pub memory_refs : List MemoryRef
  pub temporary_notes : List Note
  pub time_range : Option Range
  pub comparison_range : Option Range
  pub filters : List Filter
  pub grain : Option String

-- `AnalysisState`.
pub record AnalysisState : Type 0 where
  pub conditions : Conditions
  pub conversation_id : ℕ
  pub revision : ℕ
  pub question : String
  pub status : StateStatus
  pub freshness : Node
  pub hypotheses : List Hypothesis
  pub open_questions : List String

pub data PatchFault : Type 0 where
  no_object unexpected_key revision_conflict bad_text bad_list bad_mode bad_range unknown_memory :
      PatchFault
  duplicate_memory bad_freshness field_not_allowed bad_operator bad_value bad_status
        missing_evidence :
      PatchFault
  evidence_rejected duplicate_hypothesis : PatchFault

-- `newAnalysisState`; the task's identifier is drawn.
abbrev pub new_conditions : ℕ → ℕ → Conditions
new_conditions task_id datasource_id = record {
  task_id = task_id;
  datasource_id = datasource_id;
  memory_refs = [];
  temporary_notes = [];
  time_range = none;
  comparison_range = none;
  filters = [];
  grain = none;
}

unfoldable pub new_analysis_state :
    (task_id conversation_id datasource_id : ℕ) → String → ℕ → AnalysisState
new_analysis_state task_id conversation_id datasource_id question revision = record {
  conditions = new_conditions task_id datasource_id;
  conversation_id = conversation_id;
  revision = revision;
  question = question;
  status = active;
  freshness = Node.text "reuse_allowed";
  hypotheses = [];
  open_questions = [];
}

-- `[...state.memoryRefs].sort(...)`.
unfoldable pub insert_ref : MemoryRef → List MemoryRef → List MemoryRef
insert_ref r [] = r ∷ []
insert_ref r (x ∷ xs) = let rest = insert_ref r xs in if leb r.id x.id then r ∷ x ∷ xs else x ∷ rest

unfoldable pub sort_refs : List MemoryRef → List MemoryRef
unfolding insert_ref
sort_refs [] = []
sort_refs (r ∷ rs) = insert_ref r (sort_refs rs)

abbrev pub with_refs : List MemoryRef → Conditions → Conditions
with_refs refs c = record c { memory_refs = refs }

-- `conditionSignature`.
unfoldable pub condition_signature : (Conditions → String) → AnalysisState → String
unfolding sort_refs
condition_signature stringify s =
    stringify (with_refs (sort_refs (s.conditions).memory_refs) s.conditions)

-- `record` of tool-arguments.ts.
abbrev pub entries_of : Node → Result PatchFault Entries
entries_of (Node.object es) = ok es
entries_of _ = err no_object

unfoldable pub has_unexpected_key : Entries → List String → Bool
has_unexpected_key Entries.no_entry allowed = false
has_unexpected_key (Entries.entry k v es) allowed =
    not (has k allowed) || has_unexpected_key es allowed

-- `exactKeys`.
unfoldable pub exact_keys : Entries → List String → Result PatchFault (Unit {0})
unfolding has_unexpected_key
exact_keys es allowed = if has_unexpected_key es allowed then err unexpected_key else ok tt

-- `record`, and `exactKeys` of what it returns.
abbrev pub object_with : List String → Node → Result PatchFault Entries
object_with allowed v = entries_of v >>= λ es. exact_keys es allowed >>= λ _. ok es

-- An argument that may be left out, where null is a value.
unfoldable pub optional_at : String → Entries → Option Node
optional_at key Entries.no_entry = none
optional_at key (Entries.entry k v es) = elim (str_eq k key) [
  | true ↦ some v
  | false ↦ optional_at key es
]

-- `text`.
unfoldable pub state_text : Node → Result PatchFault String
unfolding trim units
state_text (Node.text s) =
    if str_eq (trim s) "" || ltb 4000 (units s) then err bad_text else ok (trim s)
state_text _ = err bad_text

unfoldable pub count_nodes : Nodes → ℕ
count_nodes Nodes.no_more = 0
count_nodes (Nodes.more v vs) = suc (count_nodes vs)

-- `list`.
unfoldable pub list_of : Node → Result PatchFault Nodes
unfolding count_nodes
list_of (Node.array vs) = if ltb 30 (count_nodes vs) then err bad_list else ok vs
list_of _ = err bad_list

-- `.map(...)`, of a function that may throw.
unfoldable pub map_nodes :
    {A : Type 0} → (Node → Result PatchFault A) → Nodes → Result PatchFault (List A)
map_nodes f Nodes.no_more = ok []
map_nodes f (Nodes.more v vs) = f v >>= λ a. map_nodes f vs >>= λ rest. ok (a ∷ rest)

-- The dates of ECMAScript: the form with a time zone, `Date.parse` where it is finite, the names of time
-- zones, and `toISOString`.
pub record Calendar : Type 0 where
  pub has_zone : String → Bool
  pub parse : String → Option ℕ
  pub is_timezone : String → Bool
  pub to_iso : String → String

abbrev pub is_earlier : Option ℕ → Option ℕ → Bool
is_earlier (some a) (some b) = ltb a b
is_earlier _ _ = false

unfoldable pub range_with : Calendar → String → String → String → Result PatchFault (Option Range)
range_with c start end_exclusive timezone =
    if not (
      c.has_zone start
      && c.has_zone end_exclusive
      && is_earlier (c.parse start) (c.parse end_exclusive))
    then err bad_range
    else if not (c.is_timezone timezone)
    then err bad_range
    else ok (
        some (record {
          start = c.to_iso start;
          end_exclusive = c.to_iso end_exclusive;
          timezone = timezone;
        }))

abbrev pub range_at : Calendar → Entries → Result PatchFault (Option Range)
range_at c es = state_text (entry_at "start" es) >>= λ start.
    state_text (entry_at "endExclusive" es) >>= λ end_exclusive.
    state_text (entry_at "timezone" es) >>= λ timezone. range_with c start end_exclusive timezone

-- `range`.
unfoldable pub range_of : Calendar → Node → Result PatchFault (Option Range)
unfolding entry_at exact_keys state_text range_with
range_of c Node.absent = ok none
range_of c v = object_with ("start" ∷ "endExclusive" ∷ "timezone" ∷ []) v >>= range_at c

-- `new Set(ids).size !== ids.length`.
abbrev pub has_twice : {A : Type 0} → (A → A → Bool) → List A → Bool
has_twice same [] = false
has_twice same (x ∷ xs) = any (same x) xs || has_twice same xs

abbrev pub is_number : ℕ → Node → Bool
is_number n (Node.number m) = m == n
is_number n _ = false
