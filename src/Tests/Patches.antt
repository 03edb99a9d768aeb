-- ===== src/Tests/Patches.antt =====
-- A patch of an analysis state that sets the grain and refers to a memory.
use gist_agent.Base.{none, some, true, [], ◌∷◌, str_eq, ok, ◌≡◌, refl}
use gist_agent.Base.Text.{trim, trim_start, trim_end, is_space, units}
use gist_agent.Sql.{Node, Nodes, Entries, entry_at}
use gist_agent.Analysis.{
  AnalysisState, new_analysis_state, new_conditions, exact_keys, has_unexpected_key, optional_at,
  state_text, list_of, count_nodes, map_nodes, condition_signature, sort_refs, insert_ref,
  is_number,
}
use gist_agent.Analysis.Patching.{
  Deps, patch_analysis_state, patch_state, patch_fields, patch_conditions, refs_of, memory_ref,
  unique_refs, grain_of, start_of, check_filters, clear_hypotheses,
}
use gist_agent.Analysis.Accepted.{IsPatched, patch_analysis_state-IsPatched}
use gist_agent.Tests.Memories.{described_memory}

abbrev deps : Deps
deps = record {
  memories = described_memory ∷ [];
  source_message_id = 11;
  field_allowed = λ f. str_eq f "orders.amount";
  validate_evidence = λ id s. ok tt;
  calendar = record {
    has_zone = λ s. true;
    parse = λ s. none;
    is_timezone = λ s. true;
    to_iso = λ s. s;
  };
  show = λ v. "";
  stringify = λ c. elim c.grain [ none ↦ "" | some g ↦ g ];
}

abbrev current : AnalysisState
unfolding new_analysis_state
current = new_analysis_state 1 7 3 "GMV?" 4

abbrev patch : Entries
patch = Entries.entry "grain" (Node.text "day") (
    Entries.entry "memoryRefs"
      (Node.array (
        Nodes.more
          (Node.object (
            Entries.entry "id" (Node.number 9)
              (Entries.entry "version" (Node.number 2) Entries.no_entry)))
          Nodes.no_more))
      Entries.no_entry)

abbrev arguments : Entries
arguments = Entries.entry "expectedRevision" (Node.number 4) (
    Entries.entry "reason" (Node.text "by day")
      (Entries.entry "patch" (Node.object patch) Entries.no_entry))

unfoldable patched_state : AnalysisState
unfolding new_analysis_state
patched_state = record current {
  conditions = record (new_conditions 1 3) {
    memory_refs = record { id = 9; version = 2 } ∷ [];
    grain = some "day";
  };
  revision = 5;
}

patches : patch_analysis_state deps 2 current arguments ≡ ok patched_state
unfolding patched_state new_analysis_state patch_analysis_state patch_state patch_fields
    patch_conditions refs_of memory_ref unique_refs grain_of start_of check_filters clear_hypotheses
    entry_at exact_keys has_unexpected_key optional_at state_text list_of count_nodes map_nodes
    condition_signature sort_refs insert_ref trim trim_start trim_end is_space units
patches = refl

patch_analysis_state-IsPatched_example :
    (is_number 4 (entry_at "expectedRevision" arguments) ≡ true)
    × (p : Entries) × (entry_at "patch" arguments ≡ Node.object p)
    × IsPatched deps current p patched_state
unfolding new_analysis_state
patch_analysis_state-IsPatched_example =
    patch_analysis_state-IsPatched deps 2 current arguments patched_state patches
