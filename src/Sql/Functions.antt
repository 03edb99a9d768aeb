-- ===== src/Sql/Functions.antt =====
-- `rejectForbiddenFunctions` of apps/worker/src/chat/tools/sql-executor.ts.
use gist_agent.Base.{String, Bool, ◌&&◌, ◌||◌, List, [], ◌∷◌, if◌then◌else◌, Result, ok, err, ◌>>=◌}
use gist_agent.Sql.{
  Node, absent, text, array, object, Nodes, no_more, more, Entries, no_entry, entry, entry_at, get,
  truthy, is_text, has, to_text, SqlFault, no_object, forbidden_function,
}

abbrev pub forbidden_functions : List String
forbidden_functions =
    "pg_read_file" ∷ "pg_read_binary_file" ∷ "pg_ls_dir" ∷ "pg_stat_file" ∷ "dblink" ∷ "dblink_exec"
    ∷ "lo_import" ∷ "lo_export" ∷ "copy" ∷ "set_config" ∷ "current_setting" ∷ "pg_terminate_backend"
    ∷ "pg_cancel_backend" ∷ "pg_advisory_lock" ∷ "pg_advisory_xact_lock" ∷ []

-- `value.type === 'function' || value.type === 'aggr_func'`.
unfoldable pub is_call : Entries → Bool
unfolding entry_at
is_call es = is_text "function" (entry_at "type" es) || is_text "aggr_func" (entry_at "type" es)

unfoldable pub last_item : Nodes → Node
last_item no_more = absent
last_item (more x no_more) = x
last_item (more x (more y ys)) = last_item (more y ys)

-- `?.at(-1)?.value`; what is neither a text nor an array has no `at`.
unfoldable pub last_value : Node → Result SqlFault Node
unfolding get last_item
last_value absent = ok absent
last_value (array xs) = ok (get "value" (last_item xs))
last_value (text s) = ok absent
last_value _ = err no_object

-- The name of the function, from the entry `name`.
unfoldable pub name_of : Node → Result SqlFault Node
unfolding last_value get
name_of (text s) = ok (text s)
name_of n = last_value (get "name" n)

-- `String(value)` of what is not a text, and `toLowerCase`, are parameters.
module _ (show : Node → String) (lower : String → String) where
  unfoldable pub check_name : Node → Result SqlFault (Unit {0})
  check_name n =
      if truthy n && has (lower (to_text show n)) forbidden_functions
      then err forbidden_function
      else ok tt

  unfoldable pub check_call : Entries → Result SqlFault (Unit {0})
  unfolding is_call name_of check_name entry_at
  check_call es = if is_call es then name_of (entry_at "name" es) >>= (λ n. check_name n) else ok tt

  unfoldable mutual
    pub reject : Node → Result SqlFault (Unit {0})
    reject (array xs) = reject_items xs
    reject (object es) = check_call es >>= λ _. reject_entries es
    reject _ = ok tt

    pub reject_items : Nodes → Result SqlFault (Unit {0})
    reject_items no_more = ok tt
    reject_items (more x xs) = reject x >>= λ _. reject_items xs

    pub reject_entries : Entries → Result SqlFault (Unit {0})
    reject_entries no_entry = ok tt
    reject_entries (entry k v es) = reject v >>= λ _. reject_entries es
