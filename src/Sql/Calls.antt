-- ===== src/Sql/Calls.antt =====
-- Which functions a query that passes can call.
use gist_agent.Base.{String, List, [], ◌∷◌, ◌≡◌}
use gist_agent.Sql.{Node, text, get, array, object, Nodes, no_more, more, Entries, entry_at}
use gist_agent.Sql.Reads.{Item, Entry}

-- The nodes of a tree.
pub data Inside (n : Node) : Node → Type 0 where
  itself : Inside n n
  in_item : {x : Node} {xs : Nodes} → Item x xs → Inside n x → Inside n (array xs)
  in_entry :
      {k : String} {v : Node} {es : Entries} → Entry k v es → Inside n v → Inside n (object es)

-- The last part of a name.
pub data IsLast (x : Node) : Nodes → Type 0 where
  last : IsLast x (more x no_more)
  behind : {y : Node} {xs : Nodes} → IsLast x xs → IsLast x (more y xs)

-- How the parser writes the name of a function: a text, or an object whose `name` has the parts of a
-- qualified name.
pub data Names (n : Node) (s : String) : Type 0 where
  plain : n ≡ text s → Names n s
  qualified :
      {parts : Nodes} {part : Node}
      → get "name" n ≡ array parts
      → IsLast part parts
      → get "value" part ≡ text s
      → Names n s

-- What a call is for the parser.
pub data Kind : String → Type 0 where
  function : Kind "function"
  aggregate : Kind "aggr_func"

-- An object of the tree that calls the function `s`.
pub data Calls (es : Entries) (s : String) : Type 0 where
  called :
      {kind : String}
      → entry_at "type" es ≡ text kind
      → Kind kind
      → Names (entry_at "name" es) s
      → Calls es s

-- The functions that no query may call.
abbrev pub dangerous : List String
dangerous =
    "pg_read_file" ∷ "pg_read_binary_file" ∷ "pg_ls_dir" ∷ "pg_stat_file" ∷ "dblink" ∷ "dblink_exec"
    ∷ "lo_import" ∷ "lo_export" ∷ "copy" ∷ "set_config" ∷ "current_setting" ∷ "pg_terminate_backend"
    ∷ "pg_cancel_backend" ∷ "pg_advisory_lock" ∷ "pg_advisory_xact_lock" ∷ []
