-- ===== src/Sql.antt =====
-- apps/worker/src/chat/tools/sql-executor.ts: the check of a query's syntax tree before it runs. The
-- tree is a JavaScript value that the SQL parser, which is not modelled, has made: any value here.
pub mod Reads
pub mod Soundness
pub mod Functions
pub mod Calls
use gist_agent.Base.{
  ℕ, String, Option, Bool, true, false, not, ◌&&◌, ◌||◌, List, [], ◌∷◌, ◌++◌, ◌==◌, if◌then◌else◌,
  str_eq, any, Result, ok, err, ◌>>=◌,
}

mutual
  -- A JavaScript value; `absent` is null or undefined, and an object is its entries in order.
  pub data Node : Type 0 where
    absent : Node
    flag : Bool → Node
    number : ℕ → Node
    text : String → Node
    array : Nodes → Node
    object : Entries → Node

  pub data Nodes : Type 0 where
    no_more : Nodes
    more : Node → Nodes → Nodes

  pub data Entries : Type 0 where
    no_entry : Entries
    entry : (key : String) → Node → Entries → Entries

-- What `GenerationExecutionError` and the JavaScript runtime throw here.
pub data SqlFault : Type 0 where
  write_statement writes_or_locks other_schema unknown_source not_iterable no_object
        forbidden_function :
      SqlFault
  table_not_allowed : String → SqlFault

-- `value[key]`.
unfoldable pub entry_at : String → Entries → Node
entry_at key no_entry = absent
entry_at key (entry k v es) = elim (str_eq k key) [ true ↦ v | false ↦ entry_at key es ]

unfoldable pub get : String → Node → Node
unfolding entry_at
get key (object es) = entry_at key es
get key _ = absent

abbrev pub truthy : Node → Bool
truthy absent = false
truthy (flag b) = b
truthy (number n) = not (n == 0)
truthy (text s) = not (str_eq s "")
truthy (array xs) = true
truthy (object es) = true

-- `value === s`.
abbrev pub is_text : String → Node → Bool
is_text s (text t) = str_eq t s
is_text s _ = false

abbrev pub has : String → List String → Bool
has s = any (λ t. str_eq t s)

-- `value.type === 'select'`.
unfoldable pub is_select : Entries → Bool
unfolding entry_at
is_select es = is_text "select" (entry_at "type" es)

unfoldable pub is_write : Entries → Bool
unfolding entry_at
is_write es =
    let type = entry_at "type" es in
    is_text "insert" type || is_text "update" type || is_text "delete" type

unfoldable pub writes_or_locks_at : Entries → Bool
unfolding entry_at get
writes_or_locks_at es =
    let target = entry_at "into" es in
    truthy (get "expr" target) || truthy (get "type" target) || truthy (entry_at "locking_read" es)

-- `String(value)` of what is not a text is a parameter.
module _ (show : Node → String) where
  abbrev pub to_text : Node → String
  to_text (text s) = s
  to_text v = show v

  -- `String(cte.name?.value ?? '')`.
  unfoldable pub cte_name : Node → String
  unfolding get
  cte_name c = elim (get "value" (get "name" c)) [
    | absent ↦ ""
    | _ ↦ to_text (get "value" (get "name" c))
  ]

  -- `String(from.db || '')`.
  unfoldable pub schema_of : Node → String
  unfolding get
  schema_of f = if truthy (get "db" f) then to_text (get "db" f) else ""

  unfoldable pub table_of : Node → String
  unfolding get
  table_of f = to_text (get "table" f)

  -- `!schema && ctes.has(name)`.
  unfoldable pub is_cte : List String → Node → Bool
  unfolding schema_of table_of
  is_cte ctes f = str_eq (schema_of f) "" && has (table_of f) ctes

-- The tables that may be read are a parameter too.
module _ (show : Node → String) (allowed : List String) where
  -- One round of the loop over `value.from`.
  unfoldable pub check_source : List String → Node → Result SqlFault (Unit {0})
  unfolding get schema_of table_of is_cte
  check_source ctes absent = err no_object
  check_source ctes f =
      if truthy (get "table" f)
      then if not (str_eq (schema_of show f) "") && not (str_eq (schema_of show f) "public")
        then err other_schema
        else if not (is_cte show ctes f) && not (has (table_of show f) allowed)
        then err (table_not_allowed (table_of show f))
        else ok tt
      else if truthy (get "expr" f)
      then ok tt
      else err unknown_source

  unfoldable pub check_sources : List String → Nodes → Result SqlFault (Unit {0})
  unfolding check_source
  check_sources ctes no_more = ok tt
  check_sources ctes (more f fs) = check_source ctes f >>= λ _. check_sources ctes fs

  -- `for (const from of value.from ?? [])`; a text is iterated by its characters, which have no table.
  unfoldable pub check_from : List String → Node → Result SqlFault (Unit {0})
  unfolding check_sources
  check_from ctes absent = ok tt
  check_from ctes (array fs) = check_sources ctes fs
  check_from ctes (text s) = if str_eq s "" then ok tt else err unknown_source
  check_from ctes _ = err not_iterable

  unfoldable mutual
    -- `validateTableScopes`; the scope is `inherited`.
    pub check : List String → Node → Result SqlFault (Unit {0})
    check scope (array xs) = check_items scope xs
    check scope (object es) = elim (is_select es) [
      | true ↦ elim (writes_or_locks_at es) [
        | true ↦ err writes_or_locks
        | false ↦ check_with scope es >>= λ ctes.
            check_from ctes (entry_at "from" es) >>= λ _. check_parts ctes es
      ]
      | false ↦ elim (is_write es) [ true ↦ err write_statement | false ↦ check_entries scope es ]
    ]
    check scope _ = ok tt

    pub check_items : List String → Nodes → Result SqlFault (Unit {0})
    check_items scope no_more = ok tt
    check_items scope (more x xs) = check scope x >>= λ _. check_items scope xs

    pub check_entries : List String → Entries → Result SqlFault (Unit {0})
    check_entries scope no_entry = ok tt
    check_entries scope (entry k v es) = check scope v >>= λ _. check_entries scope es

    -- The last loop, over the entries other than `with`.
    pub check_parts : List String → Entries → Result SqlFault (Unit {0})
    check_parts scope no_entry = ok tt
    check_parts scope (entry k v es) = elim (str_eq k "with") [
      | true ↦ check_parts scope es
      | false ↦ check scope v >>= λ _. check_parts scope es
    ]

    -- The loop over `value.with`, which returns the scope of the rest.
    pub check_with : List String → Entries → Result SqlFault (List String)
    check_with scope no_entry = ok scope
    check_with scope (entry k v es) = elim (str_eq k "with") [
      | true ↦ check_ctes scope v
      | false ↦ check_with scope es
    ]

    pub check_ctes : List String → Node → Result SqlFault (List String)
    check_ctes scope absent = ok scope
    check_ctes scope (array cs) = check_each_cte scope cs
    check_ctes scope (text s) = ok (if str_eq s "" then scope else scope ++ "" ∷ [])
    check_ctes scope _ = err not_iterable

    pub check_each_cte : List String → Nodes → Result SqlFault (List String)
    check_each_cte scope no_more = ok scope
    check_each_cte scope (more c cs) =
        check_statement scope c >>= λ _. check_each_cte (scope ++ cte_name show c ∷ []) cs

    -- The call for `cte.stmt`.
    pub check_statement : List String → Node → Result SqlFault (Unit {0})
    check_statement scope absent = err no_object
    check_statement scope (object es) = check_statement_at scope es
    check_statement scope _ = ok tt

    pub check_statement_at : List String → Entries → Result SqlFault (Unit {0})
    check_statement_at scope no_entry = ok tt
    check_statement_at scope (entry k v es) = elim (str_eq k "stmt") [
      | true ↦ check scope v
      | false ↦ check_statement_at scope es
    ]
