-- ===== src/Sql/Reads.antt =====
-- What a query reads, as a relation on its syntax tree.
use gist_agent.Base.{
  String, true, false, List, [], ◌∷◌, ◌++◌, ◌≡◌, refl, str_eq, ◌≢◌, ◌⊎◌, if◌then◌else◌,
}
use gist_agent.Sql.{
  Node, absent, text, array, object, Nodes, no_more, more, Entries, entry, entry_at, get, truthy,
  has,
}

-- Membership in an array and in an object.
pub data Item (x : Node) : Nodes → Type 0 where
  first : {xs : Nodes} → Item x (more x xs)
  later : {y : Node} {xs : Nodes} → Item x xs → Item x (more y xs)

pub data Entry (key : String) (v : Node) : Entries → Type 0 where
  first : {es : Entries} → Entry key v (entry key v es)
  later : {k : String} {w : Node} {es : Entries} → Entry key v es → Entry key v (entry k w es)

pub entry_at-hit :
    (key k : String) (v : Node) (es : Entries)
    → str_eq k key ≡ true
    → entry_at key (entry k v es) ≡ v
unfolding entry_at
entry_at-hit key k v es h = rw (h, entry_at) refl

pub entry_at-miss :
    (key k : String) (v : Node) (es : Entries)
    → str_eq k key ≡ false
    → entry_at key (entry k v es) ≡ entry_at key es
unfolding entry_at
entry_at-miss key k v es h = rw (h, entry_at) refl

module _ (show : Node → String) where
  -- A value in a name.
  abbrev pub text_from : Node → String
  text_from (text s) = s
  text_from v = show v

  -- The name of a statement of a WITH clause; the empty text where it has none.
  abbrev pub name_from : Node → String
  name_from absent = ""
  name_from v = text_from v

  abbrev pub with_name : Node → String
  with_name c = name_from (get "value" (get "name" c))

  -- The schema of an item of a FROM clause; the empty text where the query writes none.
  abbrev pub schema_from : Node → String
  schema_from v = if truthy v then text_from v else ""

  -- A statement of a WITH clause, with the names that it may refer to: those before it.
  pub data Cte : List String → Nodes → List String → Node → Type 0 where
    first :
        {scope : List String} {c : Node} {cs : Nodes} → Cte scope (more c cs) scope (get "stmt" c)
    later :
        {scope : List String} {c : Node} {cs : Nodes} {inner : List String} {s : Node}
        → Cte (scope ++ with_name c ∷ []) cs inner s
        → Cte scope (more c cs) inner s

  abbrev pub extend : Nodes → List String → List String
  extend no_more scope = scope
  extend (more c cs) scope = extend cs (scope ++ with_name c ∷ [])

  -- The names in the scope of a SELECT with this WITH clause.
  abbrev pub scope_of : List String → Node → List String
  scope_of scope (array cs) = extend cs scope
  scope_of scope (text s) = if str_eq s "" then scope else scope ++ "" ∷ []
  scope_of scope _ = scope

  -- The tables of the database that a tree reads, each with the schema that is written before it: those
  -- of every FROM clause at any depth. A name with a schema is always one of the database; a name without
  -- one is, where no statement of a WITH clause in its scope has it.
  pub data Reads : List String → Node → String → String → Type 0 where
    item :
        {scope : List String} {x : Node} {xs : Nodes} {schema t : String}
        → Item x xs
        → Reads scope x schema t
        → Reads scope (array xs) schema t
    inner :
        {scope : List String} {k : String} {v : Node} {es : Entries} {schema t : String}
        → entry_at "type" es ≢ text "select"
        → Entry k v es
        → Reads scope v schema t
        → Reads scope (object es) schema t
    part :
        {scope : List String} {k : String} {v : Node} {es : Entries} {schema t : String}
        → entry_at "type" es ≡ text "select"
        → Entry k v es
        → str_eq k "with" ≡ false
        → Reads (scope_of scope (entry_at "with" es)) v schema t
        → Reads scope (object es) schema t
    statement :
        {scope : List String} {es : Entries} {cs : Nodes} {seen : List String} {s : Node}
        {schema t : String}
        → entry_at "type" es ≡ text "select"
        → entry_at "with" es ≡ array cs
        → Cte scope cs seen s
        → Reads seen s schema t
        → Reads scope (object es) schema t
    source :
        {scope : List String} {es : Entries} {fs : Nodes} {f : Node}
        → entry_at "type" es ≡ text "select"
        → entry_at "from" es ≡ array fs
        → Item f fs
        → truthy (get "table" f) ≡ true
        → (schema_from (get "db" f) ≢ "")
          ⊎ (has (text_from (get "table" f)) (scope_of scope (entry_at "with" es)) ≡ false)
        → Reads scope (object es) (schema_from (get "db" f)) (text_from (get "table" f))
