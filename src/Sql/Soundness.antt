-- ===== src/Sql/Soundness.antt =====
-- What a query that passes the check can read.
use gist_agent.Base.{
  String, true, false, List, [], ◌∷◌, ◌++◌, ◌≡◌, refl, sym, ap, subst, ◌∙◌, inl, inr, arith,
  Bool-cases, str_eq, eq_iff, ◌≢◌, ◌⊎◌, if◌then◌else◌, ok, >>=-eq-ok, ok-injective,
}
use gist_agent.Sql.{
  Node, absent, flag, number, text, array, object, Nodes, no_more, more, Entries, no_entry, entry,
  entry_at, get, truthy, has, is_text, to_text, schema_of, is_select, is_write, writes_or_locks_at,
  cte_name, table_of, is_cte, check_source, check_sources, check_from, check, check_items,
  check_entries, check_parts, check_with, check_ctes, check_each_cte, check_statement,
  check_statement_at,
}
use gist_agent.Sql.Reads.{
  text_from, name_from, with_name, schema_from, Item, Entry, first, later, Cte, extend, scope_of,
  Reads, item, inner, part, statement, source, entry_at-hit, entry_at-miss,
}

is_select-type : (es : Entries) → entry_at "type" es ≡ text "select" → is_select es ≡ true
unfolding is_select
is_select-type es e = rw e refl

is_text-eq : (s : String) (n : Node) → is_text s n ≡ true → n ≡ text s
is_text-eq s (text t) h = ap text ((eq_iff t s).0 h)
is_text-eq s _ h = cc

is_select-other : (es : Entries) → entry_at "type" es ≢ text "select" → is_select es ≡ false
unfolding is_select
is_select-other es e = elim (Bool-cases (is_text "select" (entry_at "type" es))) [
  | inl b ↦ absurd (e (is_text-eq "select" (entry_at "type" es) b))
  | inr b ↦ b
]

module _ (show : Node → String) where
  to_text-text_from : (v : Node) → to_text show v ≡ text_from show v
  to_text-text_from (text s) = refl
  to_text-text_from absent = refl
  to_text-text_from (flag b) = refl
  to_text-text_from (number n) = refl
  to_text-text_from (array xs) = refl
  to_text-text_from (object es) = refl

  cte_name-with_name : (c : Node) → cte_name show c ≡ with_name show c
  unfolding cte_name
  cte_name-with_name c =
      elim (get "value" (get "name" c))
        as (λ v.
          (elim v as (λ _. String) [ absent ↦ "" | _ ↦ to_text show v ]) ≡ name_from show v) [
            | absent ↦ refl
            | flag b ↦ refl
            | number n ↦ refl
            | text s ↦ refl
            | array xs ↦ refl
            | object es ↦ refl
          ]

  schema_of-schema_from : (f : Node) → schema_of show f ≡ schema_from show (get "db" f)
  unfolding schema_of
  schema_of-schema_from f =
      ap (λ s. if truthy (get "db" f) then s else "") (to_text-text_from (get "db" f))

  table_of-text_from : (f : Node) → table_of show f ≡ text_from show (get "table" f)
  unfolding table_of
  table_of-text_from f = to_text-text_from (get "table" f)

  -- A name with a schema, or one that is not in the scope, is not taken for one of a WITH clause.
  is_cte-shown :
      (ctes : List String) (f : Node)
      → (schema_from show (get "db" f) ≢ "") ⊎ (has (text_from show (get "table" f)) ctes ≡ false)
      → is_cte show ctes f ≡ false
  unfolding is_cte
  is_cte-shown ctes f (inl e) = elim (Bool-cases (str_eq (schema_of show f) "")) [
    | inl b ↦ absurd (e (sym (schema_of-schema_from f) ∙ (eq_iff (schema_of show f) "").0 b))
    | inr b ↦ rw b refl
  ]
  is_cte-shown ctes f (inr h) =
      let n : has (table_of show f) ctes ≡ false = rw (table_of-text_from f) h in ground arith

module _ (show : Node → String) (allowed : List String) where
  -- A table that may be read: an allowed name, in the schema `public` or without a schema.
  abbrev pub Allowed : String → String → Type 0
  Allowed schema t = ((schema ≡ "") ⊎ (schema ≡ "public")) × (has t allowed ≡ true)

  check_items-Item :
      (scope : List String) (xs : Nodes) (x : Node)
      → check_items show allowed scope xs ≡ ok tt
      → Item x xs
      → check show allowed scope x ≡ ok tt
  unfolding check_items
  check_items-Item scope no_more x h i = elim i [ ]
  check_items-Item scope (more y ys) x h first =
      let (u, p, q) = >>=-eq-ok (check show allowed scope y) _ h in p
  check_items-Item scope (more y ys) x h (later i) =
      let (u, p, q) = >>=-eq-ok (check show allowed scope y) _ h in check_items-Item scope ys x q i

  check_entries-Entry :
      (scope : List String) (es : Entries) (k : String) (v : Node)
      → check_entries show allowed scope es ≡ ok tt
      → Entry k v es
      → check show allowed scope v ≡ ok tt
  unfolding check_entries
  check_entries-Entry scope no_entry k v h i = elim i [ ]
  check_entries-Entry scope (entry j w es) k v h first =
      let (u, p, q) = >>=-eq-ok (check show allowed scope w) _ h in p
  check_entries-Entry scope (entry j w es) k v h (later i) =
      let (u, p, q) = >>=-eq-ok (check show allowed scope w) _ h in
      check_entries-Entry scope es k v q i

  check_parts-Entry :
      (scope : List String) (es : Entries) (k : String) (v : Node)
      → check_parts show allowed scope es ≡ ok tt
      → Entry k v es
      → str_eq k "with" ≡ false
      → check show allowed scope v ≡ ok tt
  unfolding check_parts
  check_parts-Entry scope no_entry k v h i n = elim i [ ]
  check_parts-Entry scope (entry j w es) k v h first n =
      let (u, p, q) = >>=-eq-ok (check show allowed scope w) _ (rw (n, check_parts) at h) in p
  check_parts-Entry scope (entry j w es) k v h (later i) n = elim (Bool-cases (str_eq j "with")) [
    | inl b ↦ check_parts-Entry scope es k v (rw (b, check_parts) at h) i n
    | inr b ↦
        let (u, p, q) = >>=-eq-ok (check show allowed scope w) _ (rw (b, check_parts) at h) in
        check_parts-Entry scope es k v q i n
  ]

  check_with-ctes :
      (scope ctes : List String) (es : Entries)
      → check_with show allowed scope es ≡ ok ctes
      → check_ctes show allowed scope (entry_at "with" es) ≡ ok ctes
  unfolding check_with entry_at
  check_with-ctes scope ctes no_entry h = h
  check_with-ctes scope ctes (entry k v es) h = elim (Bool-cases (str_eq k "with")) [
    | inl b ↦
        subst (λ w. check_ctes show allowed scope w ≡ ok ctes) (sym (entry_at-hit "with" k v es b))
          (rw (b, check_with) at h)
    | inr b ↦
        subst (λ w. check_ctes show allowed scope w ≡ ok ctes) (sym (entry_at-miss "with" k v es b))
          (check_with-ctes scope ctes es (rw (b, check_with) at h))
  ]

  check_each_cte-extend :
      (scope ctes : List String) (cs : Nodes)
      → check_each_cte show allowed scope cs ≡ ok ctes
      → ctes ≡ extend show cs scope
  unfolding check_each_cte
  check_each_cte-extend scope ctes no_more h = sym (ok-injective h)
  check_each_cte-extend scope ctes (more c cs) h =
      let (u, p, q) = >>=-eq-ok (check_statement show allowed scope c) _ h in
      check_each_cte-extend (scope ++ with_name show c ∷ []) ctes cs (
        subst (λ n. check_each_cte show allowed (scope ++ n ∷ []) cs ≡ ok ctes)
          (cte_name-with_name show c) q)

  check_ctes-scope_of :
      (scope ctes : List String) (w : Node)
      → check_ctes show allowed scope w ≡ ok ctes
      → ctes ≡ scope_of show scope w
  unfolding check_ctes
  check_ctes-scope_of scope ctes absent h = sym (ok-injective h)
  check_ctes-scope_of scope ctes (array cs) h = check_each_cte-extend scope ctes cs h
  check_ctes-scope_of scope ctes (text s) h = sym (ok-injective h)
  check_ctes-scope_of scope ctes (flag b) h = cc
  check_ctes-scope_of scope ctes (number n) h = cc
  check_ctes-scope_of scope ctes (object es) h = cc

  check_statement_at-stmt :
      (scope : List String) (es : Entries)
      → check_statement_at show allowed scope es ≡ ok tt
      → check show allowed scope (entry_at "stmt" es) ≡ ok tt
  unfolding check_statement_at entry_at check
  check_statement_at-stmt scope no_entry h = refl
  check_statement_at-stmt scope (entry k v es) h = elim (Bool-cases (str_eq k "stmt")) [
    | inl b ↦
        subst (λ w. check show allowed scope w ≡ ok tt) (sym (entry_at-hit "stmt" k v es b))
          (rw (b, check_statement_at) at h)
    | inr b ↦
        subst (λ w. check show allowed scope w ≡ ok tt) (sym (entry_at-miss "stmt" k v es b))
          (check_statement_at-stmt scope es (rw (b, check_statement_at) at h))
  ]

  check_statement-stmt :
      (scope : List String) (c : Node)
      → check_statement show allowed scope c ≡ ok tt
      → check show allowed scope (get "stmt" c) ≡ ok tt
  unfolding check_statement get check
  check_statement-stmt scope absent h = refl
  check_statement-stmt scope (flag b) h = refl
  check_statement-stmt scope (number n) h = refl
  check_statement-stmt scope (text s) h = refl
  check_statement-stmt scope (array xs) h = refl
  check_statement-stmt scope (object es) h = check_statement_at-stmt scope es h

  check_each_cte-Cte :
      (scope ctes seen : List String) (cs : Nodes) (s : Node)
      → check_each_cte show allowed scope cs ≡ ok ctes
      → Cte show scope cs seen s
      → check show allowed seen s ≡ ok tt
  unfolding check_each_cte
  check_each_cte-Cte scope ctes seen no_more s h i = elim i [ ]
  check_each_cte-Cte scope ctes seen (more c cs) s h first =
      let (u, p, q) = >>=-eq-ok (check_statement show allowed scope c) _ h in
      check_statement-stmt scope c p
  check_each_cte-Cte scope ctes seen (more c cs) s h (later i) =
      let (u, p, q) = >>=-eq-ok (check_statement show allowed scope c) _ h in
      check_each_cte-Cte (scope ++ with_name show c ∷ []) ctes seen cs s
        (subst (λ n. check_each_cte show allowed (scope ++ n ∷ []) cs ≡ ok ctes)
          (cte_name-with_name show c) q)
        i

  check_sources-Item :
      (ctes : List String) (fs : Nodes) (f : Node)
      → check_sources show allowed ctes fs ≡ ok tt
      → Item f fs
      → check_source show allowed ctes f ≡ ok tt
  unfolding check_sources
  check_sources-Item ctes no_more f h i = elim i [ ]
  check_sources-Item ctes (more g gs) f h first =
      let (u, p, q) = >>=-eq-ok (check_source show allowed ctes g) _ h in p
  check_sources-Item ctes (more g gs) f h (later i) =
      let (u, p, q) = >>=-eq-ok (check_source show allowed ctes g) _ h in
      check_sources-Item ctes gs f q i

  check_source-has :
      (ctes : List String) (f : Node)
      → check_source show allowed ctes f ≡ ok tt
      → truthy (get "table" f) ≡ true
      → is_cte show ctes f ≡ false
      → has (table_of show f) allowed ≡ true
  unfolding check_source
  check_source-has ctes absent h t n = cc
  check_source-has ctes f h t n = ground arith

  check_source-schema :
      (ctes : List String) (f : Node)
      → check_source show allowed ctes f ≡ ok tt
      → truthy (get "table" f) ≡ true
      → (str_eq (schema_of show f) "" ≡ true) ⊎ (str_eq (schema_of show f) "public" ≡ true)
  unfolding check_source
  check_source-schema ctes absent h t = cc
  check_source-schema ctes f h t = ground arith

  -- What the check of an item of a FROM clause has checked.
  check_source-Allowed :
      (ctes : List String) (f : Node)
      → check_source show allowed ctes f ≡ ok tt
      → truthy (get "table" f) ≡ true
      → (schema_from show (get "db" f) ≢ "") ⊎ (has (text_from show (get "table" f)) ctes ≡ false)
      → Allowed (schema_from show (get "db" f)) (text_from show (get "table" f))
  check_source-Allowed ctes f h t n = (
    elim (check_source-schema ctes f h t) [
      | inl b ↦ inl (sym (schema_of-schema_from show f) ∙ (eq_iff (schema_of show f) "").0 b)
      | inr b ↦ inr (sym (schema_of-schema_from show f) ∙ (eq_iff (schema_of show f) "public").0 b)
    ],
    subst (λ s. has s allowed ≡ true) (table_of-text_from show f)
        (check_source-has ctes f h t (is_cte-shown show ctes f n)),
  )

  ctes-array :
      (scope ctes : List String) (cs : Nodes) (w : Node)
      → check_ctes show allowed scope w ≡ ok ctes
      → w ≡ array cs
      → check_each_cte show allowed scope cs ≡ ok ctes
  unfolding check_ctes
  ctes-array scope ctes cs w h e = subst (λ n. check_ctes show allowed scope n ≡ ok ctes) e h

  check_from-array :
      (ctes : List String) (fs : Nodes) (w : Node)
      → check_from show allowed ctes w ≡ ok tt
      → w ≡ array fs
      → check_sources show allowed ctes fs ≡ ok tt
  unfolding check_from
  check_from-array ctes fs w h e = subst (λ n. check_from show allowed ctes n ≡ ok tt) e h

  -- What the check of a SELECT has checked.
  abbrev Checked : List String → Entries → Type 0
  Checked scope es =
      (check_ctes show allowed scope (entry_at "with" es)
        ≡ ok (scope_of show scope (entry_at "with" es)))
      × (check_from show allowed (scope_of show scope (entry_at "with" es)) (entry_at "from" es)
          ≡ ok tt)
      × (check_parts show allowed (scope_of show scope (entry_at "with" es)) es ≡ ok tt)

  check-Checked :
      (scope : List String) (es : Entries)
      → is_select es ≡ true
      → check show allowed scope (object es) ≡ ok tt
      → Checked scope es
  unfolding check
  check-Checked scope es s h = elim (Bool-cases (writes_or_locks_at es)) [
    | inl b ↦ cc (rw b at (rw (s, check) at h))
    | inr b ↦
        let (ctes, p, q) =
          >>=-eq-ok (check_with show allowed scope es) _ (rw b at (rw (s, check) at h)) in
        let (u, p', q') = >>=-eq-ok (check_from show allowed ctes (entry_at "from" es)) _ q in
        let same =
          check_ctes-scope_of scope ctes (entry_at "with" es) (check_with-ctes scope ctes es p) in
        (
          check_with-ctes scope ctes es p ∙ ap ok same,
          subst (λ n. check_from show allowed n (entry_at "from" es) ≡ ok tt) same p',
          subst (λ n. check_parts show allowed n es ≡ ok tt) same q',
        )
  ]

  check-inner :
      (scope : List String) (es : Entries)
      → is_select es ≡ false
      → check show allowed scope (object es) ≡ ok tt
      → check_entries show allowed scope es ≡ ok tt
  unfolding check
  check-inner scope es s h = elim (Bool-cases (is_write es)) [
    | inl b ↦ cc (rw b at (rw (s, check) at h))
    | inr b ↦ rw b at (rw (s, check) at h)
  ]

  check-items :
      (scope : List String) (xs : Nodes)
      → check show allowed scope (array xs) ≡ ok tt
      → check_items show allowed scope xs ≡ ok tt
  unfolding check
  check-items scope xs h = h

  -- A query that passes the check reads, at any depth, only tables whose names are allowed, in the schema
  -- `public` or without a schema: every table in a FROM clause, save a name without a schema that a
  -- statement of a WITH clause in its scope has.
  pub check-Reads :
      (scope : List String) (v : Node) (schema t : String)
      → check show allowed scope v ≡ ok tt
      → Reads show scope v schema t
      → Allowed schema t
  check-Reads scope absent schema t h r = elim r [ ]
  check-Reads scope (flag b) schema t h r = elim r [ ]
  check-Reads scope (number n) schema t h r = elim r [ ]
  check-Reads scope (text s) schema t h r = elim r [ ]
  check-Reads scope (array xs) schema t h (item i r) =
      check-Reads scope _ schema t (check_items-Item scope xs _ (check-items scope xs h) i) r
  check-Reads scope (object es) schema t h (inner s i r) =
      check-Reads scope _ schema t
        (check_entries-Entry scope es _ _ (check-inner scope es (is_select-other es s) h) i) r
  check-Reads scope (object es) schema t h (part s i n r) =
      let (a, b, c) = check-Checked scope es (is_select-type es s) h in
      check-Reads _ _ schema t (check_parts-Entry _ es _ _ c i n) r
  check-Reads scope (object es) schema t h (statement {seen = seen} {s = stmt} s w i r) =
      let (a, b, c) = check-Checked scope es (is_select-type es s) h in
      check-Reads seen stmt schema t
        (check_each_cte-Cte scope _ seen _ stmt (ctes-array scope _ _ _ a w) i) r
  check-Reads scope (object es) _ _ h (source {f = f} s w i k n) =
      let (a, b, c) = check-Checked scope es (is_select-type es s) h in
      check_source-Allowed _ f (check_sources-Item _ _ f (check_from-array _ _ _ b w) i) k n
