-- ===== src/Lifecycle/Keys.antt =====
-- The primary key of `generation` along the steps of the system.
use gist_agent.Base.{
  ℕ, Option, none, some, Bool, true, false, List, [], ◌∷◌, ◌++◌, ◌≡◌, refl, ◌∙◌, ◌⊎◌, arith,
  rows_where, any, All, ◌==◌, ◌||◌, Bool-cases, inl, inr, ok,
}
use gist_agent.Database.{Generation, Conversation, Tables}
use gist_agent.Turns.{Request, Draws, Created, create_turn, replay, admit, new_generation}
use gist_agent.Lifecycle.{Settings, Step}
use gist_agent.Lifecycle.Rows.{Moves}
use gist_agent.Lifecycle.Steps.{Step-cases}

abbrev pub has_id : ℕ → List Generation → Bool
has_id id = any (λ g. g.id == id)

abbrev pub Distinct : List Generation → Type 0
Distinct [] = Unit {0}
Distinct (g ∷ gs) = (has_id g.id gs ≡ false) × Distinct gs

-- The rows that share the identifier of `r` share its user.
abbrev pub Owns : List Generation → Generation → Type 0
Owns gs r = All (λ g. (g.id == r.id) ≡ true → g.user_id ≡ r.user_id) gs

absent : (r : Generation) (gs : List Generation) → has_id r.id gs ≡ false → Owns gs r
absent r [] h = tt
absent r (g ∷ gs) h = (λ e. absurd (ground arith), absent r gs (ground arith))

-- A row beside rows that have other identifiers.
absent_from :
    (x : Generation) (xs : List Generation)
    → has_id x.id xs ≡ false
    → All (Owns xs) xs
    → (ys : List Generation) → has_id x.id ys ≡ false
    → All (Owns xs) ys
    → All (Owns (x ∷ xs)) ys
absent_from x xs h k [] f o = tt
absent_from x xs h k (y ∷ ys) f (o, os) =
    ((λ e. absurd (ground arith), o), absent_from x xs h k ys (ground arith) os)

pub Distinct-Owns : (gs : List Generation) → Distinct gs → All (Owns gs) gs
Distinct-Owns [] d = tt
Distinct-Owns (x ∷ xs) (h, d) =
    let rest = Distinct-Owns xs d in ((λ e. refl, absent x xs h), absent_from x xs h rest xs h rest)

has_id-Moves : (id : ℕ) (a b : List Generation) → Moves a b → has_id id b ≡ has_id id a
has_id-Moves id [] [] m = refl
has_id-Moves id [] (y ∷ ys) m = absurd m.0
has_id-Moves id (x ∷ xs) [] m = absurd m
has_id-Moves id (x ∷ xs) (y ∷ ys) (m, ms) = rw (m.same_id, has_id-Moves id xs ys ms)

pub Distinct-Moves : (a b : List Generation) → Moves a b → Distinct a → Distinct b
Distinct-Moves [] [] m d = tt
Distinct-Moves [] (y ∷ ys) m d = absurd m.0
Distinct-Moves (x ∷ xs) [] m d = absurd m
Distinct-Moves (x ∷ xs) (y ∷ ys) (m, ms) (h, d) =
    (rw m.same_id (has_id-Moves x.id xs ys ms ∙ h), Distinct-Moves xs ys ms d)

has_id-concat :
    (id : ℕ) (gs : List Generation) (g : Generation)
    → has_id id (gs ++ g ∷ []) ≡ (has_id id gs || g.id == id)
has_id-concat id [] g = ground arith
has_id-concat id (x ∷ xs) g = ground (arith, has_id-concat id xs g)

Distinct-concat :
    (gs : List Generation) (g : Generation)
    → has_id g.id gs ≡ false
    → Distinct gs
    → Distinct (gs ++ g ∷ [])
Distinct-concat [] g h d = (refl, tt)
Distinct-concat (x ∷ xs) g h (k, d) =
    (rw (has_id-concat x.id xs g) (ground arith), Distinct-concat xs g (ground arith) d)

-- A selection of the rows has distinct identifiers too.
has_id-rows_where :
    (p : Generation → Bool) (id : ℕ) (gs : List Generation)
    → has_id id gs ≡ false
    → has_id id (rows_where p gs) ≡ false
has_id-rows_where p id [] h = refl
has_id-rows_where p id (x ∷ xs) h = ground (arith, has_id-rows_where p id xs)

pub Distinct-rows_where :
    (p : Generation → Bool) (gs : List Generation) → Distinct gs → Distinct (rows_where p gs)
Distinct-rows_where p [] d = tt
Distinct-rows_where p (x ∷ xs) (h, d) = elim (Bool-cases (p x)) [
  | inl b ↦ rw b (has_id-rows_where p x.id xs h, Distinct-rows_where p xs d)
  | inr b ↦ rw b (Distinct-rows_where p xs d)
]

-- What `createTurn` adds to the rows: nothing, or one generation under the new identifier.
pub record Added (r : Request) (d : Draws) (db last : Tables) : Type 0 where
  pub datasource : Option ℕ
  pub same_events : last.events ≡ db.events
  pub grown : last.generations ≡ db.generations ++ new_generation r d datasource db.generations ∷ []

abbrev pub Grows : Request → Draws → Tables → Tables → Type 0
Grows r d db last = (last ≡ db) ⊎ Added r d db last

admit-Grows :
    (r : Request) (d : Draws) (c : Created) (db last : Tables) (o : Option Conversation)
    → admit r d db o ≡ ok (c, last)
    → Grows r d db last
unfolding admit
admit-Grows r d c db last none h = cc
admit-Grows r d c db last (some v) h =
    inr (record { datasource = v.datasource_id; same_events = ground arith; grown = ground arith })

replay-Grows :
    (r : Request) (d : Draws) (c : Created) (db last : Tables) (o : Option Generation)
    → replay r d db o ≡ ok (c, last)
    → Grows r d db last
unfolding replay
replay-Grows r d c db last none h = admit-Grows r d c db last _ h
replay-Grows r d c db last (some g) h = inl (ground arith)

pub create_turn-Grows :
    (r : Request) (d : Draws) (c : Created) (db last : Tables)
    → create_turn r d db ≡ ok (c, last)
    → Grows r d db last
unfolding create_turn
create_turn-Grows r d c db last h = replay-Grows r d c db last _ h

pub Step-Distinct :
    {settings : Settings} {db last : Tables}
    → Step settings db last
    → Distinct db.generations
    → Distinct last.generations
Step-Distinct {db = db} {last = last} s k = elim (Step-cases s) [
  | inl (r, d, c, l, f, h) ↦ elim (create_turn-Grows r d c db last h) [
    | inl same ↦ rw same k
    | inr a ↦ rw a.grown (Distinct-concat db.generations _ f.0 k)
  ]
  | inr m ↦ Distinct-Moves _ _ m k
]
