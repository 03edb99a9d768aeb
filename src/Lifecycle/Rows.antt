-- ===== src/Lifecycle/Rows.antt =====
-- What an operation may do to a row of `generation`: its status moves along the diagram, its keys stay.
use gist_agent.Base.{
  ℕ, ◌≤◌, some, Bool, true, List, [], ◌∷◌, ok, ◌≡◌, refl, ◌∙◌, arith, Evolves, Evolves-refl,
  Evolves-trans, Evolves-update_where, update_where, Bool-cases, inl, inr, count_where, subst,
  first_where, ◌==◌,
}
use gist_agent.Contracts.{pending, ConversationEvent}
use gist_agent.Database.{Generation, Tables}
use gist_agent.Database.Outbox.{Identity, enqueue_generation_event, next_sequence}
use gist_agent.Lifecycle.{Leads, here, Leads-trans}

-- What one row may become.
pub record RowStep (g h : Generation) : Type 0 where
  pub same_id : h.id ≡ g.id
  pub same_user : h.user_id ≡ g.user_id
  pub same_conversation : h.conversation_id ≡ g.conversation_id
  pub same_response : h.response_message_id ≡ g.response_message_id
  pub grows : g.last_sequence ≤ h.last_sequence
  pub leads : Leads g.status h.status

abbrev pub IsNew : Generation → Type 0
IsNew g = Leads pending g.status

pub RowStep-refl : (g : Generation) → RowStep g g
RowStep-refl g = record {
  same_id = refl;
  same_user = refl;
  same_conversation = refl;
  same_response = refl;
  grows = omega arith;
  leads = here;
}

pub RowStep-trans : (g h k : Generation) → RowStep g h → RowStep h k → RowStep g k
RowStep-trans g h k a b = record {
  same_id = b.same_id ∙ a.same_id;
  same_user = b.same_user ∙ a.same_user;
  same_conversation = b.same_conversation ∙ a.same_conversation;
  same_response = b.same_response ∙ a.same_response;
  grows = omega arith;
  leads = Leads-trans a.leads b.leads;
}

-- The rows of a table that a step changes and adds nothing to.
abbrev pub Moves : List Generation → List Generation → Type 0
Moves = Evolves RowStep (λ g. ⊥)

-- The rows of a table and of a later version of it.
abbrev pub Rows : List Generation → List Generation → Type 0
Rows = Evolves RowStep IsNew

pub Moves-refl : (gs : List Generation) → Moves gs gs
Moves-refl = Evolves-refl RowStep (λ g. ⊥) RowStep-refl

pub Moves-trans : (a b c : List Generation) → Moves a b → Moves b c → Moves a c
Moves-trans = Evolves-trans RowStep (λ g. ⊥) RowStep-trans (λ x y p s. p)

pub Rows-trans : (a b c : List Generation) → Rows a b → Rows b c → Rows a c
Rows-trans = Evolves-trans RowStep IsNew RowStep-trans (λ x y p s. Leads-trans p s.leads)

pub Rows-of_Moves : (a b : List Generation) → Moves a b → Rows a b
Rows-of_Moves [] [] h = tt
Rows-of_Moves [] (y ∷ ys) h = absurd h.0
Rows-of_Moves (x ∷ xs) [] h = absurd h
Rows-of_Moves (x ∷ xs) (y ∷ ys) (h, hs) = (h, Rows-of_Moves xs ys hs)

-- An update that changes no key and takes each row along the diagram.
pub Moves-update_where :
    (p : Generation → Bool) (f : Generation → Generation)
    → ((g : Generation) → p g ≡ true → RowStep g (f g))
    → (gs : List Generation) → Moves gs (update_where p f gs)
Moves-update_where p f hit = Evolves-update_where RowStep (λ g. ⊥) p f hit RowStep-refl

pub generations-enqueue :
    (i : Identity) (e : ConversationEvent) (event_id now : ℕ) (db : Tables) {next : Tables}
    → enqueue_generation_event i e event_id now db ≡ ok next
    → next.generations ≡ next_sequence i.id now db.generations
unfolding enqueue_generation_event
generations-enqueue i e event_id now db h = ground arith

pub Moves-next_sequence : (id now : ℕ) (gs : List Generation) → Moves gs (next_sequence id now gs)
Moves-next_sequence id now gs =
    Moves-update_where _ _
      (λ g h. record {
        same_id = refl;
        same_user = refl;
        same_conversation = refl;
        same_response = refl;
        grows = omega arith;
        leads = here;
      })
      gs

-- A condition on keys that only active generations meet is met by no more rows after a step.
pub Moves-count_where :
    (q : Generation → Bool)
    → ((g h : Generation) → RowStep g h → q h ≡ true → q g ≡ true)
    → (a b : List Generation) → Moves a b
    → count_where q b ≤ count_where q a
Moves-count_where q back [] [] h = omega arith
Moves-count_where q back [] (y ∷ ys) h = absurd h.0
Moves-count_where q back (x ∷ xs) [] h = absurd h
Moves-count_where q back (x ∷ xs) (y ∷ ys) (h, hs) =
    ground (arith, back x y h, Moves-count_where q back xs ys hs)

-- The row with a given identifier stays in its place.
pub Rows-first_where :
    (id : ℕ) (a b : List Generation) (g : Generation)
    → Rows a b
    → first_where (λ r. r.id == id) a ≡ some g
    → (h : Generation) × (first_where (λ r. r.id == id) b ≡ some h) × RowStep g h
Rows-first_where id [] b g r e = cc
Rows-first_where id (x ∷ xs) [] g r e = absurd r
Rows-first_where id (x ∷ xs) (y ∷ ys) g (r, rs) e = elim (Bool-cases (x.id == id)) [
  | inl hit ↦ let q : x ≡ g = cc (rw hit at e) in (y, ground arith, subst (λ k. RowStep k y) q r)
  | inr miss ↦
      let (h, found, step) = Rows-first_where id xs ys g rs (rw miss at e) in
      (h, ground arith, step)
]
