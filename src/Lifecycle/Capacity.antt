-- ===== src/Lifecycle/Capacity.antt =====
-- How many generations of a conversation and of a user are active at once.
use gist_agent.Base.{
  ℕ, ◌≤◌, Option, none, some, Bool, true, false, List, [], ◌∷◌, ◌++◌, ◌≡◌, refl, sym, inl, inr,
  arith, count_where, count_where-append, any, ok, subst, leb,
}
use gist_agent.Contracts.{Status, is_active}
use gist_agent.Database.{Generation, Conversation, Tables}
use gist_agent.Turns.{
  Request, Draws, Created, create_turn, replay, admit, is_active_in, is_active_of, new_generation,
}
use gist_agent.Lifecycle.{Settings, Step, Reach, here, next, Leads, Edge-is_active}
use gist_agent.Lifecycle.Rows.{Moves, Moves-count_where}
use gist_agent.Lifecycle.Steps.{Step-cases}

-- At most one generation of each conversation is active, and at most `limit` of each user.
pub record IsWithin (limit : ℕ) (gs : List Generation) : Type 0 where
  pub one_each : (conversation : ℕ) → count_where (is_active_in conversation) gs ≤ 1
  pub limited : (user_id : ℕ) → count_where (is_active_of user_id) gs ≤ limit

count_where_of_any {ℓ} :
    {A : Type ℓ} (p : A → Bool) (xs : List A) → any p xs ≡ false → count_where p xs ≡ 0
count_where_of_any p [] h = refl
count_where_of_any p (x ∷ xs) h = ground (arith, count_where_of_any p xs)

Leads-is_active : {s t : Status} → Leads s t → is_active t ≡ true → is_active s ≡ true
Leads-is_active here h = h
Leads-is_active (Leads.then p e) h = Leads-is_active p (Edge-is_active e)

Moves-IsWithin :
    (limit : ℕ) (a b : List Generation) → Moves a b → IsWithin limit a → IsWithin limit b
Moves-IsWithin limit a b m w = record {
  one_each = λ c. omega (
    arith,
    Moves-count_where (is_active_in c)
        (λ g h s q. ground (arith, Leads-is_active s.leads, s.same_conversation)) a b m,
    w.one_each c,
  );
  limited = λ u. omega (
    arith,
    Moves-count_where (is_active_of u)
        (λ g h s q. ground (arith, Leads-is_active s.leads, s.same_user)) a b m,
    w.limited u,
  );
}

admit-IsWithin :
    (r : Request) (d : Draws) (c : Created) (db last : Tables) (o : Option Conversation)
    → admit r d db o ≡ ok (c, last)
    → IsWithin d.limit db.generations
    → IsWithin d.limit last.generations
unfolding admit
admit-IsWithin r d c db last none h w = cc
admit-IsWithin r d c db last (some v) h w =
    let g = new_generation r d v.datasource_id db.generations in
    let q : last.generations ≡ db.generations ++ g ∷ [] = ground arith in
    let free : any (is_active_in r.conversation_id) db.generations ≡ false = ground arith in
    let room : leb d.limit (count_where (is_active_of r.user_id) db.generations) ≡ false =
      ground arith in
    rw q (record {
      one_each = λ k.
          rw (count_where-append (is_active_in k) db.generations (g ∷ []))
            (ground (arith, w.one_each k, count_where_of_any (is_active_in k) db.generations));
      limited = λ u.
          rw (count_where-append (is_active_of u) db.generations (g ∷ []))
            (ground (arith, w.limited u));
    })

replay-IsWithin :
    (r : Request) (d : Draws) (c : Created) (db last : Tables) (o : Option Generation)
    → replay r d db o ≡ ok (c, last)
    → IsWithin d.limit db.generations
    → IsWithin d.limit last.generations
unfolding replay
replay-IsWithin r d c db last none h w = admit-IsWithin r d c db last _ h w
replay-IsWithin r d c db last (some g) h w =
    let q : last.generations ≡ db.generations = ground arith in rw q w

pub create_turn-IsWithin :
    (r : Request) (d : Draws) (c : Created) (db last : Tables)
    → create_turn r d db ≡ ok (c, last)
    → IsWithin d.limit db.generations
    → IsWithin d.limit last.generations
unfolding create_turn
create_turn-IsWithin r d c db last h w = replay-IsWithin r d c db last _ h w

pub Step-IsWithin :
    {settings : Settings} {db last : Tables}
    → Step settings db last
    → IsWithin settings.limit db.generations
    → IsWithin settings.limit last.generations
Step-IsWithin {db = db} {last = last} s w = elim (Step-cases s) [
  | inl (r, d, c, l, f, h) ↦
      subst (λ n. IsWithin n last.generations) l
        (create_turn-IsWithin r d c db last h (subst (λ n. IsWithin n db.generations) (sym l) w))
  | inr m ↦ Moves-IsWithin _ _ _ m w
]

-- Where each conversation has at most one active generation and each user at most as many as the limit,
-- this still holds after any steps of turns and workers, in whatever order.
pub Reach-IsWithin :
    {settings : Settings} {db last : Tables}
    → Reach settings db last
    → IsWithin settings.limit db.generations
    → IsWithin settings.limit last.generations
Reach-IsWithin here w = w
Reach-IsWithin (next r s) w = Step-IsWithin s (Reach-IsWithin r w)
