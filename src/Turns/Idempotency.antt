-- ===== src/Turns/Idempotency.antt =====
-- `createTurn` of apps/api/src/chat/generation.service.ts, called again under the same
-- `Idempotency-Key`.
use gist_agent.Base.{
  ℕ, Option, none, some, Bool, true, List, [], ◌∷◌, ◌++◌, ◌≡◌, refl, sym, ap, ◌∙◌, arith, ok, subst,
  first_where, Bool-cases, inl, inr, str_eq, eq_refl, ==_refl,
}
use gist_agent.Database.{Generation, Conversation, Tables}
use gist_agent.Turns.{
  Request, Draws, Created, create_turn, replay, admit, is_same_key, new_generation, created_of,
}

first_where-concat :
    (p : Generation → Bool) (gs : List Generation) (g : Generation)
    → first_where p gs ≡ none
    → p g ≡ true
    → first_where p (gs ++ g ∷ []) ≡ some g
first_where-concat p [] g h k = rw k refl
first_where-concat p (x ∷ xs) g h k = elim (Bool-cases (p x)) [
  | inl b ↦ cc (rw b at h)
  | inr b ↦ rw b (first_where-concat p xs g (rw b at h) k)
]

own_key :
    (r : Request) (d : Draws) (datasource : Option ℕ) (gs : List Generation)
    → is_same_key r (new_generation r d datasource gs) ≡ true
own_key r d datasource gs = rw (==_refl r.user_id, eq_refl r.idempotency_key) refl

admitted :
    (r : Request) (d : Draws) (c : Created) (db last : Tables) (o : Option Conversation)
    → admit r d db o ≡ ok (c, last)
    → (datasource : Option ℕ) × (c ≡ created_of (new_generation r d datasource db.generations))
      × (last.generations ≡ db.generations ++ new_generation r d datasource db.generations ∷ [])
unfolding admit
admitted r d c db last none h = cc
admitted r d c db last (some v) h = (v.datasource_id, ground arith, ground arith)

known :
    (r : Request) (d : Draws) (db : Tables) (g : Generation)
    → first_where (is_same_key r) db.generations ≡ some g
    → str_eq g.request_hash r.request_hash ≡ true
    → create_turn r d db ≡ ok (created_of g, db)
unfolding create_turn replay
known r d db g f h = rw (f, replay) (rw h refl)

replayed :
    (r : Request) (d d' : Draws) (c : Created) (db last : Tables) (o : Option Generation)
    → first_where (is_same_key r) db.generations ≡ o
    → replay r d db o ≡ ok (c, last)
    → create_turn r d' last ≡ ok (c, last)
unfolding replay
replayed r d d' c db last none f h =
    let (datasource, made, grown) = admitted r d c db last _ h in
    let g = new_generation r d datasource db.generations in
    known r d' last g
      (ap (first_where (is_same_key r)) grown
        ∙ first_where-concat (is_same_key r) db.generations g f
            (own_key r d datasource db.generations))
      (eq_refl r.request_hash)
    ∙ ap (λ k. ok (k, last)) (sym made)
replayed r d d' c db last (some g) f h = elim (Bool-cases (str_eq g.request_hash r.request_hash)) [
  | inl b ↦
      let answer : created_of g ≡ c = cc (rw b at h) in
      let same : db ≡ last = cc (rw b at h) in
      known r d' last g (subst (λ t. first_where (is_same_key r) t.generations ≡ some g) same f) b
      ∙ ap (λ k. ok (k, last)) answer
  | inr b ↦ cc (rw b at h)
]

-- A request that is sent again under its key, whatever has been drawn for it, gets the answer of the
-- first time and changes no table.
pub create_turn-again :
    (r : Request) (d d' : Draws) (c : Created) (db last : Tables)
    → create_turn r d db ≡ ok (c, last)
    → create_turn r d' last ≡ ok (c, last)
unfolding create_turn
create_turn-again r d d' c db last h = replayed r d d' c db last _ refl h
