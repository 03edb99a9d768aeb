-- ===== src/Lifecycle/Courses.antt =====
-- What becomes of an ended generation when the API and the workers take steps of turns and users remove
-- conversations (apps/api/src/conversation/conversation.service.ts), in any order.
use gist_agent.Base.{
  ℕ, ◌≤◌, Bool, true, false, List, [], ◌∷◌, All, any, count_where, is_some, ◌==◌, ok, Bool-cases,
  ◌⊎◌, inl, inr, ok-injective, ◌≡◌, refl, sym, ap, ◌∙◌, subst, arith,
}
use gist_agent.Contracts.{Status, is_active, is_terminal}
use gist_agent.Database.{Generation, Tables}
use gist_agent.Conversations.{find_one, delete_where, delete_conversation, remove}
use gist_agent.Lifecycle.{Settings, Step}
use gist_agent.Lifecycle.Rows.{Rows, RowStep}
use gist_agent.Lifecycle.Steps.{Step-Rows}
use gist_agent.Lifecycle.Endings.{Leads-of_ended}

abbrev has_id : ℕ → Generation → Bool
has_id id r = r.id == id

-- Steps of the system and removals of conversations, with the conversations removed so far. No step
-- draws the identifier `id`, that of the generation that is followed, for a new one.
pub data Course (settings : Settings) (id : ℕ) (db : Tables) : List ℕ → Tables → Type 0 where
  begun : Course settings id db [] db
  steps :
      {ks : List ℕ} {a b : Tables}
      → Course settings id db ks a
      → Step settings a b
      → count_where (λ r. r.id == id) b.generations ≤ count_where (λ r. r.id == id) a.generations
      → Course settings id db ks b
  removes :
      {ks : List ℕ} {a b : Tables} (k user : ℕ)
      → Course settings id db ks a
      → remove k user a ≡ ok b
      → Course settings id db (k ∷ ks) b

-- A row with this identifier is of this conversation and has this status.
abbrev pub IsLasting : ℕ → ℕ → Status → Generation → Type 0
IsLasting id conversation s r =
    (r.id == id) ≡ true → (r.conversation_id ≡ conversation) × (r.status ≡ s)

module _ (id conversation : ℕ) (s : Status) where
  IsLasting-RowStep :
      (x y : Generation)
      → is_active s ≡ false
      → RowStep x y
      → IsLasting id conversation s x
      → IsLasting id conversation s y
  IsLasting-RowStep x y n m h e =
      let (c, t) = h (ap (λ k. k == id) (sym m.same_id) ∙ e) in
      (
        m.same_conversation ∙ c,
        Leads-of_ended (subst (λ q. is_active q ≡ false) (sym t) n) m.leads ∙ t,
      )

  IsLasting-none :
      (ys : List Generation)
      → count_where (λ r. r.id == id) ys ≤ 0
      → All (IsLasting id conversation s) ys
  IsLasting-none [] h = tt
  IsLasting-none (y ∷ ys) h = ((λ e. absurd (ground arith)), IsLasting-none ys (ground arith))

  Rows-IsLasting :
      (a b : List Generation)
      → is_active s ≡ false
      → Rows a b
      → count_where (λ r. r.id == id) b ≤ count_where (λ r. r.id == id) a
      → All (IsLasting id conversation s) a
      → All (IsLasting id conversation s) b
  Rows-IsLasting [] ys n m c h = IsLasting-none ys c
  Rows-IsLasting (x ∷ xs) [] n m c h = absurd m
  Rows-IsLasting (x ∷ xs) (y ∷ ys) n (m, ms) c (h, hs) =
      let same : (y.id == id) ≡ (x.id == id) = ap (λ k. k == id) m.same_id in
      (IsLasting-RowStep x y n m h, Rows-IsLasting xs ys n ms (ground arith) hs)

  Rows-any :
      (a b : List Generation)
      → Rows a b
      → any (λ r. r.id == id) a ≡ true
      → any (λ r. r.id == id) b ≡ true
  Rows-any [] ys m h = cc
  Rows-any (x ∷ xs) [] m h = absurd m
  Rows-any (x ∷ xs) (y ∷ ys) (m, ms) h =
      let same : (y.id == id) ≡ (x.id == id) = ap (λ k. k == id) m.same_id in
      ground (arith, Rows-any xs ys ms)

  delete_where-All :
      (p : Generation → Bool) (gs : List Generation)
      → All (IsLasting id conversation s) gs
      → All (IsLasting id conversation s) (delete_where p gs)
  delete_where-All p [] h = tt
  delete_where-All p (g ∷ gs) (h, hs) =
      let rest = delete_where-All p gs hs in
      elim (Bool-cases (p g)) [ inl b ↦ rw b rest | inr b ↦ rw b (h, rest) ]

  delete_where-any :
      (k : ℕ) (gs : List Generation)
      → (k == conversation) ≡ false
      → All (IsLasting id conversation s) gs
      → any (λ r. r.id == id) gs ≡ true
      → any (λ r. r.id == id) (delete_where (λ g. g.conversation_id == k) gs) ≡ true
  delete_where-any k [] n h e = cc
  delete_where-any k (g ∷ gs) n (h, hs) e = elim (Bool-cases (g.id == id)) [
    | inl b ↦
        let other : (g.conversation_id == k) ≡ false = let (c, t) = h b in ground arith in
        rw (other, b) refl
    | inr b ↦
        let rest = delete_where-any k gs n hs (rw b at e) in
        elim (Bool-cases (g.conversation_id == k)) [ inl c ↦ rw c rest | inr c ↦ rw (c, b) rest ]
  ]

generations-remove :
    (k user : ℕ) (a b : Tables)
    → remove k user a ≡ ok b
    → b.generations ≡ delete_where (λ g. g.conversation_id == k) a.generations
unfolding remove delete_conversation
generations-remove k user a b h = elim (Bool-cases (is_some (find_one k user a))) [
  | inl c ↦ sym (ap (λ t. t.generations) (ok-injective (rw c at h)))
  | inr c ↦ cc (rw c at h)
]

-- An ended generation keeps its status and its conversation. Where every row with an identifier has a
-- conversation and a status of an ended generation, and there is such a row, then after any steps of turns
-- and workers and any removals of conversations, in any order, in which the identifier is not drawn for a
-- new generation, every row with it still has them, and there is such a row unless its conversation has
-- been removed.
pub Course-ended :
    (id conversation : ℕ) (s : Status) {settings : Settings} {db last : Tables} {removed : List ℕ}
    → Course settings id db removed last
    → is_terminal s ≡ true
    → All (IsLasting id conversation s) db.generations
    → any (λ r. r.id == id) db.generations ≡ true
    → All (IsLasting id conversation s) last.generations
      × ((any (λ r. r.id == id) last.generations ≡ true)
          ⊎ (any (λ k. k == conversation) removed ≡ true))
Course-ended id conversation s begun t h e = (h, inl e)
Course-ended id conversation s (steps {a = a} {b = b} r m c) t h e =
    let (kept, there) = Course-ended id conversation s r t h e in
    let rows = Step-Rows m in
    (
      Rows-IsLasting id conversation s a.generations b.generations (ground arith) rows c kept,
      elim there [
        | inl i ↦ inl (Rows-any id conversation s a.generations b.generations rows i)
        | inr i ↦ inr i
      ],
    )
Course-ended id conversation s (removes {a = a} {b = b} k user r m) t h e =
    let (kept, there) = Course-ended id conversation s r t h e in
    let rows = generations-remove k user a b m in
    (
      subst (All (IsLasting id conversation s)) (sym rows)
          (delete_where-All id conversation s (λ g. g.conversation_id == k) a.generations kept),
      elim (Bool-cases (k == conversation)) [
        | inl c ↦ inr (rw c refl)
        | inr c ↦ elim there [
          | inl i ↦ inl (
              ap (any (λ r. r.id == id)) rows
              ∙ delete_where-any id conversation s k a.generations c kept i)
          | inr i ↦ inr (rw c i)
        ]
      ],
    )
