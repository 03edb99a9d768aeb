-- ===== src/Conversations/Removal.antt =====
-- `remove` of apps/api/src/conversation/conversation.service.ts: what it takes away, what it leaves, and
-- the references between the tables.
use gist_agent.Base.{ℕ, Bool, not, ◌&&◌, List, [], ◌==◌, any, rows_where, ◌≡◌}
use gist_agent.Database.{Conversation, Tables}
use gist_agent.Conversations.{get_messages}

-- `ys` is `xs` without the rows that meet a condition.
abbrev pub Without {ℓ} : {A : Type ℓ} → (A → Bool) → List A → List A → Type ℓ
Without p xs ys =
    (rows_where p ys ≡ []) × (rows_where (λ x. not (p x)) ys ≡ rows_where (λ x. not (p x)) xs)

-- A conversation with this identifier is the user's.
abbrev pub owns : ℕ → ℕ → List Conversation → Bool
owns user id = any (λ c. c.id == id && c.user_id == user)

-- The tables `t` are those of `db` without what belongs to a conversation of the user.
pub record Removed (id user : ℕ) (db t : Tables) : Type 0 where
  pub conversations :
      Without (λ c. c.id == id && c.user_id == user) db.conversations t.conversations
  pub messages : Without (λ m. m.conversation_id == id) db.messages t.messages
  pub generations : Without (λ g. g.conversation_id == id) db.generations t.generations
  pub turns : Without (λ r. r.conversation_id == id) db.turns t.turns
  pub states : Without (λ s. s.conversation_id == id) db.states t.states
  pub drafts : Without (λ d. d.conversation_id == id) db.drafts t.drafts
  pub attempts :
      Without
        (λ a.
          any
            (λ g. g.id == a.generation_id)
            (rows_where (λ g. g.conversation_id == id) db.generations))
        db.attempts
        t.attempts
  pub events :
      Without
        (λ e.
          any
            (λ g. g.id == e.generation_id)
            (rows_where (λ g. g.conversation_id == id) db.generations))
        db.events
        t.events
  pub outbox :
      Without
        (λ o.
          any
            (λ g. g.id == o.aggregate_id)
            (rows_where (λ g. g.conversation_id == id && g.user_id == user) db.generations))
        db.outbox
        t.outbox
  pub unseen : get_messages id user t ≡ []
