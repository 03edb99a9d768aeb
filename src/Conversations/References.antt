-- ===== src/Conversations/References.antt =====
-- The references between the tables of packages/database/src/schema.ts, and `remove` of
-- apps/api/src/conversation/conversation.service.ts.
use gist_agent.Base.{ℕ, Bool, true, List, ◌==◌, any, All, ◌≡◌}
use gist_agent.Database.{Conversation, Generation, Tables}

abbrev pub has_conversation : ℕ → List Conversation → Bool
has_conversation id = any (λ c. c.id == id)

abbrev pub refers : ℕ → List Generation → Bool
refers id = any (λ g. g.id == id)

-- What the foreign keys of the tables ask for: every row's conversation, and every attempt's and event's
-- generation, is there.
pub record IsLinked (db : Tables) : Type 0 where
  pub messages : All (λ m. has_conversation m.conversation_id db.conversations ≡ true) db.messages
  pub generations :
      All (λ g. has_conversation g.conversation_id db.conversations ≡ true) db.generations
  pub turns : All (λ r. has_conversation r.conversation_id db.conversations ≡ true) db.turns
  pub states : All (λ s. has_conversation s.conversation_id db.conversations ≡ true) db.states
  pub drafts : All (λ d. has_conversation d.conversation_id db.conversations ≡ true) db.drafts
  pub attempts : All (λ a. refers a.generation_id db.generations ≡ true) db.attempts
  pub events : All (λ e. refers e.generation_id db.generations ≡ true) db.events
