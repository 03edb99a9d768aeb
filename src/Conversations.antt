-- ===== src/Conversations.antt =====
-- apps/api/src/conversation/conversation.service.ts: the conversations of a user. A deletion takes with
-- it what refers to the conversation, as packages/database/src/schema.ts declares it (ON DELETE CASCADE).
pub mod Removal
pub mod References
use gist_agent.Base.{
  ℕ, String, Option, none, some, Bool, true, false, not, ◌&&◌, List, [], ◌∷◌, ◌++◌, map, ◌==◌, ltb,
  if◌then◌else◌, any, is_some, first_where, rows_where, update_where, Result, ok, err, ok-injective,
  Bool-cases, inl, inr, ◌≡◌, refl, ap, subst,
}
use gist_agent.Contracts.{Status}
use gist_agent.Database.{Conversation, Message, Generation, Tables}

pub data ConversationFault : Type 0 where
  not_found key_taken : ConversationFault

-- `ORDER BY updated_at DESC`.
unfoldable pub insert_by_update : Conversation → List Conversation → List Conversation
insert_by_update c [] = c ∷ []
insert_by_update c (x ∷ xs) =
    let rest = insert_by_update c xs in
    if ltb c.updated_at x.updated_at then x ∷ rest else c ∷ x ∷ xs

unfoldable pub order_by_update : List Conversation → List Conversation
unfolding insert_by_update
order_by_update [] = []
order_by_update (c ∷ cs) = insert_by_update c (order_by_update cs)

-- `findAll`.
unfoldable pub find_all : ℕ → Tables → List Conversation
unfolding order_by_update
find_all user db = order_by_update (rows_where (λ c. c.user_id == user) db.conversations)

abbrev pub is_of : ℕ → ℕ → Conversation → Bool
is_of id user c = c.id == id && c.user_id == user

-- `findOne`.
unfoldable pub find_one : ℕ → ℕ → Tables → Option Conversation
find_one id user db = first_where (is_of id user) db.conversations

-- `create`; the identifier and the time are drawn.
unfoldable pub create :
    (id now : ℕ)
    → ℕ
    → Option String
    → Tables
    → Result ConversationFault (Option Conversation × Tables)
unfolding find_one
create id now user title db =
    if any (λ c. c.id == id) db.conversations
    then err key_taken
    else let t = record db {
      conversations =
          db.conversations
          ++ record {
            id = id;
            user_id = user;
            title = title_or_default title;
            datasource_id = none;
            updated_at = now;
          }
            ∷ [];
    } in
      ok (find_one id user t, t)
  where
    title_or_default : Option String → String
    title_or_default none = "新对话"
    title_or_default (some t) = t

-- `updateTitle`.
unfoldable pub update_title : ℕ → String → Option ℕ → Tables → Tables
update_title id title datasource_id db = record db {
  conversations =
      update_where (λ c. c.id == id)
        (λ c. record c { title = title; datasource_id = datasource_id }) db.conversations;
}

abbrev pub has_generation : ℕ → List Generation → Bool
has_generation id = any (λ g. g.id == id)

-- The generations of a conversation, and those of them that are the user's.
abbrev pub generations_in : ℕ → List Generation → List Generation
generations_in id = rows_where (λ g. g.conversation_id == id)

abbrev pub own_generations_in : ℕ → ℕ → List Generation → List Generation
own_generations_in id user = rows_where (λ g. g.conversation_id == id && g.user_id == user)

abbrev pub delete_where {ℓ} : {A : Type ℓ} → (A → Bool) → List A → List A
delete_where p = rows_where (λ x. not (p x))

-- The two DELETE statements of `remove`, with what the second one cascades to.
unfoldable pub delete_conversation : ℕ → ℕ → Tables → Tables
delete_conversation id user db =
    let gone = generations_in id db.generations in
    record {
      generations = delete_where (λ g. g.conversation_id == id) db.generations;
      messages = delete_where (λ m. m.conversation_id == id) db.messages;
      conversations = delete_where (is_of id user) db.conversations;
      turns = delete_where (λ t. t.conversation_id == id) db.turns;
      attempts = delete_where (λ a. has_generation a.generation_id gone) db.attempts;
      events = delete_where (λ e. has_generation e.generation_id gone) db.events;
      outbox =
          delete_where
            (λ o. has_generation o.aggregate_id (own_generations_in id user db.generations))
            db.outbox;
      states = delete_where (λ s. s.conversation_id == id) db.states;
      drafts = delete_where (λ d. d.conversation_id == id) db.drafts;
    }

-- `remove`.
unfoldable pub remove : ℕ → ℕ → Tables → Result ConversationFault Tables
unfolding find_one delete_conversation
remove id user db =
    if is_some (find_one id user db) then ok (delete_conversation id user db) else err not_found

-- A message with the generation that answers by it; rows are in the order of insertion, which is that of
-- their times and, within a turn, the question first.
pub record ShownMessage : Type 0 where
  pub message : Message
  pub generation_id : Option ℕ
  pub generation_status : Option Status
  pub generation_sequence : Option ℕ

abbrev pub shown_with : Message → Option Generation → ShownMessage
shown_with m none = record {
  message = m;
  generation_id = none;
  generation_status = none;
  generation_sequence = none;
}
shown_with m (some g) = record {
  message = m;
  generation_id = some g.id;
  generation_status = some g.status;
  generation_sequence = some g.last_sequence;
}

-- `getMessages`; at most one generation responds by a message.
unfoldable pub get_messages : ℕ → ℕ → Tables → List ShownMessage
unfolding find_one
get_messages id user db =
    if is_some (find_one id user db)
    then map (λ m. shown_with m (first_where (λ g. g.response_message_id == m.id) db.generations))
        (rows_where (λ m. m.conversation_id == id) db.messages)
    else []
