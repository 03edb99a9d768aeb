-- ===== src/Memory/Steps.antt =====
-- The operations that change the memories of a store, and the sequences of those that succeed.
use gist_agent.Base.{ℕ, Option, Bool, Result, ok, err, ◌≡◌}
use gist_agent.Sql.{Node}
use gist_agent.Memory.{Store, MemoryFault}
use gist_agent.Memory.Policy.{Unicode}
use gist_agent.Memory.Writing.{Draw, create, update, remember_from_conversation}
use gist_agent.Memory.Candidates.{Proposal, propose}
use gist_agent.Memory.Decisions.{Edit, decide}

pub data Operation : Type 0 where
  creating : Draw → (user ds : ℕ) → Node → Operation
  updating : Draw → (user id expected : ℕ) → Node → (is_deleted : Bool) → Operation
  remembering : Draw → (user ds message : ℕ) → Node → Operation
  proposing : Draw → (user ds generation_id writer_token : ℕ) → Proposal → Operation
  deciding : Draw → (user id expected : ℕ) → (accept : Bool) → Option Edit → Operation

abbrev pub store_of {ℓ} : {A : Type ℓ} → Result MemoryFault (A × Store) → Result MemoryFault Store
store_of (ok p) = ok p.1
store_of (err e) = err e

unfoldable pub run : Unicode → Operation → Store → Result MemoryFault Store
unfolding create update remember_from_conversation propose decide
run u (creating draw user ds body) s = store_of (create u draw user ds body s)
run u (updating draw user id expected patch is_deleted) s =
    store_of (update u draw user id expected patch is_deleted s)
run u (remembering draw user ds message body) s =
    store_of (remember_from_conversation u draw user ds message body s)
run u (proposing draw user ds generation_id writer_token p) s =
    store_of (propose draw user ds generation_id writer_token p s)
run u (deciding draw user id expected accept edit) s =
    store_of (decide u draw user id expected accept edit s)

pub data Steps (u : Unicode) : Store → Store → Type 0 where
  done : {s : Store} → Steps u s s
  next : {s t v : Store} (o : Operation) → run u o s ≡ ok t → Steps u t v → Steps u s v
