-- ===== src/Lifecycle/Delivery.antt =====
-- What a client that reconnects is sent: `history` against the numbered log.
use gist_agent.Base.{
  ℕ, String, zero, suc, ◌+◌, some, Bool, true, false, not, ◌&&◌, ◌||◌, List, [], ◌∷◌, ◌≡◌, refl, ap,
  ◌∙◌, arith, rows_where, first_where, first_where-holds, map, length, length-map, subst, ◌≤◌, drop,
  ok, All, ◌==◌, ltb, Bool-cases, inl, inr, is_empty,
}
use gist_agent.Contracts.{StreamEvent, is_terminal}
use gist_agent.Database.{Generation, Message, EventRow, Tables}
use gist_agent.Turns.History.{
  events, history, answer, events_after, order_by_sequence, is_contiguous, last_of,
}
use gist_agent.Lifecycle.Log.{events_of, Consecutive}
use gist_agent.Lifecycle.Numbering.{IsNumbered, IsFaithful}

rows_where-&& :
    {A : Type 0}
    → (p q r : A → Bool) (xs : List A)
    → rows_where (λ x. p x && q x && r x) xs ≡ rows_where (λ x. q x && r x) (rows_where p xs)
rows_where-&& p q r [] = refl
rows_where-&& p q r (x ∷ xs) = ground (arith, rows_where-&& p q r xs)

Consecutive-drop :
    (k n : ℕ) (es : List EventRow) → Consecutive k es → Consecutive (k + n) (drop n es)
Consecutive-drop k zero es c = subst (λ m. Consecutive m es) (omega arith) c
Consecutive-drop k (suc n) [] c = tt
Consecutive-drop k (suc n) (x ∷ xs) (c, cs) =
    subst (λ m. Consecutive m (drop n xs)) (omega arith) (Consecutive-drop (k + 1) n xs cs)

All-drop : (P : EventRow → Type 0) (n : ℕ) (es : List EventRow) → All P es → All P (drop n es)
All-drop P zero es h = h
All-drop P (suc n) [] h = tt
All-drop P (suc n) (x ∷ xs) (h, hs) = All-drop P n xs hs

length-drop : (n : ℕ) (es : List EventRow) → n ≤ length es → n + length (drop n es) ≡ length es
length-drop zero es h = omega arith
length-drop (suc n) [] h = absurd (omega arith)
length-drop (suc n) (x ∷ xs) h = omega (arith, length-drop n xs (omega arith))

-- The filter of the query keeps the events after the given number.
module _ (user_id after : ℕ) where
  abbrev is_wanted : EventRow → Bool
  is_wanted e = e.user_id == user_id && ltb after e.sequence

  wanted-All :
      (k : ℕ) (es : List EventRow)
      → after ≤ k
      → Consecutive k es
      → All (λ e. e.user_id ≡ user_id) es
      → rows_where is_wanted es ≡ es
  wanted-All k [] h c o = refl
  wanted-All k (x ∷ xs) h (c, cs) (o, os) =
      ground (arith, wanted-All (k + 1) xs (omega arith) cs os)

  wanted-drop :
      (k n : ℕ) (es : List EventRow)
      → after ≡ k + n
      → Consecutive k es
      → All (λ e. e.user_id ≡ user_id) es
      → rows_where is_wanted es ≡ drop n es
  wanted-drop k zero es h c o = wanted-All k es (omega arith) c o
  wanted-drop k (suc n) [] h c o = refl
  wanted-drop k (suc n) (x ∷ xs) h (c, cs) (o, os) =
      ground (arith, wanted-drop (k + 1) n xs (omega arith) cs os)

order-Consecutive : (k : ℕ) (es : List EventRow) → Consecutive k es → order_by_sequence es ≡ es
unfolding order_by_sequence
order-Consecutive k [] c = refl
order-Consecutive k (x ∷ []) c = refl
order-Consecutive k (x ∷ y ∷ ys) (c, (d, cs)) =
    rw (order-Consecutive (k + 1) (y ∷ ys) (d, cs)) (ground arith)

payloads-is_contiguous :
    (k : ℕ) (es : List EventRow)
    → Consecutive k es
    → All IsFaithful es
    → is_contiguous k (map (λ e. e.payload) es) ≡ true
unfolding is_contiguous
payloads-is_contiguous k [] c f = refl
payloads-is_contiguous k (x ∷ xs) (c, cs) ((f, g, i), fs) =
    ground (arith, payloads-is_contiguous (k + 1) xs cs fs)

payloads-last_of :
    (k : ℕ) (es : List EventRow)
    → Consecutive k es
    → All IsFaithful es
    → last_of k (map (λ e. e.payload) es) ≡ k + length es
unfolding last_of
payloads-last_of k [] c f = omega arith
payloads-last_of k (x ∷ xs) (c, cs) ((f, g, i), fs) =
    rw (f ∙ c) (payloads-last_of (k + 1) xs cs fs ∙ omega arith)

numbered-after :
    (after : ℕ) (es : List EventRow) → Consecutive 0 es → Consecutive after (drop after es)
numbered-after after es c =
    subst (λ m. Consecutive m (drop after es)) (omega arith) (Consecutive-drop 0 after es c)

events_of-id : (id : ℕ) (rows : List EventRow) → All (λ e. e.generation_id ≡ id) (events_of id rows)
events_of-id id [] = tt
events_of-id id (x ∷ xs) = elim (Bool-cases (x.generation_id == id)) [
  | inl b ↦ rw b (ground arith, events_of-id id xs)
  | inr b ↦ rw b (events_of-id id xs)
]

payloads-generation_id :
    (id : ℕ) (es : List EventRow)
    → All IsFaithful es
    → All (λ e. e.generation_id ≡ id) es
    → All (λ e. e.generation_id ≡ id) (map (λ e. e.payload) es)
payloads-generation_id id [] f h = tt
payloads-generation_id id (x ∷ xs) ((f, g, i), fs) (h, hs) =
    (i ∙ h, payloads-generation_id id xs fs hs)

-- What the query reads.
events_after-drop :
    (g : Generation) (after : ℕ) (rows : List EventRow)
    → IsNumbered g (events_of g.id rows)
    → events_after g.user_id g.id after rows
      ≡ map (λ e. e.payload) (drop after (events_of g.id rows))
events_after-drop g after rows n =
    let kept = drop after (events_of g.id rows) in
    let same : rows_where
          (λ e. e.generation_id == g.id && e.user_id == g.user_id && ltb after e.sequence) rows
        ≡ kept =
      rows_where-&& (λ e. e.generation_id == g.id) (λ e. e.user_id == g.user_id)
        (λ e. ltb after e.sequence) rows
      ∙ wanted-drop g.user_id after 0 after (events_of g.id rows) (omega arith) n.consecutive
          n.owned in
    ap (λ es. map (λ e. e.payload) (order_by_sequence es)) same
    ∙ ap (map (λ e. e.payload))
        (order-Consecutive after kept (numbered-after after _ n.consecutive))

-- What `history` sends of a numbered log.
abbrev pub unseen : ℕ → ℕ → List EventRow → List StreamEvent
unseen id after rows = map (λ e. e.payload) (drop after (events_of id rows))

reaches :
    (after total : ℕ) (es : List StreamEvent)
    → after + length es ≡ total
    → (not (is_empty es) || after == total) ≡ true
reaches after total [] h = ground arith
reaches after total (x ∷ xs) h = refl

module _ (g : Generation) (after : ℕ) (rows : List EventRow)
    (n : IsNumbered g (events_of g.id rows)) where
  pub unseen-is_contiguous : is_contiguous after (unseen g.id after rows) ≡ true
  unseen-is_contiguous =
      payloads-is_contiguous after (drop after (events_of g.id rows))
        (numbered-after after (events_of g.id rows) n.consecutive)
        (All-drop IsFaithful after (events_of g.id rows) n.faithful)

  pub unseen-last_of :
      after ≤ g.last_sequence → last_of after (unseen g.id after rows) ≡ g.last_sequence
  unseen-last_of h =
      payloads-last_of after (drop after (events_of g.id rows))
        (numbered-after after (events_of g.id rows) n.consecutive)
        (All-drop IsFaithful after (events_of g.id rows) n.faithful)
      ∙ length-drop after (events_of g.id rows) (omega (arith, n.complete, h))
      ∙ n.complete

  pub unseen-generation_id : All (λ e. e.generation_id ≡ g.id) (unseen g.id after rows)
  unseen-generation_id =
      payloads-generation_id g.id (drop after (events_of g.id rows))
        (All-drop IsFaithful after (events_of g.id rows) n.faithful)
        (All-drop (λ e. e.generation_id ≡ g.id) after (events_of g.id rows)
          (events_of-id g.id rows))

  unseen-reaches :
      after ≤ g.last_sequence
      → (not (is_empty (unseen g.id after rows)) || after == g.last_sequence) ≡ true
  unseen-reaches h = reaches after g.last_sequence (unseen g.id after rows) (
      ap (λ k. after + k) (length-map (drop after (events_of g.id rows)) (λ e. e.payload))
      ∙ length-drop after (events_of g.id rows) (omega (arith, n.complete, h))
      ∙ n.complete)

answer-events :
    (g : Generation) (content blocks : String) (after : ℕ) (es : List StreamEvent)
    → is_contiguous after es ≡ true
    → (not (is_empty es) || after == g.last_sequence) ≡ true
    → is_terminal g.status ≡ false
    → answer g content blocks after es ≡ events es (last_of after es)
unfolding answer
answer-events g content blocks after es c r t = rw (c, r, t) refl

history_found :
    (user_id id after : ℕ) (db : Tables) (g : Generation) (m : Message)
    → first_where (λ g. g.id == id && g.user_id == user_id) db.generations ≡ some g
    → first_where (λ m. m.id == g.response_message_id) db.messages ≡ some m
    → history user_id id after db
      ≡ ok (answer g m.content m.blocks after (events_after user_id id after db.events))
unfolding history
history_found user_id id after db g m f h = rw (f, h, history) refl

-- What `history` answers, from the events of the log.
pub history-answer :
    (user_id id after : ℕ) (db : Tables) (g : Generation) (m : Message)
    → first_where (λ g. g.id == id && g.user_id == user_id) db.generations ≡ some g
    → first_where (λ m. m.id == g.response_message_id) db.messages ≡ some m
    → IsNumbered g (events_of g.id db.events)
    → history user_id id after db
      ≡ ok (answer g m.content m.blocks after (unseen g.id after db.events))
history-answer user_id id after db g m f h n =
    let own = first_where-holds _ db.generations f in
    let ids : g.id ≡ id = ground arith in
    let users : g.user_id ≡ user_id = ground arith in
    let read : events_after user_id id after db.events ≡ unseen g.id after db.events =
      subst (λ u. events_after u id after db.events ≡ unseen g.id after db.events) users
        (subst (λ i. events_after g.user_id i after db.events ≡ unseen g.id after db.events) ids
          (events_after-drop g after db.events n)) in
    history_found user_id id after db g m f h
    ∙ ap (λ es. ok (answer g m.content m.blocks after es)) read

-- While a generation is active, and its log is numbered, a client that has seen the events up to
-- `after`, no more than there are, is sent all the events after that, in order and none twice, and
-- with them the number of the last event.
pub history-unseen :
    (user_id id after : ℕ) (db : Tables) (g : Generation) (m : Message)
    → first_where (λ g. g.id == id && g.user_id == user_id) db.generations ≡ some g
    → first_where (λ m. m.id == g.response_message_id) db.messages ≡ some m
    → is_terminal g.status ≡ false
    → IsNumbered g (events_of g.id db.events)
    → after ≤ g.last_sequence
    → history user_id id after db ≡ ok (events (unseen g.id after db.events) g.last_sequence)
history-unseen user_id id after db g m f h t n le =
    let whole = unseen g.id after db.events in
    history-answer user_id id after db g m f h n
    ∙ ap ok (
        answer-events g m.content m.blocks after whole (unseen-is_contiguous g after db.events n)
          (unseen-reaches g after db.events n le) t
        ∙ ap (events whole) (unseen-last_of g after db.events n le))
