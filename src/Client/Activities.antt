-- ===== src/Client/Activities.antt =====
-- The activity blocks of a message, for `applyBlock` of apps/web/src/stores/chat.ts.
use gist_agent.Base.{
  ℕ, ◌≤◌, String, Option, none, some, Bool, true, false, List, [], ◌∷◌, ◌++◌, ◌≡◌, refl, ap, subst,
  &&-eq-true, arith, inl, inr, Bool-cases, any, count_where, count_where-append, str_eq, eq_iff,
}
use gist_agent.Contracts.{
  EventType, text_chunk, reasoning_chunk, done, chart, chart_loading, log_update, log_remove,
  analysis_activity, analysis_activity_remove, Activity, ConversationEvent,
}
use gist_agent.Client.Blocks.{
  Block, apply_block, apply_typed, is_activity_of, opt_eq, replace_first, remove_first, change_last,
  remove_last, append_text, block_of, is_running_log, is_empty_chart, finish_log, fill_chart,
  put_activity, blank, is_activity, activity_id_of,
}

-- How many blocks show the activity.
abbrev pub shown : String → List Block → ℕ
shown id = count_where (is_activity_of (some id))

remove_first-le :
    (p q : Block → Bool) (bs : List Block) → count_where q (remove_first p bs) ≤ count_where q bs
remove_first-le p q [] = omega arith
remove_first-le p q (x ∷ xs) = ground (arith, remove_first-le p q xs)

remove_last-le :
    (p q : Block → Bool) (bs : List Block) → count_where q (remove_last p bs) ≤ count_where q bs
remove_last-le p q [] = omega arith
remove_last-le p q (x ∷ xs) = ground (arith, remove_last-le p q xs)

change_last-count :
    (p q : Block → Bool) (f : Block → Block) (bs : List Block)
    → ((b : Block) → q (f b) ≡ q b)
    → count_where q (change_last p f bs) ≡ count_where q bs
change_last-count p q f [] h = refl
change_last-count p q f (x ∷ xs) h = ground (arith, h x, change_last-count p q f xs h)

append_text-count : (id s : String) (bs : List Block) → shown id (append_text s bs) ≡ shown id bs
append_text-count id s [] = refl
append_text-count id s (x ∷ []) = ground arith
append_text-count id s (x ∷ y ∷ ys) = omega (arith, append_text-count id s (y ∷ ys))

names-activity :
    (id k : String) (o : Option String)
    → opt_eq o (some k) ≡ true
    → opt_eq o (some id) ≡ str_eq k id
names-activity id k none h = cc
names-activity id k (some j) h = ap (λ x. str_eq x id) ((eq_iff j k).0 h)

shows-activity :
    (id k : String) (b : Block)
    → is_activity_of (some k) b ≡ true
    → is_activity_of (some id) b ≡ str_eq k id
shows-activity id k b h =
    let (t, o) = &&-eq-true (is_activity b.type) (opt_eq (activity_id_of b.activity) (some k)) h in
    rw t (names-activity id k (activity_id_of b.activity) o)

replace_first-count :
    (id : String) (a : Activity) (bs : List Block)
    → shown id (
        replace_first
          (is_activity_of (some a.id))
          (record (blank analysis_activity) { activity = some a })
          bs)
      ≡ shown id bs
replace_first-count id a [] = refl
replace_first-count id a (x ∷ xs) = elim (Bool-cases (is_activity_of (some a.id) x)) [
  | inl b ↦ rw (b, shows-activity id a.id x b) refl
  | inr b ↦ rw b (ground (arith, replace_first-count id a xs))
]

shown-none :
    (id : String) (bs : List Block) → any (is_activity_of (some id)) bs ≡ false → shown id bs ≡ 0
shown-none id [] h = refl
shown-none id (x ∷ xs) h = ground (arith, shown-none id xs)

added-once :
    (id : String) (a : Activity) (bs : List Block)
    → shown id bs ≤ 1
    → any (is_activity_of (some a.id)) bs ≡ false
    → shown id (bs ++ record (blank analysis_activity) { activity = some a } ∷ []) ≤ 1
added-once id a bs h b = elim (Bool-cases (str_eq a.id id)) [
  | inl c ↦
      rw (count_where-append (is_activity_of (some id)) bs _, c)
        (omega (
          arith,
          shown-none id bs
              (subst (λ k. any (is_activity_of (some k)) bs ≡ false) ((eq_iff a.id id).0 c) b),
        ))
  | inr c ↦ rw (count_where-append (is_activity_of (some id)) bs _, c) (omega (arith, h))
]

put_activity-once :
    (id : String) (e : ConversationEvent) (o : Option Activity) (bs : List Block)
    → ((k : String) → shown k bs ≤ 1)
    → (o ≡ none → is_activity_of (some id) (block_of e) ≡ false)
    → shown id (put_activity e o bs) ≤ 1
put_activity-once id e none bs h k =
    rw (count_where-append (is_activity_of (some id)) bs (block_of e ∷ []), k refl)
      (omega (arith, h id))
put_activity-once id e (some a) bs h k = elim (Bool-cases (any (is_activity_of (some a.id)) bs)) [
  | inl b ↦ rw b (omega (arith, replace_first-count id a bs, h id))
  | inr b ↦ rw b (added-once id a bs (h id) b)
]

appended-once :
    (id : String) (b : Block) (bs : List Block)
    → shown id bs ≤ 1
    → is_activity_of (some id) b ≡ false
    → shown id (bs ++ b ∷ []) ≤ 1
appended-once id b bs h k =
    rw (count_where-append (is_activity_of (some id)) bs (b ∷ []), k) (omega (arith, h))

other-type :
    (id : String) (b : Block) (t : EventType)
    → b.type ≡ t
    → is_activity t ≡ false
    → is_activity_of (some id) b ≡ false
other-type id b t e h = ground (arith, ap is_activity e)

typed-once :
    (id : String) (t : EventType) (e : ConversationEvent) (bs : List Block)
    → e.type ≡ t
    → ((k : String) → shown k bs ≤ 1)
    → shown id (apply_typed t e bs) ≤ 1
typed-once id done e bs q h = h id
typed-once id analysis_activity e bs q h =
    put_activity-once id e e.activity bs h (λ k. ground (arith, k))
typed-once id analysis_activity_remove e bs q h =
    omega
      (arith, remove_first-le (is_activity_of e.activity_id) (is_activity_of (some id)) bs, h id)
typed-once id text_chunk e bs q h = omega (arith, append_text-count id _ bs, h id)
typed-once id reasoning_chunk e bs q h = h id
typed-once id chart_loading e bs q h = appended-once id (blank chart) bs (h id) refl
typed-once id log_update e bs q h = omega (
  arith,
  change_last-count (is_running_log e.title) (is_activity_of (some id)) (finish_log e) bs
      (λ b. refl),
  h id,
)
typed-once id log_remove e bs q h =
    omega (arith, remove_last-le _ (is_activity_of (some id)) bs, h id)
typed-once id chart e bs q h = elim (Bool-cases (any is_empty_chart bs)) [
  | inl b ↦ rw b (
      omega (
        arith,
        change_last-count is_empty_chart (is_activity_of (some id)) (fill_chart e) bs (λ b. refl),
        h id,
      ))
  | inr b ↦ rw b (appended-once id (fill_chart e (blank chart)) bs (h id) refl)
]
typed-once id t e bs q h =
    appended-once id (block_of e) bs (h id) (other-type id (block_of e) t q refl)

-- Where each activity is shown by one block of a message at most, this still holds after any event:
-- an activity that is reported again replaces its block.
pub apply_block-once :
    (e : ConversationEvent) (bs : List Block)
    → ((k : String) → shown k bs ≤ 1)
    → (id : String) → shown id (apply_block e bs) ≤ 1
unfolding apply_block
apply_block-once e bs h id = typed-once id e.type e bs refl h
