-- ===== src/Relay/Rounds.antt =====
-- What one round of the relay takes.
use gist_agent.Base.{
  ℕ, zero, suc, ◌≤◌, none, Bool, true, false, List, [], ◌∷◌, ◌≡◌, sym, ◌∙◌, ==_refl, subst, arith,
  ◌⊎◌, inl, inr, Bool-cases, ltb, leb, any, take, rows_where,
}
use gist_agent.Contracts.{StreamEvent}
use gist_agent.Database.{event}
use gist_agent.Relay.Dispatch.{Job, is_prior, is_candidate, insert_by_age, order_by_age, candidates}

-- Membership.
abbrev pub In : Job → List Job → Type 0
In j [] = ⊥
In j (k ∷ ks) = (j ≡ k) ⊎ In j ks

In-rows_where :
    (p : Job → Bool) (js : List Job) (j : Job) → In j (rows_where p js) → In j js × (p j ≡ true)
In-rows_where p [] j h = absurd h
In-rows_where p (k ∷ ks) j h = elim (Bool-cases (p k)) [
  | inr b ↦ let (i, q) = In-rows_where p ks j (rw b at h) in (inr i, q)
  | inl b ↦ elim (kept p k ks j b h) [
    | inl e ↦ (inl e, subst (λ x. p x ≡ true) (sym e) b)
    | inr i ↦ let (m, q) = In-rows_where p ks j i in (inr m, q)
  ]
]
  where
    kept :
        (p : Job → Bool) (k : Job) (ks : List Job) (j : Job)
        → p k ≡ true
        → In j (rows_where p (k ∷ ks))
        → (j ≡ k) ⊎ In j (rows_where p ks)
    kept p k ks j b h = rw b at h

In-insert_by_age :
    (j : Job) (ks : List Job) (x : Job) → In x (insert_by_age j ks) → (x ≡ j) ⊎ In x ks
In-insert_by_age j [] x h = h
In-insert_by_age j (k ∷ ks) x h = elim (Bool-cases (leb j.created_at k.created_at)) [
  | inl b ↦ rw b at h
  | inr b ↦ elim (later j k ks x b h) [
    | inl e ↦ inr (inl e)
    | inr i ↦ elim (In-insert_by_age j ks x i) [ inl e ↦ inl e | inr m ↦ inr (inr m) ]
  ]
]
  where
    later :
        (j k : Job) (ks : List Job) (x : Job)
        → leb j.created_at k.created_at ≡ false
        → In x (insert_by_age j (k ∷ ks))
        → (x ≡ k) ⊎ In x (insert_by_age j ks)
    later j k ks x b h = rw b at h

In-order_by_age : (js : List Job) (x : Job) → In x (order_by_age js) → In x js
In-order_by_age [] x h = absurd h
In-order_by_age (j ∷ js) x h = elim (In-insert_by_age j (order_by_age js) x h) [
  | inl e ↦ inl e
  | inr i ↦ inr (In-order_by_age js x i)
]

In-take : (n : ℕ) (js : List Job) (x : Job) → In x (take n js) → In x js
In-take zero js x h = absurd h
In-take (suc n) [] x h = absurd h
In-take (suc n) (j ∷ js) x h = elim h [ inl e ↦ inl e | inr i ↦ inr (In-take n js x i) ]

any-In : (p : Job → Bool) (js : List Job) (x : Job) → any p js ≡ false → In x js → p x ≡ false
any-In p [] x h i = absurd i
any-In p (j ∷ js) x h i = elim i [
  | inl e ↦ subst (λ k. p k ≡ false) (sym e) (ground arith)
  | inr m ↦ any-In p js x (ground arith) m
]

candidates-In :
    (now : ℕ) (jobs : List Job) (j : Job)
    → In j (candidates now jobs)
    → In j jobs × (is_candidate now jobs j ≡ true)
unfolding candidates
candidates-In now jobs j h =
    In-rows_where (is_candidate now jobs) jobs j (
      In-order_by_age _ j (In-take 20 (order_by_age (rows_where (is_candidate now jobs) jobs)) j h))

-- An event that a round takes has no waiting event of its generation before it.
not-prior :
    (now : ℕ) (jobs : List Job) (j k : Job)
    → In j (candidates now jobs)
    → In k jobs
    → is_prior j k ≡ false
not-prior now jobs j k hj hk =
    let (i, c) = candidates-In now jobs j hj in any-In (is_prior j) jobs k (ground arith) hk

is_prior-event :
    (j k : Job) (u v n m : ℕ) (p q : StreamEvent)
    → k.published_at ≡ none
    → k.dead_lettered_at ≡ none
    → k.aggregate_id ≡ j.aggregate_id
    → j.delivery ≡ event u n p
    → k.delivery ≡ event v m q
    → is_prior j k ≡ ltb m n
is_prior-event j k u v n m p q h d a e f =
    rw (a, e, f, h, d) (ground (arith, ==_refl j.aggregate_id))

candidates-waiting :
    (now : ℕ) (jobs : List Job) (j : Job)
    → In j (candidates now jobs)
    → (j.published_at ≡ none) × (j.dead_lettered_at ≡ none)
candidates-waiting now jobs j h = ground (arith, (candidates-In now jobs j h).1)

-- Where a round takes an event of a generation, and a row of the outbox is an event of the same
-- generation that is neither published nor dead-lettered, the event that is taken has the smaller number,
-- or the two have the same one; and where their numbers differ, the round does not take the other one.
pub candidates-first :
    (now : ℕ) (jobs : List Job) (j k : Job) (u v n m : ℕ) (p q : StreamEvent)
    → In j (candidates now jobs)
    → In k jobs
    → k.published_at ≡ none
    → k.dead_lettered_at ≡ none
    → k.aggregate_id ≡ j.aggregate_id
    → j.delivery ≡ event u n p
    → k.delivery ≡ event v m q
    → (n ≤ m) × ((m ≡ n) ⊎ ¬ In k (candidates now jobs))
candidates-first now jobs j k u v n m p q hj hk h d a e f =
    let below : ltb m n ≡ false =
      sym (is_prior-event j k u v n m p q h d a e f) ∙ not-prior now jobs j k hj hk in
    (
      ground arith,
      elim (Bool-cases (ltb n m)) [
        | inl b ↦ inr (λ taken. absurd (apart b taken))
        | inr b ↦ inl (ground arith)
      ],
    )
  where
    apart : ltb n m ≡ true → In k (candidates now jobs) → ⊥
    apart b taken =
        let (x, y) = candidates-waiting now jobs j hj in
        let before = is_prior-event k j v u m n q p x y (sym a) f e in
        let not_before = not-prior now jobs k j taken ((candidates-In now jobs j hj).0) in
        cc (sym b ∙ sym before ∙ not_before)
