-- ===== src/Worker/Limits.antt =====
-- The leases of a key against its limit, for apps/worker/src/chat/generation-reliability.service.ts.
use gist_agent.Base.{
  ℕ, ◌+◌, ◌≤◌, ◌<◌, Bool, true, false, not, List, [], ◌∷◌, ◌≡◌, refl, sym, ap, ◌∙◌, subst, ==_refl,
  &&-eq-true, arith, Bool-cases, inl, inr, ltb, ◌==◌, any, All, All-both, All-update_where, length,
  length-append, rows_where, update_where,
}
use gist_agent.Worker.Semaphores.{
  Lease, Gate, has_key, purge, put_lease, add_lease, is_full, make_room, acquire, renew, release,
  holds_lease, Call, acquires, renews, releases, after_call, after_calls,
}

abbrev pub IsBounded : Gate → Type 0
IsBounded g = length g.leases ≤ g.limit

abbrev HasRoom : ℕ → Gate → Type 0
HasRoom k g = (k == g.key) ≡ true → length g.leases < g.limit

rows_where-le : {A : Type 0} (p : A → Bool) (xs : List A) → length (rows_where p xs) ≤ length xs
rows_where-le p [] = omega arith
rows_where-le p (x ∷ xs) = ground (arith, rows_where-le p xs)

update_where-length :
    {A : Type 0} (p : A → Bool) (f : A → A) (xs : List A) → length (update_where p f xs) ≡ length xs
update_where-length p f [] = refl
update_where-length p f (x ∷ xs) = omega (arith, update_where-length p f xs)

put_lease-le :
    (token expires : ℕ) (ls : List Lease) → length (put_lease token expires ls) ≤ length ls + 1
put_lease-le token expires ls = elim (Bool-cases (any (λ l. l.token == token) ls)) [
  | inl b ↦ rw b (omega (arith, update_where-length (λ l. l.token == token) _ ls))
  | inr b ↦
      rw b (omega (arith, length-append ls (record { token = token; expires = expires } ∷ [])))
]

put_lease-held :
    (token expires : ℕ) (ls : List Lease)
    → any (λ l. l.token == token) ls ≡ true
    → length (put_lease token expires ls) ≤ length ls
put_lease-held token expires ls b =
    rw b (omega (arith, update_where-length (λ l. l.token == token) _ ls))

purge-IsBounded :
    (now : ℕ) (p : Gate → Bool) (gs : List Gate)
    → All IsBounded gs
    → All IsBounded (update_where p (purge now) gs)
purge-IsBounded now p gs h =
    All-update_where IsBounded IsBounded p (purge now)
      (λ g k _. omega (arith, rows_where-le (λ l. ltb now l.expires) g.leases, k)) (λ g k _. k) gs h

purge-HasRoom :
    (now k : ℕ) (p : Gate → Bool) (gs : List Gate)
    → All (HasRoom k) gs
    → All (HasRoom k) (update_where p (purge now) gs)
purge-HasRoom now k p gs h =
    All-update_where (HasRoom k) (HasRoom k) p (purge now)
      (λ g r _ e. omega (arith, rows_where-le (λ l. ltb now l.expires) g.leases, r e)) (λ g r _. r)
      gs h

not_full-HasRoom : (k : ℕ) (gs : List Gate) → any (is_full k) gs ≡ false → All (HasRoom k) gs
not_full-HasRoom k [] h = tt
not_full-HasRoom k (g ∷ gs) h = (λ e. ground arith, not_full-HasRoom k gs (ground arith))

-- The gates when a key has been looked at.
abbrev purged : ℕ → ℕ → List Gate → List Gate
purged now k gs = update_where (λ g. g.key == k) (purge now) gs

make_room-full :
    (now k : ℕ) (ks : List ℕ) (gs : List Gate)
    → any (is_full k) (purged now k gs) ≡ true
    → make_room now (k ∷ ks) gs ≡ (false, purged now k gs)
unfolding make_room
make_room-full now k ks gs b = rw (b, make_room) refl

make_room-next :
    (now k : ℕ) (ks : List ℕ) (gs : List Gate)
    → any (is_full k) (purged now k gs) ≡ false
    → make_room now (k ∷ ks) gs ≡ make_room now ks (purged now k gs)
unfolding make_room
make_room-next now k ks gs b = rw (b, make_room) refl

-- What purging keeps, the first loop keeps.
module _ (P : Gate → Type 0)
    (keep : (now k : ℕ) (gs : List Gate) → All P gs → All P (purged now k gs)) where
  make_room_nil : (now : ℕ) (gs : List Gate) → All P gs → All P (make_room now [] gs).1
  unfolding make_room
  make_room_nil now gs h = h

  make_room-All :
      (now : ℕ) (ks : List ℕ) (gs : List Gate) → All P gs → All P (make_room now ks gs).1
  make_room-All now [] gs h = make_room_nil now gs h
  make_room-All now (k ∷ ks) gs h = elim (Bool-cases (any (is_full k) (purged now k gs))) [
    | inl b ↦ subst (λ r. All P r.1) (sym (make_room-full now k ks gs b)) (keep now k gs h)
    | inr b ↦
        subst (λ r. All P r.1) (sym (make_room-next now k ks gs b))
          (make_room-All now ks (purged now k gs) (keep now k gs h))
  ]

not_made :
    (now k : ℕ) (ks : List ℕ) (gs : List Gate)
    → any (is_full k) (purged now k gs) ≡ true
    → (make_room now (k ∷ ks) gs).0 ≡ true
    → ⊥
not_made now k ks gs b r =
    let q : false ≡ true = ap (λ p. p.0) (sym (make_room-full now k ks gs b)) ∙ r in cc

-- Where the first loop succeeds, every key has room.
make_room-HasRoom :
    (now j : ℕ) (ks : List ℕ) (gs : List Gate)
    → (make_room now ks gs).0 ≡ true
    → has_key ks j ≡ true
    → All (HasRoom j) (make_room now ks gs).1
make_room-HasRoom now j [] gs r h = cc
make_room-HasRoom now j (k ∷ ks) gs r h = elim (Bool-cases (any (is_full k) (purged now k gs))) [
  | inl b ↦ absurd (not_made now k ks gs b r)
  | inr b ↦
      subst (λ p. All (HasRoom j) p.1) (sym (make_room-next now k ks gs b))
        (elim (Bool-cases (k == j)) [
          | inl e ↦
              make_room-All (HasRoom j) (λ n i xs. purge-HasRoom n j (λ g. g.key == i) xs) now ks
                (purged now k gs)
                (subst (λ i. All (HasRoom i) (purged now k gs)) (ground arith)
                  (not_full-HasRoom k (purged now k gs) b))
          | inr e ↦
              make_room-HasRoom now j ks (purged now k gs)
                (ap (λ p. p.0) (sym (make_room-next now k ks gs b)) ∙ r) (ground arith)
        ])
]

-- Room under each of the keys, at each gate.
abbrev RoomAt : List ℕ → Gate → Type 0
RoomAt ks g = has_key ks g.key ≡ true → length g.leases < g.limit

gate-room :
    (ks : List ℕ) (gs : List Gate)
    → ((j : ℕ) → has_key ks j ≡ true → All (HasRoom j) gs)
    → All (RoomAt ks) gs
gate-room ks [] h = tt
gate-room ks (g ∷ gs) h = ((λ e. (h g.key e).0 (==_refl g.key)), gate-room ks gs (λ j e. (h j e).1))

acquire-IsBounded :
    (now expires token : ℕ) (ks : List ℕ) (gs : List Gate)
    → All IsBounded gs
    → All IsBounded (acquire now expires token ks gs).1
unfolding acquire
acquire-IsBounded now expires token ks gs h =
    let kept : All IsBounded (make_room now ks gs).1 =
      make_room-All IsBounded (λ n i xs. purge-IsBounded n (λ g. g.key == i) xs) now ks gs h in
    elim (Bool-cases (make_room now ks gs).0) [
      | inr b ↦ rw b kept
      | inl b ↦ rw b (
          All-update_where (λ g. IsBounded g × RoomAt ks g) IsBounded (λ g. has_key ks g.key)
            (add_lease token expires)
            (λ g k e. omega (arith, put_lease-le token expires g.leases, k.1 e)) (λ g k _. k.0) _
            (All-both IsBounded (RoomAt ks) _ kept
              (gate-room ks _ (λ j e. make_room-HasRoom now j ks gs b e))))
    ]

renew-IsBounded :
    (expires token : ℕ) (ks : List ℕ) (gs : List Gate)
    → All IsBounded gs
    → All IsBounded (renew expires token ks gs).1
unfolding renew
renew-IsBounded expires token ks gs h =
    All-update_where IsBounded IsBounded (holds_lease token ks) (add_lease token expires)
      (λ g k e. omega (arith, put_lease-held token expires g.leases ((&&-eq-true _ _ e).1), k))
      (λ g k _. k) gs h

release-IsBounded :
    (token : ℕ) (ks : List ℕ) (gs : List Gate)
    → All IsBounded gs
    → All IsBounded (release token ks gs)
unfolding release
release-IsBounded token ks gs h =
    All-update_where IsBounded IsBounded (λ g. has_key ks g.key)
      (λ g. record g { leases = rows_where (λ l. not (l.token == token)) g.leases })
      (λ g k _. omega (arith, rows_where-le (λ l. not (l.token == token)) g.leases, k)) (λ g k _. k)
      gs h

after_call-IsBounded :
    (c : Call) (gs : List Gate) → All IsBounded gs → All IsBounded (after_call c gs)
unfolding after_call
after_call-IsBounded (acquires now expires token ks) gs h =
    acquire-IsBounded now expires token ks gs h
after_call-IsBounded (renews expires token ks) gs h = renew-IsBounded expires token ks gs h
after_call-IsBounded (releases token ks) gs h = release-IsBounded token ks gs h

-- Where no key holds more leases than its limit, none does after any calls of acquire, renew and
-- release, with any times, tokens and keys.
pub after_calls-IsBounded :
    (cs : List Call) (gs : List Gate) → All IsBounded gs → All IsBounded (after_calls cs gs)
unfolding after_calls
after_calls-IsBounded [] gs h = h
after_calls-IsBounded (c ∷ cs) gs h =
    after_calls-IsBounded cs (after_call c gs) (after_call-IsBounded c gs h)
