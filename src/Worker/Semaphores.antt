-- ===== src/Worker/Semaphores.antt =====
-- apps/worker/src/chat/generation-reliability.service.ts: the leases that bound how many generations
-- run at once, in all, for a provider and for a user. A key of Redis holds a sorted set of tokens by
-- the time at which they expire; the limit of a key is one of the environment's. The life of a key
-- itself (PEXPIRE) outlasts its leases and is left out.
use gist_agent.Base.{
  ℕ, Bool, true, false, not, ◌&&◌, List, [], ◌∷◌, ◌++◌, if◌then◌else◌, ltb, leb, ◌==◌, any, length,
  rows_where, update_where, count_where,
}

pub record Lease : Type 0 where
  pub token : ℕ
  pub expires : ℕ

pub record Gate : Type 0 where
  pub key : ℕ
  pub limit : ℕ
  pub leases : List Lease

abbrev pub has_key : List ℕ → ℕ → Bool
has_key keys k = any (λ x. x == k) keys

-- `ZREMRANGEBYSCORE key -inf now`.
abbrev pub purge : ℕ → Gate → Gate
purge now g = record g { leases = rows_where (λ l. ltb now l.expires) g.leases }

-- `ZADD key expires token`.
abbrev pub put_lease : ℕ → ℕ → List Lease → List Lease
put_lease token expires leases =
    if any (λ l. l.token == token) leases
    then update_where (λ l. l.token == token) (λ l. record l { expires = expires }) leases
    else leases ++ record { token = token; expires = expires } ∷ []

abbrev pub add_lease : ℕ → ℕ → Gate → Gate
add_lease token expires g = record g { leases = put_lease token expires g.leases }

abbrev pub is_full : ℕ → Gate → Bool
is_full k g = g.key == k && leb g.limit (length g.leases)

-- The first loop of `acquire`: whether every key has room, and the gates.
unfoldable pub make_room : ℕ → List ℕ → List Gate → Bool × List Gate
make_room now [] gs = (true, gs)
make_room now (k ∷ ks) gs =
    let purged = update_where (λ g. g.key == k) (purge now) gs in
    elim (any (is_full k) purged) [ true ↦ (false, purged) | false ↦ make_room now ks purged ]

-- One attempt of `acquire`, atomic in Redis.
unfoldable pub acquire : ℕ → ℕ → ℕ → List ℕ → List Gate → Bool × List Gate
unfolding make_room
acquire now expires token keys gs =
    if (make_room now keys gs).0
    then (
      true,
      update_where (λ g. has_key keys g.key) (add_lease token expires) (make_room now keys gs).1,
    )
    else (false, (make_room now keys gs).1)

-- `renew`: whether the lease was still held under every key, and the gates.
abbrev pub holds_lease : ℕ → List ℕ → Gate → Bool
holds_lease token keys g = has_key keys g.key && any (λ l. l.token == token) g.leases

unfoldable pub renew : ℕ → ℕ → List ℕ → List Gate → Bool × List Gate
renew expires token keys gs = (
  count_where (holds_lease token keys) gs == length keys,
  update_where (holds_lease token keys) (add_lease token expires) gs,
)

-- `release`.
unfoldable pub release : ℕ → List ℕ → List Gate → List Gate
release token keys gs =
    update_where (λ g. has_key keys g.key)
      (λ g. record g { leases = rows_where (λ l. not (l.token == token)) g.leases }) gs

-- What the workers ask of Redis, in any order.
pub data Call : Type 0 where
  acquires : (now expires token : ℕ) → List ℕ → Call
  renews : (expires token : ℕ) → List ℕ → Call
  releases : (token : ℕ) → List ℕ → Call

unfoldable pub after_call : Call → List Gate → List Gate
unfolding acquire renew release
after_call (acquires now expires token keys) gs = (acquire now expires token keys gs).1
after_call (renews expires token keys) gs = (renew expires token keys gs).1
after_call (releases token keys) gs = release token keys gs

unfoldable pub after_calls : List Call → List Gate → List Gate
unfolding after_call
after_calls [] gs = gs
after_calls (c ∷ cs) gs = after_calls cs (after_call c gs)
