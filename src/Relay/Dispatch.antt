-- ===== src/Relay/Dispatch.antt =====
-- `dispatch` of apps/api/src/chat/outbox-relay.service.ts: which rows of the outbox a round takes, and
-- what becomes of each.
use gist_agent.Base.{
  ℕ, ◌+◌, ◌*◌, ◌^◌, min, String, Option, none, some, Bool, true, false, not, ◌&&◌, List, [], ◌∷◌,
  if◌then◌else◌, ltb, leb, ◌==◌, is_none, is_some_eq, any, take, rows_where, update_where,
}
use gist_agent.Database.{Delivery, event}

-- `outbox_event` with the columns of its delivery.
pub record Job : Type 0 where
  pub id : ℕ
  pub aggregate_id : ℕ
  pub delivery : Delivery
  pub attempts : ℕ
  pub last_error : Option String
  pub created_at : ℕ
  pub published_at : Option ℕ
  pub dead_lettered_at : Option ℕ
  pub next_attempt_at : ℕ
  pub locked_at : Option ℕ
  pub lock_token : Option ℕ

-- `published_at IS NULL AND dead_lettered_at IS NULL`.
abbrev pub is_waiting : Job → Bool
is_waiting j = is_none j.published_at && is_none j.dead_lettered_at

-- `prior` is an event of the same generation that waits, with a smaller number.
abbrev pub precedes : Delivery → Delivery → Bool
precedes (event u n p) (event v m q) = ltb n m
precedes _ _ = false

abbrev pub is_prior : Job → Job → Bool
is_prior candidate prior =
    prior.aggregate_id == candidate.aggregate_id
    && is_waiting prior
    && precedes prior.delivery candidate.delivery

-- `locked_at IS NULL OR locked_at < NOW() - INTERVAL '30 seconds'`.
abbrev is_free : ℕ → Option ℕ → Bool
is_free now none = true
is_free now (some t) = ltb (t + 30000) now

abbrev pub is_candidate : ℕ → List Job → Job → Bool
is_candidate now jobs j =
    is_waiting j
    && leb j.next_attempt_at now
    && not (any (is_prior j) jobs)
    && is_free now j.locked_at

-- `ORDER BY candidate.created_at … LIMIT 20`.
abbrev pub insert_by_age : Job → List Job → List Job
insert_by_age j [] = j ∷ []
insert_by_age j (k ∷ ks) =
    if leb j.created_at k.created_at then j ∷ k ∷ ks else k ∷ insert_by_age j ks

abbrev pub order_by_age : List Job → List Job
order_by_age [] = []
order_by_age (j ∷ js) = insert_by_age j (order_by_age js)

unfoldable pub candidates : ℕ → List Job → List Job
candidates now jobs = take 20 (order_by_age (rows_where (is_candidate now jobs) jobs))

-- The update that locks the candidates.
unfoldable pub lock_jobs : ℕ → ℕ → List Job → List Job
unfolding candidates
lock_jobs now token jobs =
    update_where (λ j. any (λ c. c.id == j.id) (candidates now jobs))
      (λ j. record j { locked_at = some now; lock_token = some token }) jobs

-- The row after its delivery.
unfoldable pub mark_published : ℕ → ℕ → ℕ → List Job → List Job
mark_published id now token jobs =
    update_where (λ j. j.id == id && is_some_eq j.lock_token token && is_none j.published_at)
      (λ j. record j {
        published_at = some now;
        attempts = j.attempts + 1;
        last_error = none;
        locked_at = none;
        lock_token = none;
      })
      jobs

-- The row after a delivery that failed; `attempts` is the count that was read, and an error whose text
-- starts with INVALID_ is not tried again.
unfoldable pub mark_failed : ℕ → ℕ → ℕ → ℕ → String → Bool → List Job → List Job
mark_failed id attempts now token error dead jobs =
    update_where (λ j. j.id == id && is_some_eq j.lock_token token)
      (λ j. record j {
        attempts = attempts + 1;
        last_error = some error;
        next_attempt_at = now + min 60000 (500 * 2 ^ (attempts + 1));
        locked_at = none;
        lock_token = none;
        dead_lettered_at = if dead then some now else j.dead_lettered_at;
      })
      jobs
