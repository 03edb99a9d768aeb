-- ===== src/Lifecycle/Steps.antt =====
-- The ends of generations as moves of the rows of `generation`, and the steps of the system together.
use gist_agent.Base.{
  ℕ, String, Option, none, Bool, true, List, [], ◌∷◌, ok, ◌≡◌, refl, arith, update_where,
  Bool-cases, inl, inr, ok-injective, >>=-eq-ok, max, ◌+◌, ◌⊎◌, any, ◌||◌, not, is_some, rows_where,
  map,
}
use gist_agent.Contracts.{
  Status, pending, completed, failed, cancelled, cancel_requested, is_terminal, is_pending,
  is_completed, is_cancel_requested, is_owned, ConversationEvent,
}
use gist_agent.Contracts.Errors.{ErrorCode}
use gist_agent.Database.{Generation, Tables}
use gist_agent.Database.Outbox.{promote_analysis_draft}
use gist_agent.Turns.{Request, Draws, Created, create_turn}
use gist_agent.Worker.{
  Writer, MessageState, claim_attempt, finalize, is_finalizable, finish, promote_if_completed,
  finish_tables,
}
use gist_agent.Worker.Publishing.{
  checkpoint_message, fail_queued, fail_queued_rows, fail_stale, fail_stale_rows, is_queued,
  fail_row, is_stale, end_stale,
}
use gist_agent.Lifecycle.{
  IsFresh, Settings, Leads, here, then, complete, fail, stop, Step, creates, cancels, claims_row,
  claims_attempt, claims_run, beats, marks, checkpoints, publishes, finalizes, fails_queued,
  fails_stale, Reach, here, next,
}
use gist_agent.Lifecycle.Rows.{
  RowStep, Rows, Rows-trans, Rows-of_Moves, Moves, Moves-refl, Moves-trans, Moves-update_where,
}
use gist_agent.Lifecycle.Transitions.{
  moved, create_turn-Rows, cancel-Moves, claim_row-Moves, claim_run-Moves, heartbeat-Moves,
  mark_first_delta-Moves, enqueue-Moves, publish-Moves,
}

-- The status that `finalize` writes is reached from one that its condition accepts.
finish-Leads :
    (w : Writer) (status : Status) (s : Status)
    → is_terminal status ≡ true
    → (w.writer_token ≡ none → status ≡ cancelled)
    → ((is_owned s ≡ true)
        × (is_some w.writer_token ≡ true)
        × ((not (is_completed status) || not (is_cancel_requested s)) ≡ true))
      ⊎ ((w.writer_token ≡ none) × (s ≡ cancel_requested))
    → Leads s status
finish-Leads w completed s t c (inl (o, k, m)) = then here (complete (ground arith))
finish-Leads w failed s t c (inl (o, k, m)) = then here (fail (ground arith))
finish-Leads w cancelled s t c (inl (o, k, m)) = then here (stop (ground arith))
finish-Leads w cancelled s t c (inr (n, e)) = then here (stop (ground arith))
finish-Leads w completed s t c (inr (n, e)) = cc (c n)
finish-Leads w failed s t c (inr (n, e)) = cc (c n)
finish-Leads w pending s t c o = cc
finish-Leads w _ s t c o = cc

finalizable-cases :
    (w : Writer) (status : Status) (g : Generation)
    → is_finalizable w status g ≡ true
    → ((is_owned g.status ≡ true)
        × (is_some w.writer_token ≡ true)
        × ((not (is_completed status) || not (is_cancel_requested g.status)) ≡ true))
      ⊎ ((w.writer_token ≡ none) × (g.status ≡ cancel_requested))
finalizable-cases w status g h = ground arith

generations-promote :
    (status : Status) (id : ℕ) (db : Tables) {next : Tables}
    → promote_if_completed status id db ≡ ok next
    → next.generations ≡ db.generations
unfolding promote_if_completed promote_analysis_draft
generations-promote completed id db h = ground arith
generations-promote _ id db h = ground arith

pub finish-Moves :
    (w : Writer) (status : Status) (error : Option String) (code : Option ErrorCode) (now : ℕ)
    (gs : List Generation)
    → is_terminal status ≡ true
    → (w.writer_token ≡ none → status ≡ cancelled)
    → Moves gs (update_where (is_finalizable w status) (finish status error code now) gs)
finish-Moves w status error code now gs t c =
    Moves-update_where (is_finalizable w status) (finish status error code now)
      (λ g k.
        moved _ _ (refl, refl, refl, refl, refl)
          (finish-Leads w status g.status t c (finalizable-cases w status g k)))
      gs

pub finalize-Moves :
    (w : Writer) (status : Status) (error : Option String) (code : Option ErrorCode)
    (terminal : ConversationEvent) (state : Option MessageState) (event_id now : ℕ) (db : Tables)
    {ended : Bool} {next : Tables}
    → is_terminal status ≡ true
    → (w.writer_token ≡ none → status ≡ cancelled)
    → finalize w status error code terminal state event_id now db ≡ ok (ended, next)
    → Moves db.generations next.generations
unfolding finalize finish_tables
finalize-Moves w status error code terminal state event_id now db {ended} {next} t c h =
    elim (Bool-cases (any (is_finalizable w status) db.generations)) [
      | inr b ↦ let q : next ≡ db = cc (rw b at h) in rw q (Moves-refl _)
      | inl b ↦
          let (promoted, p, h') = >>=-eq-ok _ _ (rw b at h) in
          let (done, e, h'') = >>=-eq-ok _ _ h' in
          let q : done ≡ next = cc h'' in
          Moves-trans _ _ _ (finish-Moves w status error code now db.generations t c) (
            rw (← generations-promote status w.id _ p, ← q)
              (enqueue-Moves _ terminal event_id now _ e))
    ]

fail-Leads : (s : Status) → is_pending s ≡ true → Leads s failed
fail-Leads pending h = then here (fail refl)
fail-Leads s h = cc

pub fail_row-Moves :
    (id : ℕ) (error : String) (now : ℕ) (gs : List Generation)
    → Moves gs (update_where (is_queued id) (fail_row error now) gs)
fail_row-Moves id error now gs =
    Moves-update_where (is_queued id) (fail_row error now)
      (λ g k. moved _ _ (refl, refl, refl, refl, refl) (fail-Leads g.status (ground arith))) gs

fail_queued_rows-Moves :
    (gs : List Generation) (error : String) (event_id now : ℕ) (db : Tables) {next : Tables}
    → fail_queued_rows gs error event_id now db ≡ ok next
    → Moves db.generations next.generations
unfolding fail_queued_rows
fail_queued_rows-Moves [] error event_id now db h =
    let q : _ ≡ _ = ok-injective h in rw (← q) (Moves-refl _)
fail_queued_rows-Moves (g ∷ gs) error event_id now db h =
    let (mid, e, h') = >>=-eq-ok _ _ h in
    Moves-trans _ _ _ (enqueue-Moves _ _ event_id now _ e)
      (fail_queued_rows-Moves gs error (event_id + 1) now mid h')

pub fail_queued-Moves :
    (id : ℕ) (error : String) (event_id now : ℕ) (db : Tables) {next : Tables}
    → fail_queued id error event_id now db ≡ ok next
    → Moves db.generations next.generations
unfolding fail_queued
fail_queued-Moves id error event_id now db h =
    Moves-trans _ _ _ (fail_row-Moves id error now db.generations)
      (fail_queued_rows-Moves (rows_where (is_queued id) db.generations) error event_id now _ h)

stale-leads :
    (timeout pending_timeout now : ℕ) (g : Generation)
    → is_stale timeout pending_timeout now g ≡ true
    → RowStep g (end_stale now g)
stale-leads timeout pending_timeout now g h = elim (Bool-cases (is_cancel_requested g.status)) [
  | inl c ↦ moved _ _ (refl, refl, refl, refl, refl) (rw c (then here (stop (ground arith))))
  | inr c ↦ moved _ _ (refl, refl, refl, refl, refl) (rw c (then here (fail (ground arith))))
]

pub end_stale-Moves :
    (timeout pending_timeout now : ℕ) (gs : List Generation)
    → Moves gs (update_where (is_stale timeout pending_timeout now) (end_stale now) gs)
end_stale-Moves timeout pending_timeout now gs =
    Moves-update_where (is_stale timeout pending_timeout now) (end_stale now)
      (λ g k. stale-leads timeout pending_timeout now g k) gs

module _ (code_text : Option ErrorCode → Option String) where
  fail_stale_rows-Moves :
      (gs : List Generation) (event_id now : ℕ) (db : Tables) {next : Tables}
      → fail_stale_rows code_text gs event_id now db ≡ ok next
      → Moves db.generations next.generations
  unfolding fail_stale_rows
  fail_stale_rows-Moves [] event_id now db h =
      let q : _ ≡ _ = ok-injective h in rw (← q) (Moves-refl _)
  fail_stale_rows-Moves (g ∷ gs) event_id now db h =
      let (mid, e, h') = >>=-eq-ok _ _ h in
      Moves-trans _ _ _ (enqueue-Moves _ _ event_id now _ e)
        (fail_stale_rows-Moves gs (event_id + 1) now mid h')

  pub fail_stale-Moves :
      (timeout setting event_id now : ℕ) (db : Tables) {n : ℕ} {next : Tables}
      → fail_stale code_text timeout setting event_id now db ≡ ok (n, next)
      → Moves db.generations next.generations
  unfolding fail_stale
  fail_stale-Moves timeout setting event_id now db {n} {next} h =
      let stale = is_stale timeout (max timeout setting) now in
      let (ended, e, h') = >>=-eq-ok _ _ h in
      let q : ended ≡ next = cc h' in
      rw (← q) (
        Moves-trans _ _ _ (end_stale-Moves timeout (max timeout setting) now db.generations) (
          fail_stale_rows-Moves (map (end_stale now) (rows_where stale db.generations)) event_id now
            _ e))

-- A step that creates no generation moves those there are.
abbrev pub Creates : Settings → Tables → Tables → Type 0
Creates settings db last =
    (r : Request) × (d : Draws) × (c : Created) × (d.limit ≡ settings.limit)
    × IsFresh d.id db
    × (create_turn r d db ≡ ok (c, last))

pub Step-cases :
    {settings : Settings} {db last : Tables}
    → Step settings db last
    → Creates settings db last ⊎ Moves db.generations last.generations
unfolding claim_attempt checkpoint_message
Step-cases (creates r d c l f h) = inl (r, d, c, l, f, h)
Step-cases {db = db} (cancels user_id id now h) = inr (cancel-Moves user_id id now db h)
Step-cases {db = db} (claims_row id token now) = inr (claim_row-Moves id token now db)
Step-cases {db = db} (claims_attempt id token) = inr (Moves-refl _)
Step-cases {db = db} (claims_run id token now) = inr (claim_run-Moves id token now db)
Step-cases {db = db} (beats id token now) = inr (heartbeat-Moves id token now db)
Step-cases {db = db} (marks w now) = inr (mark_first_delta-Moves w now db)
Step-cases {db = db} {last = last} (checkpoints w blocks llm h) =
    let q : last.generations ≡ db.generations = ground arith in inr (rw q (Moves-refl _))
Step-cases {db = db} (publishes w e event_id now v d h) = inr (publish-Moves w e event_id now db h)
Step-cases {db = db} (finalizes w status error code terminal state event_id now v t c d h) =
    inr (finalize-Moves w status error code terminal state event_id now db t c h)
Step-cases {db = db} (fails_queued id error event_id now h) =
    inr (fail_queued-Moves id error event_id now db h)
Step-cases {settings} {db = db} (fails_stale timeout setting event_id now h) =
    inr (fail_stale-Moves settings.code_text timeout setting event_id now db h)

-- One step of the system takes every generation along the diagram, and a new one starts pending.
pub Step-Rows :
    {settings : Settings} {db last : Tables}
    → Step settings db last
    → Rows db.generations last.generations
Step-Rows {db = db} s = elim (Step-cases s) [
  | inl (r, d, c, l, f, h) ↦ create_turn-Rows r d c db h
  | inr m ↦ Rows-of_Moves _ _ m
]

pub Reach-Rows :
    {settings : Settings} {db last : Tables}
    → Reach settings db last
    → Rows db.generations last.generations
Reach-Rows here = Rows-of_Moves _ _ (Moves-refl _)
Reach-Rows (next r s) = Rows-trans _ _ _ (Reach-Rows r) (Step-Rows s)
