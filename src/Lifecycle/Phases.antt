-- ===== src/Lifecycle/Phases.antt =====
-- The operations that log events, taken apart: one update of the rows, and then an event for each row
-- that was ended.
use gist_agent.Base.{
  ℕ, ◌+◌, String, Option, Bool, true, false, List, [], ◌∷◌, ◌≡◌, refl, sym, ap, ◌∙◌, ◌⊎◌, inl, inr,
  arith, ok, >>=-eq-ok, ok-injective, update_where, rows_where, any, map, max, length, Bool-cases,
}
use gist_agent.Contracts.{Status, completed, ConversationEvent, is_done}
use gist_agent.Contracts.Errors.{ErrorCode}
use gist_agent.Database.{Generation, Tables}
use gist_agent.Database.Outbox.{enqueue_generation_event, promote_analysis_draft}
use gist_agent.Worker.{
  Writer, MessageState, identity_of, finalize, is_finalizable, finish, promote_if_completed,
  finish_tables,
}
use gist_agent.Worker.Publishing.{
  identity_of_row, fail_queued, fail_queued_rows, fail_stale, fail_stale_rows, is_queued, fail_row,
  is_stale, end_stale,
}

-- Tables that agree on the generations and their events.
abbrev pub SameLog : Tables → Tables → Type 0
SameLog a b = (b.generations ≡ a.generations) × (b.events ≡ a.events)

-- A closing event is logged for each of the rows, in order.
abbrev pub Closes : List Generation → Tables → Tables → Type 0
Closes [] a b = SameLog a b
Closes (g ∷ gs) a b =
    (before : Tables) × (after : Tables) × (e : ConversationEvent) × (event_id : ℕ) × (now : ℕ)
    × SameLog a before
    × (is_done e.type ≡ true)
    × (enqueue_generation_event (identity_of_row g) e event_id now before ≡ ok after)
    × Closes gs after b

-- The rows are updated, and the log is left.
abbrev pub Updated : (Generation → Bool) → (Generation → Generation) → Tables → Tables → Type 0
Updated p f a b = (b.generations ≡ update_where p f a.generations) × (b.events ≡ a.events)

promote-SameLog :
    (status : Status) (id : ℕ) (db : Tables) {next : Tables}
    → promote_if_completed status id db ≡ ok next
    → SameLog db next
unfolding promote_if_completed promote_analysis_draft
promote-SameLog completed id db h = ground arith
promote-SameLog _ id db h = ground arith

-- `finalize` finds no row and changes nothing, or it ends the rows and logs the closing event.
pub finalize-phases :
    (w : Writer) (status : Status) (error : Option String) (code : Option ErrorCode)
    (terminal : ConversationEvent) (state : Option MessageState) (event_id now : ℕ)
    (db last : Tables) (ended : Bool)
    → finalize w status error code terminal state event_id now db ≡ ok (ended, last)
    → ((ended ≡ false) × (any (is_finalizable w status) db.generations ≡ false) × (last ≡ db))
      ⊎ ((ended ≡ true)
          × (any (is_finalizable w status) db.generations ≡ true)
          × ((mid : Tables) × Updated
                (is_finalizable w status)
                (finish status error code now)
                db
                mid
              × (enqueue_generation_event (identity_of w) terminal event_id now mid ≡ ok last)))
unfolding finalize finish_tables
finalize-phases w status error code terminal state event_id now db last ended h =
    elim (Bool-cases (any (is_finalizable w status) db.generations)) [
      | inr b ↦ inl (cc (rw b at h), b, cc (rw b at h))
      | inl b ↦
          let (promoted, p, h') = >>=-eq-ok _ _ (rw b at h) in
          let (done, e, h'') = >>=-eq-ok _ _ h' in
          let q : done ≡ last = cc h'' in
          inr (
            cc h'',
            b,
            (
              finish_tables w status error state now promoted,
              promote-SameLog status w.id _ p,
              e ∙ ap ok q,
            ),
          )
    ]

fail_queued_rows-Closes :
    (gs : List Generation) (error : String) (event_id now : ℕ) (db last : Tables)
    → fail_queued_rows gs error event_id now db ≡ ok last
    → Closes gs db last
unfolding fail_queued_rows
fail_queued_rows-Closes [] error event_id now db last h =
    let q : db ≡ last = ok-injective h in
    (ap (λ t. t.generations) (sym q), ap (λ t. t.events) (sym q))
fail_queued_rows-Closes (g ∷ gs) error event_id now db last h =
    let (mid, e, h') = >>=-eq-ok _ _ h in
    (
      _,
      mid,
      _,
      event_id,
      now,
      (refl, refl),
      refl,
      e,
      fail_queued_rows-Closes gs error (event_id + 1) now mid last h',
    )

pub fail_queued-phases :
    (id : ℕ) (error : String) (event_id now : ℕ) (db last : Tables)
    → fail_queued id error event_id now db ≡ ok last
    → (mid : Tables) × Updated (is_queued id) (fail_row error now) db mid
      × Closes (rows_where (is_queued id) db.generations) mid last
unfolding fail_queued
fail_queued-phases id error event_id now db last h =
    (_, (refl, refl), fail_queued_rows-Closes _ error event_id now _ last h)

module _ (code_text : Option ErrorCode → Option String) where
  fail_stale_rows-Closes :
      (gs : List Generation) (event_id now : ℕ) (db last : Tables)
      → fail_stale_rows code_text gs event_id now db ≡ ok last
      → Closes gs db last
  unfolding fail_stale_rows
  fail_stale_rows-Closes [] event_id now db last h =
      let q : db ≡ last = ok-injective h in
      (ap (λ t. t.generations) (sym q), ap (λ t. t.events) (sym q))
  fail_stale_rows-Closes (g ∷ gs) event_id now db last h =
      let (mid, e, h') = >>=-eq-ok _ _ h in
      (
        _,
        mid,
        _,
        event_id,
        now,
        (refl, refl),
        refl,
        e,
        fail_stale_rows-Closes gs (event_id + 1) now mid last h',
      )

  pub fail_stale-phases :
      (timeout setting event_id now n : ℕ) (db last : Tables)
      → fail_stale code_text timeout setting event_id now db ≡ ok (n, last)
      → (mid : Tables) × Updated (is_stale timeout (max timeout setting) now) (end_stale now) db mid
        × Closes
            (map
              (end_stale now)
              (rows_where (is_stale timeout (max timeout setting) now) db.generations))
            mid
            last
  unfolding fail_stale
  fail_stale-phases timeout setting event_id now n db last h =
      let stale = is_stale timeout (max timeout setting) now in
      let rows = map (end_stale now) (rows_where stale db.generations) in
      let mid : Tables = record db {
        generations = update_where stale (end_stale now) db.generations;
      } in
      let (ended, e, h') =
        >>=-eq-ok (fail_stale_rows code_text rows event_id now mid)
          (λ ended. ok (length rows, ended)) h in
      let q : ended ≡ last = cc h' in
      (mid, (refl, refl), fail_stale_rows-Closes rows event_id now mid last (e ∙ ap ok q))
