-- ===== src/Lifecycle/Settling.antt =====
-- One execution of a generation (Worker/Run) to its end: how the calls of `finalize` follow on one
-- another.
use gist_agent.Base.{
  is_some, String, Option, none, some, Bool, true, false, not, ◌&&◌, List, if◌then◌else◌,
  Bool-cases, inl, inr, any, All, Result, ok, err, ◌≡◌, refl, sym, subst,
}
use gist_agent.Contracts.{failed, cancelled, is_terminal, is_completed, ConversationEvent}
use gist_agent.Database.{Tables, Fault}
use gist_agent.Worker.{Writer, is_finalizable, is_cancel_wanted}
use gist_agent.Worker.Run.{
  Execution, Ending, Draw, Thrown, is_state_fault, ending_of, ending_by, failure_of,
  normalize_generation_error, conflict_ending, cancelled_ending, cause_of, is_cancelled_code,
  state_to_write, finalize_with, settle, after_first, end_with, after_drain, end_run,
}
use gist_agent.Lifecycle.Keys.{Distinct}
use gist_agent.Lifecycle.Finalizing.{IsEnded, finalize-IsEnded, not_finalizable-finalize}
use gist_agent.Lifecycle.Running.{
  Held, Steady, finalize-Held, met-Held, is_completed_eq, unmet-wanted,
}

-- The generation is ended here, and no row of it is left in another status.
abbrev pub Ends : Writer → Result Fault (Bool × Tables) → Type 0
Ends w r = (t : Tables) × (r ≡ ok (true, t)) × All (IsEnded w.id) t.generations

module _ (others : Tables → Tables) (to_json : List ConversationEvent → String) (w : Writer)
    (x : Execution) where
  finalize_with-Ends :
      (e : Ending) (d : Draw) (db : Tables)
      → Held w db
      → Distinct db.generations
      → is_terminal e.status ≡ true
      → is_completed e.status ≡ false
      → Ends w (finalize_with others to_json w x e d db)
  unfolding finalize_with
  finalize_with-Ends e d db h distinct t c =
      let state = state_to_write to_json x e in
      elim (finalize-Held w e.status e.detail e.code e.terminal state d.event_id d.now db h
        (met-Held w e.status db h c)) [
          | inl (last, q) ↦ (
            last,
            q,
            finalize-IsEnded w e.status e.detail e.code e.terminal state d.event_id d.now db last t
                distinct q,
          )
          | inr (k, f, q, refused) ↦ cc
        ]

  settle-ended :
      (e : Ending) (d : Draw) (t : Tables) → settle others to_json w x e d (true, t) ≡ ok (true, t)
  unfolding settle
  settle-ended e d t = refl

  after_first-Ends :
      (e : Ending) (second third : Draw) (db : Tables) (r : Result Fault (Bool × Tables))
      → Ends w r
      → Ends w (after_first others to_json w x e second third db r)
  unfolding after_first
  after_first-Ends e second third db r (t, q, ended) =
      (t, rw (q, after_first) (settle-ended e third t), ended)

  module _ (steady : Steady w others) where
    -- A completion that a cancellation has overtaken is ended as cancelled.
    settle-overtaken :
        (e : Ending) (d : Draw) (db : Tables)
        → Held w db
        → Distinct db.generations
        → is_completed e.status ≡ true
        → is_cancel_wanted w.id db ≡ true
        → Ends w (settle others to_json w x e d (false, db))
    unfolding settle cancelled_ending
    settle-overtaken e d db h distinct c wanted =
        let now = steady.wanted db h wanted in
        rw (settle, c, now)
          (finalize_with-Ends (cancelled_ending e) d (others db) (steady.held db h)
            (steady.distinct db distinct) refl refl)

    -- A completion whose draft cannot be promoted is ended as failed.
    after_first-refused :
        (e : Ending) (second third : Draw) (db : Tables) (f : Fault)
        → Held w db
        → Distinct db.generations
        → is_state_fault f ≡ true
        → Ends w (after_first others to_json w x e second third db (err f))
    unfolding after_first conflict_ending
    after_first-refused e second third db f h distinct k =
        let (t, q, ended) =
          finalize_with-Ends (conflict_ending e) second (others db) (steady.held db h)
            (steady.distinct db distinct) refl refl in
        (t, rw (after_first, k, q) (settle-ended (conflict_ending e) third t), ended)

    end_with-Ends :
        (e : Ending) (first second third : Draw) (db : Tables)
        → Held w db
        → Distinct db.generations
        → is_terminal e.status ≡ true
        → Ends w (end_with others to_json w x e first second third db)
    unfolding end_with finalize_with
    end_with-Ends e first second third db h distinct t = elim (Bool-cases (is_completed e.status)) [
      | inr c ↦ after_first-Ends e second third db _ (finalize_with-Ends e first db h distinct t c)
      | inl c ↦
          let state = state_to_write to_json x e in
          elim (Bool-cases (any (is_finalizable w e.status) db.generations)) [
            | inl met ↦
                elim (finalize-Held w e.status e.detail e.code e.terminal state first.event_id
                  first.now db h met) [
                    | inl (last, q) ↦ after_first-Ends e second third db _ (
                      last,
                      q,
                      finalize-IsEnded w e.status e.detail e.code e.terminal state first.event_id
                          first.now db last t distinct q,
                    )
                    | inr (k, f, q, refused) ↦
                        subst (λ r. Ends w (after_first others to_json w x e second third db r))
                          (sym q) (after_first-refused e second third db f h distinct refused)
                  ]
            | inr u ↦
                subst (λ r. Ends w (after_first others to_json w x e second third db r))
                  (sym (
                    not_finalizable-finalize w e.status e.detail e.code e.terminal state
                      first.event_id first.now db u))
                  (settle-overtaken e third db h distinct c (
                    unmet-wanted w db h (
                      subst (λ s. any (is_finalizable w s) db.generations ≡ false)
                        (is_completed_eq e.status c) u)))
          ]
    ]

-- Whatever is thrown, the status that the run is to end with is terminal.
ending_by-is_terminal :
    (x : Execution) (cause : Option Thrown) → is_terminal (ending_by x cause).status ≡ true
unfolding ending_by failure_of
ending_by-is_terminal x none = refl
ending_by-is_terminal x (some cause) = one_of (
    is_cancelled_code
      (normalize_generation_error cause x.ownership_lost
        (is_some x.reason && not x.timed_out)).code)
  where
    one_of : (b : Bool) → is_terminal (if b then cancelled else failed) ≡ true
    one_of true = refl
    one_of false = refl

after_drain-Ends :
    (others : Tables → Tables) (to_json : List ConversationEvent → String) (w : Writer)
    (x : Execution) (drained : Result Fault (Unit {0})) (e : Ending) (first second third : Draw)
    (db : Tables)
    → Steady w others
    → Held w db
    → Distinct db.generations
    → is_terminal e.status ≡ true
    → (is_completed e.status ≡ true → drained ≡ ok tt)
    → Ends w (after_drain others to_json w x drained e first second third db)
unfolding after_drain
after_drain-Ends others to_json w x (ok u) e first second third db steady h distinct t written =
    end_with-Ends others to_json w x steady e first second third db h distinct t
after_drain-Ends others to_json w x (err f) e first second third db steady h distinct t written =
    elim (Bool-cases (is_completed e.status)) [
      | inl c ↦ absurd (impossible (written c))
      | inr c ↦
          let (last, q, ended) =
            end_with-Ends others to_json w x steady e first second third db h distinct t in
          (last, rw c q, ended)
    ]
  where
    impossible : ◌≡◌ {A = Result Fault (Unit {0})} (err f) (ok tt) → ⊥
    impossible q = cc

-- While the worker holds a generation and other processes leave it to it, a run ends it: whatever the
-- analysis returned or threw, whether or not a cancellation comes in between or the draft of the state
-- cannot be promoted, the last of its transactions succeeds and leaves the generation completed, failed
-- or cancelled; where it is to complete, its buffered events must have been written.
pub end_run-Ends :
    (others : Tables → Tables) (to_json : List ConversationEvent → String) (w : Writer)
    (x : Execution) (first second third : Draw) (db : Tables)
    → Steady w others
    → Held w db
    → Distinct db.generations
    → (is_completed (ending_of x).status ≡ true → x.drained ≡ ok tt)
    → Ends w (end_run others to_json w x first second third db)
unfolding end_run ending_of
end_run-Ends others to_json w x first second third db steady h distinct written =
    after_drain-Ends others to_json w x x.drained (ending_of x) first second third db steady h
      distinct (ending_by-is_terminal x (cause_of x)) written
