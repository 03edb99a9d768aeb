-- ===== src/Lifecycle/Finalizing.antt =====
-- `finalize` of apps/worker/src/chat/generation.service.ts, called twice: by the same worker that
-- retries, or by two that both believe that they own the generation.
use gist_agent.Base.{
  ℕ, String, Option, true, false, List, [], ◌∷◌, ◌≡◌, refl, sym, subst, arith, inl, inr, any, ok,
  update_where, All, All-update_where, ◌==◌, Bool-cases,
}
use gist_agent.Contracts.{Status, is_terminal, is_owned, is_cancel_requested, ConversationEvent}
use gist_agent.Contracts.Errors.{ErrorCode}
use gist_agent.Database.{Generation, Tables}
use gist_agent.Worker.{Writer, MessageState, finalize, is_finalizable, finish, identity_of}
use gist_agent.Lifecycle.Keys.{Distinct, has_id}
use gist_agent.Lifecycle.Log.{enqueue-Enqueued}
use gist_agent.Lifecycle.Phases.{finalize-phases}

-- The generations of this identifier have ended.
abbrev pub IsEnded : ℕ → Generation → Type 0
IsEnded id g = (g.id == id) ≡ true → is_terminal g.status ≡ true

absent-IsEnded :
    (w : Writer) (status : Status) (f : Generation → Generation) (gs : List Generation)
    → has_id w.id gs ≡ false
    → All (IsEnded w.id) (update_where (is_finalizable w status) f gs)
absent-IsEnded w status f [] h = tt
absent-IsEnded w status f (x ∷ xs) h =
    let miss : is_finalizable w status x ≡ false = ground arith in
    rw miss (λ e. absurd (ground arith), absent-IsEnded w status f xs (ground arith))

any_absent :
    (w : Writer) (status : Status) (gs : List Generation)
    → has_id w.id gs ≡ false
    → any (is_finalizable w status) gs ≡ false
any_absent w status [] h = refl
any_absent w status (x ∷ xs) h =
    let rest = any_absent w status xs (ground arith) in
    let miss : is_finalizable w status x ≡ false = ground arith in rw (miss, rest) refl

clash :
    (w : Writer) (status : Status) (x : Generation) (xs : List Generation)
    → has_id x.id xs ≡ false
    → (x.id == w.id) ≡ true
    → any (is_finalizable w status) xs ≡ true
    → ⊥
clash w status x xs k e later =
    let ids : x.id ≡ w.id = ground arith in
    let none_left = any_absent w status xs (subst (λ i. has_id i xs ≡ false) ids k) in cc

finish-IsEnded :
    (w : Writer) (status : Status) (error : Option String) (code : Option ErrorCode) (now : ℕ)
    (gs : List Generation)
    → is_terminal status ≡ true
    → Distinct gs
    → any (is_finalizable w status) gs ≡ true
    → All (IsEnded w.id) (update_where (is_finalizable w status) (finish status error code now) gs)
finish-IsEnded w status error code now [] t d h = tt
finish-IsEnded w status error code now (x ∷ xs) t (k, d) h =
    elim (Bool-cases (is_finalizable w status x)) [
      | inl b ↦
          let ids : x.id ≡ w.id = ground arith in
          rw b (λ e. t, absent-IsEnded w status _ xs (subst (λ i. has_id i xs ≡ false) ids k))
      | inr b ↦
          let later : any (is_finalizable w status) xs ≡ true = ground arith in
          rw b (
            λ e. absurd (clash w status x xs k e later),
            finish-IsEnded w status error code now xs t d later,
          )
    ]

ended_tests :
    (s : Status) → is_terminal s ≡ true → (is_owned s ≡ false) × (is_cancel_requested s ≡ false)
ended_tests s h = ground arith

-- What the condition of `finalize` makes of an ended status.
ended-misses :
    (w : Writer) (status : Status) (g : Generation)
    → is_terminal g.status ≡ true
    → is_finalizable w status g ≡ false
ended-misses w status g h = let (a, b) = ended_tests g.status h in ground (arith, a, b)

IsEnded-not_finalizable :
    (w : Writer) (status : Status) (gs : List Generation)
    → All (IsEnded w.id) gs
    → any (is_finalizable w status) gs ≡ false
IsEnded-not_finalizable w status [] h = refl
IsEnded-not_finalizable w status (x ∷ xs) (h, hs) =
    let rest = IsEnded-not_finalizable w status xs hs in
    let miss : is_finalizable w status x ≡ false = elim (Bool-cases (x.id == w.id)) [
      | inl b ↦ ended-misses w status x (h b)
      | inr b ↦ rw b refl
    ] in
    rw (miss, rest) refl

pub finalize-IsEnded :
    (w : Writer) (status : Status) (error : Option String) (code : Option ErrorCode)
    (terminal : ConversationEvent) (state : Option MessageState) (event_id now : ℕ)
    (db last : Tables)
    → is_terminal status ≡ true
    → Distinct db.generations
    → finalize w status error code terminal state event_id now db ≡ ok (true, last)
    → All (IsEnded w.id) last.generations
finalize-IsEnded w status error code terminal state event_id now db last t d h =
    elim (finalize-phases w status error code terminal state event_id now db last true h) [
      | inl (a, b, c) ↦ absurd cc
      | inr (a, b, (mid, (u, v), e)) ↦
          let q = enqueue-Enqueued (identity_of w) terminal event_id now mid last e in
          rw q.generations (
            All-update_where (IsEnded w.id) (IsEnded w.id) _ _ (λ g k hit. k) (λ g k miss. k)
              mid.generations (rw u (finish-IsEnded w status error code now db.generations t d b)))
    ]

pub not_finalizable-finalize :
    (w : Writer) (status : Status) (error : Option String) (code : Option ErrorCode)
    (terminal : ConversationEvent) (state : Option MessageState) (event_id now : ℕ) (db : Tables)
    → any (is_finalizable w status) db.generations ≡ false
    → finalize w status error code terminal state event_id now db ≡ ok (false, db)
unfolding finalize
not_finalizable-finalize w status error code terminal state event_id now db h = rw h refl

-- Where generations have distinct identifiers, and one `finalize` has ended a generation with the
-- status of an ended one, every later `finalize` of that generation, by the same writer or another
-- and with whatever outcome, reports that it ended nothing and changes no table.
pub finalize-once :
    (w : Writer) (status : Status) (error : Option String) (code : Option ErrorCode)
    (terminal : ConversationEvent) (state : Option MessageState) (event_id now : ℕ)
    (db last : Tables)
    → is_terminal status ≡ true
    → Distinct db.generations
    → finalize w status error code terminal state event_id now db ≡ ok (true, last)
    → (v : Writer) (status' : Status) (error' : Option String) (code' : Option ErrorCode)
      (terminal' : ConversationEvent) (state' : Option MessageState) (event_id' now' : ℕ)
    → v.id ≡ w.id
    → finalize v status' error' code' terminal' state' event_id' now' last ≡ ok (false, last)
finalize-once w status error code terminal state event_id now db last t d h v status' error' code'
      terminal' state' event_id' now' same =
    not_finalizable-finalize v status' error' code' terminal' state' event_id' now' last (
      IsEnded-not_finalizable v status' last.generations (
        subst (λ i. All (IsEnded i) last.generations) (sym same)
          (finalize-IsEnded w status error code terminal state event_id now db last t d h)))
