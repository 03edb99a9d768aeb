-- ===== src/Client/Sequence.antt =====
-- The numbers of the events that a browser has applied, for apps/web/src/stores/chat.ts.
use gist_agent.Base.{
  ℕ, ◌+◌, ◌≤◌, ◌<◌, Option, none, some, true, false, List, [], ◌∷◌, ◌≡◌, refl, sym, ap, ◌∙◌, subst,
  arith, ◌⊎◌, inl, inr, ltb, leb, ◌==◌, Bool-cases, All, first_where-holds,
}
use gist_agent.Contracts.{StreamEvent}
use gist_agent.Turns.History.{is_contiguous, last_of}
use gist_agent.Client.{
  GenerationState, Store, Outcome, applied, duplicate, gap, known, put, state_of, take_event,
  apply_known, apply_event, apply_events,
}

abbrev pub number_of : Option GenerationState → ℕ
number_of none = 0
number_of (some g) = g.sequence

-- The number of the last event that was applied.
abbrev pub sequence_of : ℕ → Store → ℕ
sequence_of id s = number_of (known id s.generations)

pub known-put_eq :
    (g : GenerationState) (id : ℕ) (gs : List GenerationState)
    → g.id ≡ id
    → known id (put g gs) ≡ some g
known-put_eq g id [] h = ground arith
known-put_eq g id (x ∷ xs) h = elim (Bool-cases (x.id == g.id)) [
  | inl b ↦ ground arith
  | inr b ↦ ground (arith, known-put_eq g id xs h)
]

pub known-put_ne :
    (g : GenerationState) (id : ℕ) (gs : List GenerationState)
    → (g.id == id) ≡ false
    → known id (put g gs) ≡ known id gs
known-put_ne g id [] h = ground arith
known-put_ne g id (x ∷ xs) h = elim (Bool-cases (x.id == g.id)) [
  | inl b ↦ ground arith
  | inr b ↦ ground (arith, known-put_ne g id xs h)
]

-- What can come of an event, for a client that has seen the events up to `n`.
abbrev pub Applied : StreamEvent → ℕ → Outcome × Store → Type 0
Applied e n r =
    (r.0 ≡ applied) × (e.sequence ≡ n + 1) × (sequence_of e.generation_id r.1 ≡ e.sequence)

abbrev pub Ignored : StreamEvent → ℕ → Store → Outcome × Store → Type 0
Ignored e n s r = (r.0 ≡ duplicate) × (e.sequence ≤ n) × (r.1 ≡ s)

abbrev pub Refused : StreamEvent → ℕ → Store → Outcome × Store → Type 0
Refused e n s r = (r.0 ≡ gap) × (n + 1 < e.sequence) × (r.1 ≡ s)

abbrev Outcomes : StreamEvent → ℕ → Store → Outcome × Store → Type 0
Outcomes e n s r = Applied e n r ⊎ Ignored e n s r ⊎ Refused e n s r

pub known-id :
    (id : ℕ) (gs : List GenerationState) (g : GenerationState) → known id gs ≡ some g → g.id ≡ id
known-id id gs g h = let k = first_where-holds (λ x. x.id == id) gs h in ground arith

take_event-sequence :
    (e : StreamEvent) (now : ℕ) (g : GenerationState) (s : Store)
    → g.id ≡ e.generation_id
    → sequence_of e.generation_id (take_event e now g s) ≡ e.sequence
take_event-sequence e now g s h = ap number_of (known-put_eq _ e.generation_id s.generations h)

known_outcome :
    (e : StreamEvent) (now : ℕ) (s : Store) (o : Option GenerationState)
    → 0 < e.sequence
    → known e.generation_id s.generations ≡ o
    → Outcomes e (number_of o) s (apply_known e now o s)
unfolding apply_known
known_outcome e now s none pos k = elim (Bool-cases (ltb 1 e.sequence)) [
  | inl b ↦ inr (inr (rw b (refl, ground arith, refl)))
  | inr b ↦ inl (rw b (refl, ground arith, take_event-sequence e now (state_of e none) s refl))
]
known_outcome e now s (some g) pos k = elim (Bool-cases (leb e.sequence g.sequence)) [
  | inl b ↦ inr (inl (rw b (refl, ground arith, refl)))
  | inr b ↦ elim (Bool-cases (ltb (g.sequence + 1) e.sequence)) [
    | inl c ↦ inr (inr (rw (b, c) (refl, ground arith, refl)))
    | inr c ↦ inl (
        rw (b, c)
          (refl, ground arith, take_event-sequence e now g s (known-id _ s.generations g k)))
  ]
]

-- An event with a positive number is applied where its number is the next one, and becomes the last
-- number; it is ignored where its number is known, and refused where numbers are missing, and then
-- the store is as it was.
pub apply_event-outcome :
    (e : StreamEvent) (now : ℕ) (s : Store)
    → 0 < e.sequence
    → Applied e (sequence_of e.generation_id s) (apply_event e now s)
      ⊎ Ignored e (sequence_of e.generation_id s) s (apply_event e now s)
      ⊎ Refused e (sequence_of e.generation_id s) s (apply_event e now s)
unfolding apply_event
apply_event-outcome e now s pos = known_outcome e now s _ pos refl

apply_next :
    (e : StreamEvent) (now : ℕ) (s : Store)
    → e.sequence ≡ sequence_of e.generation_id s + 1
    → sequence_of e.generation_id (apply_event e now s).1 ≡ e.sequence
apply_next e now s h = elim (apply_event-outcome e now s (omega arith)) [
  | inl (a, b, c) ↦ c
  | inr (inl (a, b, c)) ↦ absurd (omega (arith, h, b))
  | inr (inr (a, b, c)) ↦ absurd (omega (arith, h, b))
]

-- Events numbered on from the last one that was applied are all applied.
pub apply_events-sequence :
    (id now : ℕ) (es : List StreamEvent) (s : Store)
    → is_contiguous (sequence_of id s) es ≡ true
    → All (λ e. e.generation_id ≡ id) es
    → sequence_of id (apply_events es now s) ≡ last_of (sequence_of id s) es
unfolding apply_events is_contiguous last_of
apply_events-sequence id now [] s c h = refl
apply_events-sequence id now (e ∷ es) s c (h, hs) =
    let next_number : (e.sequence ≡ sequence_of id s + 1)
        × (is_contiguous (sequence_of id s + 1) es ≡ true) =
      ground arith in
    let step : sequence_of id (apply_event e now s).1 ≡ e.sequence =
      subst (λ i. sequence_of i (apply_event e now s).1 ≡ e.sequence) h
        (apply_next e now s
          (subst (λ i. e.sequence ≡ sequence_of i s + 1) (sym h) next_number.0)) in
    apply_events-sequence id now es (apply_event e now s).1
      (subst (λ n. is_contiguous n es ≡ true) (sym (step ∙ next_number.0)) next_number.1) hs
    ∙ ap (λ n. last_of n es) step

-- A second delivery of an event is ignored, however much later it comes.
pub apply_event-again :
    (e : StreamEvent) (now : ℕ) (s : Store)
    → e.sequence ≤ sequence_of e.generation_id s
    → 0 < e.sequence
    → apply_event e now s ≡ (duplicate, s)
apply_event-again e now s h pos = elim (apply_event-outcome e now s pos) [
  | inl (a, b, c) ↦ absurd (omega (arith, h, b))
  | inr (inl (a, b, c)) ↦ (λ i. (a i, c i))
  | inr (inr (a, b, c)) ↦ absurd (omega (arith, h, b))
]
