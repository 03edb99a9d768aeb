-- ===== src/Base/Tables.antt =====
-- A table as the list of its rows, with the statements that the queries use: `WHERE`, `UPDATE`, `COUNT`.
use Prim.Native.Nat.{ℕ, ◌+◌, ◌≤◌}
use mathlib.Core.Path.{◌≡◌, refl, ap, subst}
use mathlib.Core.Logic.{inl, inr}
use mathlib.Core.Bool.{Bool, true, false}
use mathlib.Core.Option.{Option, none, some}
use mathlib.Core.List.{List, [], ◌∷◌, ◌++◌}
use native.Mathlib.Omega.{arith}
use gist_agent.Base.Tests.{if◌then◌else◌, Bool-cases}
use gist_agent.Base.Lists.{All}

module _ {ℓ} {A : Type ℓ} where
  -- The rows that meet the condition, in the order of the table.
  abbrev pub rows_where : (A → Bool) → List A → List A
  rows_where p [] = []
  rows_where p (x ∷ xs) = if p x then x ∷ rows_where p xs else rows_where p xs

  abbrev pub first_where : (A → Bool) → List A → Option A
  first_where p [] = none
  first_where p (x ∷ xs) = if p x then some x else first_where p xs

  abbrev pub count_where : (A → Bool) → List A → ℕ
  count_where p [] = 0
  count_where p (x ∷ xs) = (if p x then 1 else 0) + count_where p xs

  abbrev pub update_where : (A → Bool) → (A → A) → List A → List A
  update_where p f [] = []
  update_where p f (x ∷ xs) = (if p x then f x else x) ∷ update_where p f xs

  -- `find`, and a change of what it finds.
  abbrev pub update_first : (A → Bool) → (A → A) → List A → List A
  update_first p f [] = []
  update_first p f (x ∷ xs) = if p x then f x ∷ xs else x ∷ update_first p f xs

  pub rows_where-append :
      (p : A → Bool) (xs ys : List A) → rows_where p (xs ++ ys) ≡ rows_where p xs ++ rows_where p ys
  rows_where-append p [] ys = refl
  rows_where-append p (x ∷ xs) ys = ground (arith, rows_where-append p xs ys)

  pub count_where-append :
      (p : A → Bool) (xs ys : List A)
      → count_where p (xs ++ ys) ≡ count_where p xs + count_where p ys
  count_where-append p [] ys = omega arith
  count_where-append p (x ∷ xs) ys = omega (arith, count_where-append p xs ys)

  pub first_where-holds :
      (p : A → Bool) (xs : List A) {x : A} → first_where p xs ≡ some x → p x ≡ true
  first_where-holds p [] h = cc
  first_where-holds p (y ∷ ys) h = elim (Bool-cases (p y)) [
    | inl b ↦ subst (λ k. p k ≡ true) (cc (rw b at h)) b
    | inr b ↦ first_where-holds p ys (rw b at h)
  ]

  -- An update that leaves a condition as it is: the row found is the one found before, updated.
  pub first_where-update_where :
      (p q : A → Bool) (f : A → A)
      → ((x : A) → p (f x) ≡ p x)
      → (xs : List A) {x : A} → first_where p xs ≡ some x
      → first_where p (update_where q f xs) ≡ some (if q x then f x else x)
  first_where-update_where p q f same [] h = cc
  first_where-update_where p q f same (y ∷ ys) h =
      let stays : p (if q y then f y else y) ≡ p y = elim (Bool-cases (q y)) [
        | inl e ↦ rw e (same y)
        | inr e ↦ rw e refl
      ] in
      elim (Bool-cases (p y)) [
        | inl b ↦
            let found : y ≡ _ = cc (rw b at h) in
            rw (stays, b) (ap (λ z. some (if q z then f z else z)) found)
        | inr b ↦ rw (stays, b) (first_where-update_where p q f same ys (rw b at h))
      ]

  module _ {κ μ} (P : A → Type κ) (Q : A → Type μ) (p : A → Bool) (f : A → A) where
    -- What an update makes of a property that every row has.
    pub All-update_where :
        ((x : A) → P x → p x ≡ true → Q (f x))
        → ((x : A) → P x → p x ≡ false → Q x)
        → (xs : List A) → All P xs
        → All Q (update_where p f xs)
    All-update_where hit miss [] h = tt
    All-update_where hit miss (x ∷ xs) (h, hs) =
        let rest = All-update_where hit miss xs hs in
        elim (Bool-cases (p x)) [ inl e ↦ rw e (hit x h e, rest) | inr e ↦ rw e (miss x h e, rest) ]

module _ {A : Type 0} (R : A → A → Type 0) (P : A → Type 0) where
  -- The rows of a table and of a later version of it: each old row has become a row related to it,
  -- in its place, and the rows after those are new.
  abbrev pub Evolves : List A → List A → Type 0
  Evolves [] ys = All P ys
  Evolves (x ∷ xs) [] = ⊥
  Evolves (x ∷ xs) (y ∷ ys) = R x y × Evolves xs ys

  pub Evolves-update_where :
      (p : A → Bool) (f : A → A)
      → ((x : A) → p x ≡ true → R x (f x))
      → ((x : A) → R x x)
      → (xs : List A) → Evolves xs (update_where p f xs)
  Evolves-update_where p f hit stay [] = tt
  Evolves-update_where p f hit stay (x ∷ xs) =
      let rest = Evolves-update_where p f hit stay xs in
      elim (Bool-cases (p x)) [ inl e ↦ rw e (hit x e, rest) | inr e ↦ rw e (stay x, rest) ]

  pub Evolves-refl : ((x : A) → R x x) → (xs : List A) → Evolves xs xs
  Evolves-refl stay [] = tt
  Evolves-refl stay (x ∷ xs) = (stay x, Evolves-refl stay xs)

  pub Evolves-concat : ((x : A) → R x x) → (xs : List A) (y : A) → P y → Evolves xs (xs ++ y ∷ [])
  Evolves-concat stay [] y h = (h, tt)
  Evolves-concat stay (x ∷ xs) y h = (stay x, Evolves-concat stay xs y h)

  pub Evolves-trans :
      ((x y z : A) → R x y → R y z → R x z)
      → ((x y : A) → P x → R x y → P y)
      → (xs ys zs : List A) → Evolves xs ys
      → Evolves ys zs
      → Evolves xs zs
  Evolves-trans comp keep [] [] zs h k = k
  Evolves-trans comp keep [] (y ∷ ys) [] h k = absurd k
  Evolves-trans comp keep [] (y ∷ ys) (z ∷ zs) (h, hs) (k, ks) =
      (keep y z h k, Evolves-trans comp keep [] ys zs hs ks)
  Evolves-trans comp keep (x ∷ xs) [] zs h k = absurd h
  Evolves-trans comp keep (x ∷ xs) (y ∷ ys) [] h k = absurd k
  Evolves-trans comp keep (x ∷ xs) (y ∷ ys) (z ∷ zs) (h, hs) (k, ks) =
      (comp x y z h k, Evolves-trans comp keep xs ys zs hs ks)

-- A condition that no old row newly meets is met by no more rows than before.
pub count_where-update_le :
    {A : Type 0} (q p : A → Bool) (f : A → A)
    → ((x : A) → p x ≡ true → q (f x) ≡ true → q x ≡ true)
    → (xs : List A) → count_where q (update_where p f xs) ≤ count_where q xs
count_where-update_le q p f h [] = omega arith
count_where-update_le q p f h (x ∷ xs) = ground (arith, h x, count_where-update_le q p f h xs)
