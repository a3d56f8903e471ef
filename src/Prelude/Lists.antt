-- ===== src/Prelude/Lists.antt =====
-- Lists measured by native numbers, and the searches that queries are stated with.
use Prim.Native.Nat.{ℕ, zero, suc, ◌+◌, ◌≤◌}
use mathlib.Core.Path.{◌≡◌, refl, ap, subst}
use mathlib.Core.Logic.{inl, inr}
use mathlib.Core.Bool.{Bool, true}
use mathlib.Core.Option.{Option, none, some}
use mathlib.Core.List.{List, [], ◌∷◌, ◌++◌}
use native.Mathlib.Omega.{arith}
use any_sync_coordinator.Prelude.Tests.{Bool-cases, if◌then◌else◌}

module _ {ℓ} {A : Type ℓ} where
  abbrev pub length : List A → ℕ
  length [] = 0
  length (x ∷ xs) = suc (length xs)

  abbrev pub take : ℕ → List A → List A
  take zero xs = []
  take (suc n) [] = []
  take (suc n) (x ∷ xs) = x ∷ take n xs

  pub length-append : (xs ys : List A) → length (xs ++ ys) ≡ length xs + length ys
  length-append [] ys = omega arith
  length-append (x ∷ xs) ys = omega (arith, length-append xs ys)

  -- The elements that pass the test, in order.
  abbrev pub select : (A → Bool) → List A → List A
  select q [] = []
  select q (x ∷ xs) = let rest = select q xs in if q x then x ∷ rest else rest

  pub select-append :
      (q : A → Bool) (xs ys : List A) → select q (xs ++ ys) ≡ select q xs ++ select q ys
  select-append q [] ys = refl
  select-append q (x ∷ xs) ys = elim (Bool-cases (q x)) [
    | inl p ↦ rw p (ap (λ l. x ∷ l) (select-append q xs ys))
    | inr p ↦ rw p (select-append q xs ys)
  ]

  -- The first element that passes the test.
  abbrev pub first : (A → Bool) → List A → Option A
  first q [] = none
  first q (x ∷ xs) = if q x then some x else first q xs

  -- The list with the first element that passes the test changed.
  abbrev pub replace_first : (A → Bool) → (A → A) → List A → List A
  replace_first q f [] = []
  replace_first q f (x ∷ xs) = if q x then f x ∷ xs else x ∷ replace_first q f xs

  -- The list without the first element that passes the test.
  abbrev pub drop_first : (A → Bool) → List A → List A
  drop_first q [] = []
  drop_first q (x ∷ xs) = if q x then xs else x ∷ drop_first q xs

module _ {ℓ κ} {A : Type ℓ} where
  abbrev pub All : (A → Type κ) → List A → Type κ
  All P [] = Unit
  All P (x ∷ xs) = P x × All P xs

module _ {ℓ} {A : Type ℓ} where
  abbrev pub count : (A → Bool) → List A → ℕ
  count q xs = length (select q xs)

  -- What the first match satisfies.
  pub first-passes : (q : A → Bool) (xs : List A) (y : A) → first q xs ≡ some y → q y ≡ true
  first-passes q [] y h = ground arith
  first-passes q (x ∷ xs) y h = ground (arith, first-passes q xs y)

  pub length-replace_first :
      (q : A → Bool) (f : A → A) (xs : List A) → length (replace_first q f xs) ≡ length xs
  length-replace_first q f [] = refl
  length-replace_first q f (x ∷ xs) = ground (arith, length-replace_first q f xs)

  pub first-none-select : (q : A → Bool) (xs : List A) → first q xs ≡ none → select q xs ≡ []
  first-none-select q [] h = refl
  first-none-select q (x ∷ xs) h = ground (arith, first-none-select q xs)

  pub count-append : (q : A → Bool) (xs ys : List A) → count q (xs ++ ys) ≡ count q xs + count q ys
  count-append q [] ys = omega arith
  count-append q (x ∷ xs) ys = ground (arith, count-append q xs ys)

  pub length-take-le : (n : ℕ) (xs : List A) → length (take n xs) ≤ n
  length-take-le zero xs = omega arith
  length-take-le (suc n) [] = omega arith
  length-take-le (suc n) (x ∷ xs) = omega (arith, length-take-le n xs)

module _ {ℓ κ} {A : Type ℓ} (P : A → Type κ) where
  -- What holds of all elements holds of the first match.
  pub All-first : (q : A → Bool) (xs : List A) (y : A) → All P xs → first q xs ≡ some y → P y
  All-first q [] y h e = absurd (ground arith)
  All-first q (x ∷ xs) y h e = elim (Bool-cases (q x)) [
    | inl p ↦ (let e' : x ≡ y = ground arith in subst P e' h.0)
    | inr p ↦ All-first q xs y h.1 (rw p at e)
  ]

  pub All-append : (xs ys : List A) → All P xs → All P ys → All P (xs ++ ys)
  All-append [] ys hx hy = hy
  All-append (x ∷ xs) ys hx hy = (hx.0, All-append xs ys hx.1 hy)

  -- What an update keeps, or establishes, holds of all elements afterwards.
  pub All-replace_first :
      (q : A → Bool) (f : A → A) (xs : List A)
      → ((x : A) → P x → P (f x))
      → All P xs
      → All P (replace_first q f xs)
  All-replace_first q f [] keep h = h
  All-replace_first q f (x ∷ xs) keep h = elim (Bool-cases (q x)) [
    | inl p ↦ rw p (keep x h.0, h.1)
    | inr p ↦ rw p (h.0, All-replace_first q f xs keep h.1)
  ]

  pub All-select : (q : A → Bool) (xs : List A) → All P xs → All P (select q xs)
  All-select q [] h = h
  All-select q (x ∷ xs) h = elim (Bool-cases (q x)) [
    | inl p ↦ rw p (h.0, All-select q xs h.1)
    | inr p ↦ rw p (All-select q xs h.1)
  ]

  pub All-take : (n : ℕ) (xs : List A) → All P xs → All P (take n xs)
  All-take zero xs h = tt
  All-take (suc n) [] h = h
  All-take (suc n) (x ∷ xs) h = (h.0, All-take n xs h.1)
