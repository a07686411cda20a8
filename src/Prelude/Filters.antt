-- ===== src/Prelude/Filters.antt =====
-- `filter`, `some`, `find` and counting by a Boolean test, with their laws.
use Prim.Native.Nat.{ℕ, suc, ◌≤◌}
use mathlib.Core.Path.{◌≡◌, refl}
use mathlib.Core.Bool.{Bool, true, false, ◌||◌, ◌&&◌}
use mathlib.Core.List.{List, [], ◌∷◌, ◌++◌, Memᴰ}
use mathlib.Core.Option.{Option, none, some}
use native.Mathlib.Omega.{arith}
use mathlib.Core.Logic.{inl, inr}
use cere_worker.Prelude.Tests.{if◌then◌else◌, Bool-cases}
use cere_worker.Prelude.Lists.{length, All}

module _ {ℓ} {A : Type ℓ} where
  unfoldable pub filter : (A → Bool) → List A → List A
  filter p [] = []
  filter p (x ∷ xs) = if p x then x ∷ filter p xs else filter p xs

  -- `xs.some(p)`
  unfoldable pub any : (A → Bool) → List A → Bool
  any p [] = false
  any p (x ∷ xs) = p x || any p xs

  unfoldable pub find? : (A → Bool) → List A → Option A
  find? p [] = none
  find? p (x ∷ xs) = if p x then some x else find? p xs

  -- `xs.filter(p).length`
  unfoldable pub count_if : (A → Bool) → List A → ℕ
  count_if p [] = 0
  count_if p (x ∷ xs) = if p x then suc (count_if p xs) else count_if p xs

  pub length-filter : (p : A → Bool) (xs : List A) → length (filter p xs) ≡ count_if p xs
  unfolding filter count_if
  length-filter p [] = refl
  length-filter p (x ∷ xs) = ground (arith, length-filter p xs)

  pub count_if-le-length : (p : A → Bool) (xs : List A) → count_if p xs ≤ length xs
  unfolding count_if
  count_if-le-length p [] = omega arith
  count_if-le-length p (x ∷ xs) = ground (arith, count_if-le-length p xs)

  pub count_if-cons-le :
      (p : A → Bool) (x : A) (xs : List A) → count_if p (x ∷ xs) ≤ suc (count_if p xs)
  unfolding count_if
  count_if-cons-le p x xs = ground arith

  pub count_if-cons_not :
      (p : A → Bool) (x : A) (xs : List A) → p x ≡ false → count_if p (x ∷ xs) ≡ count_if p xs
  unfolding count_if
  count_if-cons_not p x xs h = rw h

  pub count_if_mono :
      (p q : A → Bool)
      → ((x : A) → p x ≡ true → q x ≡ true)
      → (xs : List A) → count_if p xs ≤ count_if q xs
  unfolding count_if
  count_if_mono p q h [] = omega arith
  count_if_mono p q h (x ∷ xs) = ground (arith, h x, count_if_mono p q h xs)

  pub find?-sat : (p : A → Bool) (xs : List A) {x : A} → find? p xs ≡ some x → p x ≡ true
  unfolding find?
  find?-sat p [] e = cc
  find?-sat p (y ∷ ys) {x} e = ground (arith, find?-sat p ys {x = x})

  pub find?-mem : (p : A → Bool) (xs : List A) {x : A} → find? p xs ≡ some x → Memᴰ x xs
  unfolding find?
  find?-mem p [] e = cc
  find?-mem p (y ∷ ys) {x} e = elim (Bool-cases (p y)) [
    | inl t ↦ let same : x ≡ y = ground arith in Memᴰ.head same
    | inr t ↦ Memᴰ.tail (find?-mem p ys (rw t at e))
  ]

  pub find?-none : (p : A → Bool) (xs : List A) → find? p xs ≡ none → any p xs ≡ false
  unfolding find? any
  find?-none p [] e = refl
  find?-none p (x ∷ xs) e = ground (arith, find?-none p xs)

  pub any-append : (p : A → Bool) (xs ys : List A) → any p (xs ++ ys) ≡ (any p xs || any p ys)
  unfolding any
  any-append p [] ys = refl
  any-append p (x ∷ xs) ys = ground (arith, any-append p xs ys)

  pub any-one : (p : A → Bool) (x : A) → p x ≡ true → any p (x ∷ []) ≡ true
  unfolding any
  any-one p x h = rw h

  pub filter-append :
      (p : A → Bool) (xs ys : List A) → filter p (xs ++ ys) ≡ filter p xs ++ filter p ys
  unfolding filter
  filter-append p [] ys = refl
  filter-append p (x ∷ xs) ys = ground (arith, filter-append p xs ys)

  -- Filtering twice is filtering once by both tests.
  pub filter-filter :
      (p q r : A → Bool)
      → ((x : A) → r x ≡ (q x && p x))
      → (xs : List A) → filter p (filter q xs) ≡ filter r xs
  unfolding filter
  filter-filter p q r h [] = refl
  filter-filter p q r h (x ∷ xs) = ground (arith, h x, filter-filter p q r h xs)

  pub filter-ext :
      (p q : A → Bool) → ((x : A) → p x ≡ q x) → (xs : List A) → filter p xs ≡ filter q xs
  unfolding filter
  filter-ext p q h [] = refl
  filter-ext p q h (x ∷ xs) = ground (arith, h x, filter-ext p q h xs)

  pub length-filter-le : (p : A → Bool) (xs : List A) → length (filter p xs) ≤ length xs
  unfolding filter
  length-filter-le p [] = omega arith
  length-filter-le p (x ∷ xs) = ground (arith, length-filter-le p xs)

  pub filter-id : (p : A → Bool) (xs : List A) → All (λ x. p x ≡ true) xs → filter p xs ≡ xs
  unfolding filter
  filter-id p [] h = refl
  filter-id p (x ∷ xs) (t, h) = rw (t, filter-id p xs h)

  pub filter-All : (p : A → Bool) (xs : List A) → All (λ x. p x ≡ true) (filter p xs)
  unfolding filter
  filter-All p [] = tt
  filter-All p (x ∷ xs) = ground (arith, filter-All p xs)

module _ {ℓ κ} {A : Type ℓ} (P : A → Type κ) where
  pub All-filter : (p : A → Bool) (xs : List A) → All P xs → All P (filter p xs)
  unfolding filter
  All-filter p [] h = tt
  All-filter p (x ∷ xs) (h, hs) = elim (Bool-cases (p x)) [
    | inl e ↦ rw e (h, All-filter p xs hs)
    | inr e ↦ rw e (All-filter p xs hs)
  ]

  pub All-find? : (p : A → Bool) (xs : List A) {x : A} → All P xs → find? p xs ≡ some x → P x
  unfolding find?
  All-find? p [] h e = cc
  All-find? p (y ∷ ys) {x} (h, hs) e = elim (Bool-cases (p y)) [
    | inl t ↦ let same : y ≡ x = ground arith in rw (← same) h
    | inr t ↦ All-find? p ys hs (rw t at e)
  ]
