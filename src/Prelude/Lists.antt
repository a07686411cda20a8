-- ===== src/Prelude/Lists.antt =====
-- Lists measured and cut by native numbers, under the library's names.
use Prim.Native.Nat.{ℕ, zero, suc, ◌+◌, ◌-◌, ◌≤◌, ◌<◌, min}
use mathlib.Core.Path.{◌≡◌, refl, sym, ◌∙◌, ap}
use mathlib.Core.List.{List, [], ◌∷◌, ◌++◌, reverse, reverse-append}
use native.Mathlib.Decide.{dec_lt}
use mathlib.Core.Option.{Option, none, some}
use native.Mathlib.Omega.{arith}

module _ {ℓ} {A : Type ℓ} where
  abbrev pub length : List A → ℕ
  length [] = 0
  length (x ∷ xs) = suc (length xs)

  abbrev pub take : ℕ → List A → List A
  take zero xs = []
  take (suc n) [] = []
  take (suc n) (x ∷ xs) = x ∷ take n xs

  abbrev pub drop : ℕ → List A → List A
  drop zero xs = xs
  drop (suc n) [] = []
  drop (suc n) (x ∷ xs) = drop n xs

  abbrev pub get_elem? : List A → ℕ → Option A
  get_elem? [] i = none
  get_elem? (x ∷ xs) zero = some x
  get_elem? (x ∷ xs) (suc i) = get_elem? xs i

  pub append-nil : (xs : List A) → xs ++ [] ≡ xs
  append-nil [] = refl
  append-nil (x ∷ xs) = ap (λ r. x ∷ r) (append-nil xs)

  pub length-append : (xs ys : List A) → length (xs ++ ys) ≡ length xs + length ys
  length-append [] ys = omega arith
  length-append (x ∷ xs) ys = omega (arith, length-append xs ys)

  pub length-take : (n : ℕ) (xs : List A) → length (take n xs) ≡ min n (length xs)
  length-take zero xs = omega arith
  length-take (suc n) [] = omega arith
  length-take (suc n) (x ∷ xs) = omega (arith, length-take n xs)

  pub length-drop : (n : ℕ) (xs : List A) → length (drop n xs) ≡ length xs - n
  length-drop zero xs = omega arith
  length-drop (suc n) [] = omega arith
  length-drop (suc n) (x ∷ xs) = omega (arith, length-drop n xs)

  pub take-append-drop : (n : ℕ) (xs : List A) → take n xs ++ drop n xs ≡ xs
  take-append-drop zero xs = refl
  take-append-drop (suc n) [] = refl
  take-append-drop (suc n) (x ∷ xs) = rw (take-append-drop n xs)

  -- `xs.slice(-n)`: the last `n` entries; `slice(-0)` is `slice(0)`, the whole.
  abbrev pub slice_last : ℕ → List A → List A
  slice_last zero xs = xs
  slice_last (suc n) xs = drop (length xs - suc n) xs

  pub length-slice_last : (n : ℕ) (xs : List A) → 0 < n → length (slice_last n xs) ≤ n
  length-slice_last zero xs h = omega arith
  length-slice_last (suc n) xs h = omega (arith, length-drop (length xs - suc n) xs)

-- A predicate on every entry, by recursion.
module _ {ℓ κ} {A : Type ℓ} (P : A → Type κ) where
  abbrev pub All : List A → Type κ
  All [] = Unit
  All (x ∷ xs) = P x × All xs

  pub All-append : (xs ys : List A) → All xs → All ys → All (xs ++ ys)
  All-append [] ys _ k = k
  All-append (x ∷ xs) ys (p, h) k = (p, All-append xs ys h k)

  pub All-drop : (n : ℕ) (xs : List A) → All xs → All (drop n xs)
  All-drop zero xs h = h
  All-drop (suc n) [] h = h
  All-drop (suc n) (x ∷ xs) (_, h) = All-drop n xs h

  pub All-slice_last : (n : ℕ) (xs : List A) → All xs → All (slice_last n xs)
  All-slice_last zero xs h = h
  All-slice_last (suc n) xs h = All-drop _ xs h

module _ {ℓ κ ι} {A : Type ℓ} {P : A → Type κ} {Q : A → Type ι} (f : (x : A) → P x → Q x) where
  pub All-imp : (xs : List A) → All P xs → All Q xs
  All-imp [] _ = tt
  All-imp (x ∷ xs) (p, h) = (f x p, All-imp xs h)

module _ {ℓ} {A : Type ℓ} where
  pub length-reverse : (xs : List A) → length (reverse xs) ≡ length xs
  length-reverse [] = refl
  length-reverse (x ∷ xs) =
      rw (reverse-append (x ∷ []) xs)
        (omega (arith, length-append (reverse xs) (x ∷ []), length-reverse xs))

  pub take-append-length : (n : ℕ) (xs ys : List A) → n ≡ length xs → take n (xs ++ ys) ≡ xs
  take-append-length zero [] ys h = refl
  take-append-length zero (x ∷ xs) ys h = absurd (omega arith)
  take-append-length (suc n) [] ys h = absurd (omega arith)
  take-append-length (suc n) (x ∷ xs) ys h =
      ap (λ r. x ∷ r) (take-append-length n xs ys (omega arith))

  pub take-all : (n : ℕ) (xs : List A) → length xs ≤ n → take n xs ≡ xs
  take-all zero [] h = refl
  take-all zero (x ∷ xs) h = absurd (omega arith)
  take-all (suc n) [] h = refl
  take-all (suc n) (x ∷ xs) h = ap (λ r. x ∷ r) (take-all n xs (omega arith))

  -- The last entries of a list are the first of the reversed one.
  pub reverse-drop :
      (n : ℕ) (xs : List A)
      → n ≤ length xs
      → reverse (drop (length xs - n) xs) ≡ take n (reverse xs)
  reverse-drop n xs h =
      let k = length xs - n in
      let parts : reverse xs ≡ reverse (drop k xs) ++ reverse (take k xs) =
        ap reverse (sym (take-append-drop k xs)) ∙ reverse-append (take k xs) (drop k xs) in
      sym (
        ap (take n) parts
        ∙ take-append-length n (reverse (drop k xs)) (reverse (take k xs))
            (omega (arith, length-reverse (drop k xs), length-drop k xs)))

  pub reverse-slice_last :
      (n : ℕ) (xs : List A) → 0 < n → reverse (slice_last n xs) ≡ take n (reverse xs)
  reverse-slice_last zero xs h = absurd (omega arith)
  reverse-slice_last (suc n) xs h = elim (dec_lt (length xs) (suc n)) [
    | yes short ↦
        let none_dropped : length xs - suc n ≡ 0 = omega arith in
        rw none_dropped (sym (take-all (suc n) (reverse xs) (omega (arith, length-reverse xs))))
    | no long ↦ reverse-drop (suc n) xs (omega arith)
  ]
