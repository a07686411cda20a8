-- ===== src/Prelude/Members.antt =====
-- What a list has for members, after the operations of the other modules.
use Prim.Native.Nat.{ℕ, zero, suc, ◌+◌, ◌≤◌}
use mathlib.Core.Path.{◌≡◌, refl, ap}
use mathlib.Core.Logic.{◌⊎◌, inl, inr}
use mathlib.Core.Bool.{Bool, true, false, ◌||◌}
use mathlib.Core.List.{List, [], ◌∷◌, map, Memᴰ}
use native.Mathlib.Omega.{arith}
use cere_worker.Prelude.Tests.{if◌then◌else◌, Bool-cases}
use cere_worker.Prelude.Lists.{length, take, drop, All}
use cere_worker.Prelude.Filters.{filter, any, count_if}

module _ {ℓ} {A : Type ℓ} where
  pub any-mem : (p : A → Bool) (xs : List A) (x : A) → Memᴰ x xs → p x ≡ true → any p xs ≡ true
  unfolding any
  any-mem p [] x m h = elim m [ ]
  any-mem p (y ∷ xs) x (Memᴰ.head e) h = let here : p y ≡ true = rw (← e) h in rw here refl
  any-mem p (y ∷ xs) x (Memᴰ.tail m) h = ground (arith, any-mem p xs x m h)

  kept-mem :
      (p : A → Bool) (y : A) (kept xs : List A) (x : A)
      → (Memᴰ x kept → Memᴰ x xs × (p x ≡ true))
      → (b : Bool) → p y ≡ b
      → Memᴰ x (if b then y ∷ kept else kept)
      → Memᴰ x (y ∷ xs) × (p x ≡ true)
  kept-mem p y kept xs x later true t (Memᴰ.head e) = (Memᴰ.head e, rw e t)
  kept-mem p y kept xs x later true t (Memᴰ.tail m) =
      let (there, good) = later m in (Memᴰ.tail there, good)
  kept-mem p y kept xs x later false t m = let (there, good) = later m in (Memᴰ.tail there, good)

  pub filter-mem :
      (p : A → Bool) (xs : List A) (x : A) → Memᴰ x (filter p xs) → Memᴰ x xs × (p x ≡ true)
  unfolding filter
  filter-mem p [] x m = elim m [ ]
  filter-mem p (y ∷ xs) x m = kept-mem p y (filter p xs) xs x (filter-mem p xs x) (p y) refl m

  pub any-filter : (p q : A → Bool) (xs : List A) → any p xs ≡ false → any p (filter q xs) ≡ false
  unfolding any filter
  any-filter p q [] h = refl
  any-filter p q (x ∷ xs) h = ground (arith, any-filter p q xs)

  pub mem-filter :
      (p : A → Bool) (xs : List A) (x : A) → Memᴰ x xs → p x ≡ true → Memᴰ x (filter p xs)
  unfolding filter
  mem-filter p [] x m h = elim m [ ]
  mem-filter p (y ∷ xs) x (Memᴰ.head e) h =
      let here : p y ≡ true = rw (← e) h in rw here (Memᴰ.head e)
  mem-filter p (y ∷ xs) x (Memᴰ.tail m) h = elim (Bool-cases (p y)) [
    | inl t ↦ rw t (Memᴰ.tail (mem-filter p xs x m h))
    | inr t ↦ rw t (mem-filter p xs x m h)
  ]

  pub count_if-or :
      (p q : A → Bool) (xs : List A) → count_if (λ x. p x || q x) xs ≤ count_if p xs + count_if q xs
  unfolding count_if
  count_if-or p q [] = omega arith
  count_if-or p q (x ∷ xs) = ground (arith, count_if-or p q xs)

  pub count_if-none : (p : A → Bool) (xs : List A) → any p xs ≡ false → count_if p xs ≡ 0
  unfolding any count_if
  count_if-none p [] h = refl
  count_if-none p (x ∷ xs) h = ground (arith, count_if-none p xs)

  pub length-map {κ} : {B : Type κ} (f : A → B) (xs : List A) → length (map f xs) ≡ length xs
  length-map f [] = refl
  length-map f (x ∷ xs) = ap suc (length-map f xs)

  pub map-mem {κ} :
      {B : Type κ} (f : A → B) (xs : List A) (x : A) → Memᴰ x xs → Memᴰ (f x) (map f xs)
  map-mem f [] x m = elim m [ ]
  map-mem f (y ∷ xs) x (Memᴰ.head e) = Memᴰ.head (ap f e)
  map-mem f (y ∷ xs) x (Memᴰ.tail m) = Memᴰ.tail (map-mem f xs x m)

  pub mem-map {κ} :
      {B : Type κ} (f : A → B) (xs : List A) (y : B)
      → Memᴰ y (map f xs)
      → (x : A) × Memᴰ x xs × (y ≡ f x)
  mem-map f [] y m = elim m [ ]
  mem-map f (x ∷ xs) y (Memᴰ.head e) = (x, Memᴰ.head refl, e)
  mem-map f (x ∷ xs) y (Memᴰ.tail m) =
      let (x', there, e) = mem-map f xs y m in (x', Memᴰ.tail there, e)

  pub any-witness :
      (p : A → Bool) (xs : List A) → any p xs ≡ true → (x : A) × Memᴰ x xs × (p x ≡ true)
  unfolding any
  any-witness p [] h = cc
  any-witness p (x ∷ xs) h = elim (Bool-cases (p x)) [
    | inl t ↦ (x, Memᴰ.head refl, t)
    | inr t ↦
        let later : any p xs ≡ true = ground (arith, t, h) in
        let (y, there, good) = any-witness p xs later in (y, Memᴰ.tail there, good)
  ]

  pub mem-take-or-drop :
      (n : ℕ) (xs : List A) (x : A) → Memᴰ x xs → Memᴰ x (take n xs) ⊎ Memᴰ x (drop n xs)
  mem-take-or-drop zero xs x m = inr m
  mem-take-or-drop (suc n) [] x m = elim m [ ]
  mem-take-or-drop (suc n) (y ∷ xs) x (Memᴰ.head e) = inl (Memᴰ.head e)
  mem-take-or-drop (suc n) (y ∷ xs) x (Memᴰ.tail m) = elim (mem-take-or-drop n xs x m) [
    | inl early ↦ inl (Memᴰ.tail early)
    | inr late ↦ inr late
  ]

  pub take-mem : (n : ℕ) (xs : List A) (x : A) → Memᴰ x (take n xs) → Memᴰ x xs
  take-mem zero xs x m = elim m [ ]
  take-mem (suc n) [] x m = elim m [ ]
  take-mem (suc n) (y ∷ xs) x (Memᴰ.head e) = Memᴰ.head e
  take-mem (suc n) (y ∷ xs) x (Memᴰ.tail m) = Memᴰ.tail (take-mem n xs x m)

  pub drop-mem : (n : ℕ) (xs : List A) (x : A) → Memᴰ x (drop n xs) → Memᴰ x xs
  drop-mem zero xs x m = m
  drop-mem (suc n) [] x m = m
  drop-mem (suc n) (y ∷ xs) x m = Memᴰ.tail (drop-mem n xs x m)

  pub All-mem : (P : A → Type 0) (xs : List A) (x : A) → All P xs → Memᴰ x xs → P x
  All-mem P [] x h m = elim m [ ]
  All-mem P (y ∷ xs) x (p, h) (Memᴰ.head e) = rw e p
  All-mem P (y ∷ xs) x (p, h) (Memᴰ.tail m) = All-mem P xs x h m
