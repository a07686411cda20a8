-- ===== src/Core/Conversation/Retention.antt =====
-- packages/core/src/conversation.ts: what `pruneTurnJournals` keeps.
use cere_worker.Prelude.{
  ℕ, zero, suc, ◌≤◌, Text, text_eq, text_eq_iff, Bool, true, false, not, ◌&&◌, List, [], ◌∷◌, ◌≡◌,
  refl, ap, sym, any, take, drop, count_if, All, All-imp, arith, Bool-cases, inl, inr, ◌⊎◌, Memᴰ,
  any-mem, drop-mem, ◌∙◌, All-mem,
}
use cere_worker.Core.Conversation.Files.{JournalFile}
use cere_worker.Core.Conversation.Journals.{comes_first, insert_file, sort_files}

-- A directory has one file of a name.
unfoldable pub distinct_names {ℓ} : {A : Type ℓ} → List (Text × A) → Bool
unfolding any text_eq
distinct_names [] = true
distinct_names ((i, a) ∷ rest) = not (any (λ f. text_eq f.0 i) rest) && distinct_names rest

abbrev pub File : Type 0 → Type 0
File J = Text × JournalFile J

module _ {J : Type 0} where
  abbrev pub NewestFirst : List (File J) → Type 0
  NewestFirst [] = Unit
  NewestFirst (x ∷ xs) = All (λ y. y.1.mtime_ms ≤ x.1.mtime_ms) xs × NewestFirst xs

  -- Of a list that is newest first, what is taken is no older than what is dropped.
  pub taken-newer :
      (n : ℕ) (xs : List (File J)) (f g : File J)
      → NewestFirst xs
      → Memᴰ f (take n xs)
      → Memᴰ g (drop n xs)
      → g.1.mtime_ms ≤ f.1.mtime_ms
  taken-newer zero xs f g h m k = elim m [ ]
  taken-newer (suc n) [] f g h m k = elim m [ ]
  taken-newer (suc n) (x ∷ xs) f g (old, h) (Memᴰ.head e) k =
      rw e (All-mem _ xs g old (drop-mem n xs g k))
  taken-newer (suc n) (x ∷ xs) f g (old, h) (Memᴰ.tail m) k = taken-newer n xs f g h m k

  insert-All :
      (P : File J → Type 0) (goes_behind : Text → Text → Bool) (f : File J) (xs : List (File J))
      → P f
      → All P xs
      → All P (insert_file goes_behind f xs)
  unfolding insert_file
  insert-All P g f [] p h = (p, tt)
  insert-All P g f (x ∷ xs) p (q, h) = elim (Bool-cases (comes_first g f x)) [
    | inl t ↦ rw t (p, (q, h))
    | inr t ↦ rw t (q, insert-All P g f xs p h)
  ]

  first-newer :
      (goes_behind : Text → Text → Bool) (f x : File J)
      → comes_first goes_behind f x ≡ true
      → x.1.mtime_ms ≤ f.1.mtime_ms
  first-newer g (i, a) (j, b) h = ground (arith, h)

  second-newer :
      (goes_behind : Text → Text → Bool) (f x : File J)
      → comes_first goes_behind f x ≡ false
      → f.1.mtime_ms ≤ x.1.mtime_ms
  second-newer g (i, a) (j, b) h = ground (arith, h)

  insert-NewestFirst :
      (goes_behind : Text → Text → Bool) (f : File J) (xs : List (File J))
      → NewestFirst xs
      → NewestFirst (insert_file goes_behind f xs)
  unfolding insert_file
  insert-NewestFirst g f [] h = (tt, tt)
  insert-NewestFirst g f (x ∷ xs) (q, h) = elim (Bool-cases (comes_first g f x)) [
    | inl t ↦
        let newer = first-newer g f x t in
        rw t ((newer, All-imp (λ y. λ older. omega (arith, older, newer)) xs q), (q, h))
    | inr t ↦ rw t (
      insert-All (λ y. y.1.mtime_ms ≤ x.1.mtime_ms) g f xs (second-newer g f x t) q,
      insert-NewestFirst g f xs h,
    )
  ]

  pub sort-NewestFirst :
      (goes_behind : Text → Text → Bool) (sorted xs : List (File J))
      → NewestFirst sorted
      → NewestFirst (sort_files goes_behind sorted xs)
  unfolding sort_files
  sort-NewestFirst g sorted [] h = h
  sort-NewestFirst g sorted (f ∷ rest) h =
      sort-NewestFirst g (insert_file g f sorted) rest (insert-NewestFirst g f sorted h)

  insert-mem :
      (goes_behind : Text → Text → Bool) (f : File J) (xs : List (File J)) (x : File J)
      → (x ≡ f) ⊎ Memᴰ x xs
      → Memᴰ x (insert_file goes_behind f xs)
  unfolding insert_file
  insert-mem g f [] x (inl e) = Memᴰ.head e
  insert-mem g f [] x (inr m) = elim m [ ]
  insert-mem g f (y ∷ ys) x (inl e) = elim (Bool-cases (comes_first g f y)) [
    | inl t ↦ rw t (Memᴰ.head e)
    | inr t ↦ rw t (Memᴰ.tail (insert-mem g f ys x (inl e)))
  ]
  insert-mem g f (y ∷ ys) x (inr m) = elim (Bool-cases (comes_first g f y)) [
    | inl t ↦ rw t (Memᴰ.tail m)
    | inr t ↦ rw t (elim m [
      | Memᴰ.head e ↦ Memᴰ.head e
      | Memᴰ.tail m' ↦ Memᴰ.tail (insert-mem g f ys x (inr m'))
    ])
  ]

  pub sort-mem :
      (goes_behind : Text → Text → Bool) (sorted xs : List (File J)) (x : File J)
      → Memᴰ x sorted ⊎ Memᴰ x xs
      → Memᴰ x (sort_files goes_behind sorted xs)
  unfolding sort_files
  sort-mem g sorted [] x (inl m) = m
  sort-mem g sorted [] x (inr m) = elim m [ ]
  sort-mem g sorted (f ∷ rest) x (inl m) =
      sort-mem g (insert_file g f sorted) rest x (inl (insert-mem g f sorted x (inr m)))
  sort-mem g sorted (f ∷ rest) x (inr (Memᴰ.head e)) =
      sort-mem g (insert_file g f sorted) rest x (inl (insert-mem g f sorted x (inl e)))
  sort-mem g sorted (f ∷ rest) x (inr (Memᴰ.tail m)) =
      sort-mem g (insert_file g f sorted) rest x (inr m)

  at_front : (f : File J) (xs : List (File J)) (x : File J) → Memᴰ x (f ∷ xs) → (x ≡ f) ⊎ Memᴰ x xs
  at_front f xs x (Memᴰ.head e) = inl e
  at_front f xs x (Memᴰ.tail m) = inr m

  behind :
      (y f : File J) {inserted : List (File J)} (xs : List (File J)) (x : File J)
      → (Memᴰ x inserted → (x ≡ f) ⊎ Memᴰ x xs)
      → Memᴰ x (y ∷ inserted)
      → (x ≡ f) ⊎ Memᴰ x (y ∷ xs)
  behind y f xs x later (Memᴰ.head e) = inr (Memᴰ.head e)
  behind y f xs x later (Memᴰ.tail m) = elim (later m) [
    | inl e ↦ inl e
    | inr m' ↦ inr (Memᴰ.tail m')
  ]

  mem-insert :
      (goes_behind : Text → Text → Bool) (f : File J) (xs : List (File J)) (x : File J)
      → Memᴰ x (insert_file goes_behind f xs)
      → (x ≡ f) ⊎ Memᴰ x xs
  unfolding insert_file
  mem-insert g f [] x (Memᴰ.head e) = inl e
  mem-insert g f [] x (Memᴰ.tail m) = elim m [ ]
  mem-insert g f (y ∷ ys) x m = elim (Bool-cases (comes_first g f y)) [
    | inl t ↦ at_front f (y ∷ ys) x (rw t at m)
    | inr t ↦ behind y f ys x (mem-insert g f ys x) (rw t at m)
  ]

  mem-sort_onto :
      (goes_behind : Text → Text → Bool) (sorted xs : List (File J)) (x : File J)
      → Memᴰ x (sort_files goes_behind sorted xs)
      → Memᴰ x sorted ⊎ Memᴰ x xs
  unfolding sort_files
  mem-sort_onto g sorted [] x m = inl m
  mem-sort_onto g sorted (f ∷ rest) x m = elim (mem-sort_onto g (insert_file g f sorted) rest x m) [
    | inl here ↦ elim (mem-insert g f sorted x here) [ inl e ↦ inr (Memᴰ.head e) | inr m' ↦ inl m' ]
    | inr there ↦ inr (Memᴰ.tail there)
  ]

  pub mem-sort :
      (goes_behind : Text → Text → Bool) (xs : List (File J)) (x : File J)
      → Memᴰ x (sort_files goes_behind [] xs)
      → Memᴰ x xs
  mem-sort g xs x m = elim (mem-sort_onto g [] xs x m) [
    | inl none_there ↦ elim none_there [ ]
    | inr there ↦ there
  ]

  abbrev named : Text → File J → Bool
  named i f = text_eq f.0 i

  count-none :
      (i : Text) (files : List (File J))
      → any (λ f. text_eq f.0 i) files ≡ false
      → count_if (λ f. text_eq i f.0) files ≡ 0
  unfolding any count_if
  count-none i [] h = refl
  count-none i ((k, a) ∷ rest) h =
      let other : text_eq i k ≡ false = elim (Bool-cases (text_eq i k)) [
        | inl t ↦
            let turned : text_eq k i ≡ true = (text_eq_iff k i).1 (sym ((text_eq_iff i k).0 t)) in
            ground (arith, turned, h)
        | inr t ↦ t
      ] in
      rw other (count-none i rest (ground (arith, h)))

  -- Of the files of a directory, at most one has a given name.
  pub count-named :
      (i : Text) (files : List (File J))
      → distinct_names files ≡ true
      → count_if (λ f. text_eq i f.0) files ≤ 1
  unfolding distinct_names count_if
  count-named i [] h = omega arith
  count-named i ((k, a) ∷ rest) h = elim (Bool-cases (text_eq i k)) [
    | inl t ↦
        let others : any (λ f. text_eq f.0 k) rest ≡ false = ground (arith, h) in
        let same : i ≡ k = (text_eq_iff i k).0 t in
        let swapped : count_if (λ f. text_eq i f.0) rest ≡ 0 = rw same (count-none k rest others) in
        rw t (omega (arith, swapped))
    | inr t ↦ rw t (count-named i rest (ground (arith, h)))
  ]

  pub same-name :
      (files : List (File J)) (f g : File J)
      → distinct_names files ≡ true
      → Memᴰ f files
      → Memᴰ g files
      → f.0 ≡ g.0
      → f ≡ g
  unfolding distinct_names
  same-name [] f g h m k e = elim m [ ]
  same-name (x ∷ xs) f g h (Memᴰ.head p) (Memᴰ.head q) e = p ∙ sym q
  same-name (x ∷ xs) f g h (Memᴰ.head p) (Memᴰ.tail k) e =
      let there : any (λ y. text_eq y.0 x.0) xs ≡ true =
        any-mem (named x.0) xs g k ((text_eq_iff g.0 x.0).1 (sym e ∙ ap (λ y. y.0) p)) in
      ground (arith, there, h)
  same-name (x ∷ xs) f g h (Memᴰ.tail m) (Memᴰ.head q) e =
      let there : any (λ y. text_eq y.0 x.0) xs ≡ true =
        any-mem (named x.0) xs f m ((text_eq_iff f.0 x.0).1 (e ∙ ap (λ y. y.0) q)) in
      ground (arith, there, h)
  same-name (x ∷ xs) f g h (Memᴰ.tail m) (Memᴰ.tail k) e =
      same-name xs f g (ground (arith, h)) m k e
