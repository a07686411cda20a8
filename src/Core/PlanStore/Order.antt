-- ===== src/Core/PlanStore/Order.antt =====
-- packages/core/src/plan-store.ts: the plans that are in progress, in the order of their creation.
use cere_worker.Prelude.{
  ◌+◌, ◌≤◌, Bool, ◌&&◌, List, [], ◌∷◌, ◌≡◌, refl, filter, count_if, All, All-imp, arith, Bool-cases,
  inl, inr,
}
use cere_worker.Core.PlanStore.{
  Plan, insert_plan, sort_plans, is_older, is_in_progress, get_in_progress,
}

-- Each plan is as old as those after it, or older.
abbrev pub OldestFirst : List Plan → Type 0
OldestFirst [] = Unit
OldestFirst (x ∷ xs) = All (λ y. x.created_at ≤ y.created_at) xs × OldestFirst xs

All-insert_plan :
    (P : Plan → Type 0) (p : Plan) (xs : List Plan)
    → P p
    → All P xs
    → All P (insert_plan is_older p xs)
unfolding insert_plan
All-insert_plan P p [] h hs = (h, tt)
All-insert_plan P p (x ∷ xs) h (k, hs) = elim (Bool-cases (is_older p x)) [
  | inl t ↦ rw t (h, (k, hs))
  | inr t ↦ rw t (k, All-insert_plan P p xs h hs)
]

insert_plan-OldestFirst :
    (p : Plan) (xs : List Plan) → OldestFirst xs → OldestFirst (insert_plan is_older p xs)
unfolding insert_plan
insert_plan-OldestFirst p [] h = (tt, tt)
insert_plan-OldestFirst p (x ∷ xs) (k, h) = elim (Bool-cases (is_older p x)) [
  | inl t ↦
      let older : p.created_at ≤ x.created_at = ground (arith, t) in
      rw t ((older, All-imp (λ y le. omega (arith, older)) xs k), (k, h))
  | inr t ↦
      let younger : x.created_at ≤ p.created_at = ground (arith, t) in
      rw t (All-insert_plan _ p xs younger k, insert_plan-OldestFirst p xs h)
]

count_if-insert_plan :
    (q : Plan → Bool) (p : Plan) (xs : List Plan)
    → count_if q (insert_plan is_older p xs) ≡ count_if q (p ∷ xs)
unfolding insert_plan count_if
count_if-insert_plan q p [] = refl
count_if-insert_plan q p (x ∷ xs) = ground (arith, count_if-insert_plan q p xs)

sort_plans_lem :
    (q : Plan → Bool) (sorted xs : List Plan)
    → OldestFirst sorted
    → OldestFirst (sort_plans is_older sorted xs)
      × (count_if q (sort_plans is_older sorted xs) ≡ count_if q sorted + count_if q xs)
unfolding sort_plans count_if
sort_plans_lem q sorted [] h = (h, omega arith)
sort_plans_lem q sorted (x ∷ xs) h =
    let next =
      sort_plans_lem q (insert_plan is_older x sorted) xs (insert_plan-OldestFirst x sorted h) in
    let one = count_if-insert_plan q x sorted in (next.0, ground (arith, next.1, one))

count_if-filter :
    (p q : Plan → Bool) (xs : List Plan) → count_if q (filter p xs) ≡ count_if (λ x. p x && q x) xs
unfolding filter count_if
count_if-filter p q [] = refl
count_if-filter p q (x ∷ xs) = ground (arith, count_if-filter p q xs)

-- The plans in progress come oldest first; and they are those of the directory that are in progress,
-- each as often: whatever is counted among them, the count is that of the directory's plans in
-- progress.
pub get_in_progress-OldestFirst :
    (plans : List Plan) (q : Plan → Bool)
    → OldestFirst (get_in_progress plans)
      × (count_if q (get_in_progress plans) ≡ count_if (λ p. is_in_progress p && q p) plans)
unfolding get_in_progress count_if
get_in_progress-OldestFirst plans q =
    let sorted = sort_plans_lem q [] (filter is_in_progress plans) tt in
    let kept = count_if-filter is_in_progress q plans in (sorted.0, omega (arith, sorted.1, kept))
