-- ===== src/Core/TaskRunner/Running.antt =====
-- packages/core/src/orchestrator.ts: the tasks that `runTask` counts as running are those that wait.
use cere_worker.Prelude.{
  ℕ, zero, suc, Text, text_eq, text_eq_refl, text_eq_sym, Bool, true, false, not, Option, some,
  List, [], ◌∷◌, ◌++◌, map, ◌≡◌, refl, ap, ◌∙◌, filter, filter-id, any, get_elem?, All, All-append,
  All-imp, arith, Bool-cases, Option-cases, inl, inr,
}
use mathlib.Core.List.{map-append}
use cere_worker.Core.TaskRunner.{
  TaskRun, Waiting, is_task_running, run_task, end_task, without, start, end_found,
}

abbrev pub Distinct : List Text → Type 0
Distinct [] = Unit
Distinct (a ∷ ids) = All (λ b. text_eq a b ≡ false) ids × Distinct ids

Distinct-append_one :
    (a : Text) (ids : List Text)
    → any (text_eq a) ids ≡ false
    → Distinct ids
    → Distinct (ids ++ a ∷ [])
unfolding any
Distinct-append_one a [] h d = (tt, tt)
Distinct-append_one a (b ∷ ids) h (apart, d) =
    let differs : text_eq b a ≡ false = rw (text_eq_sym b a) (ground (arith, h)) in
    let later : any (text_eq a) ids ≡ false = ground (arith, h) in
    (All-append _ ids (a ∷ []) apart (differs, tt), Distinct-append_one a ids later d)

All-without : (P : Text → Type 0) (i : ℕ) (ids : List Text) → All P ids → All P (without i ids)
All-without P i [] h = tt
All-without P zero (a ∷ ids) (p, h) = h
All-without P (suc i) (a ∷ ids) (p, h) = (p, All-without P i ids h)

Distinct-without : (i : ℕ) (ids : List Text) → Distinct ids → Distinct (without i ids)
Distinct-without i [] d = tt
Distinct-without zero (a ∷ ids) (apart, d) = d
Distinct-without (suc i) (a ∷ ids) (apart, d) =
    (All-without _ i ids apart, Distinct-without i ids d)

All-get_elem? :
    (P : Text → Type 0) (i : ℕ) (ids : List Text) {a : Text}
    → All P ids
    → get_elem? ids i ≡ some a
    → P a
All-get_elem? P i [] h e = cc
All-get_elem? P zero (b ∷ ids) {a} (p, h) e = let same : a ≡ b = ground (arith, e) in rw same p
All-get_elem? P (suc i) (b ∷ ids) (p, h) e = All-get_elem? P i ids h e

-- What `delete` of a set leaves is the list without the place of the id.
filter-without :
    (i : ℕ) (ids : List Text) {a : Text}
    → Distinct ids
    → get_elem? ids i ≡ some a
    → filter (λ id. not (text_eq a id)) ids ≡ without i ids
unfolding filter
filter-without i [] d e = cc
filter-without zero (b ∷ ids) {a} (apart, d) e =
    let same : a ≡ b = ground (arith, e) in
    let found : text_eq a b ≡ true = rw same (text_eq_refl b) in
    let others : All (λ id. not (text_eq a id) ≡ true) ids =
      All-imp (λ x h. rw (same, h) refl) ids apart in
    rw found (filter-id (λ id. not (text_eq a id)) ids others)
filter-without (suc i) (b ∷ ids) {a} (apart, d) e =
    let differs : text_eq a b ≡ false =
      text_eq_sym a b ∙ All-get_elem? (λ c. text_eq b c ≡ false) i ids apart e in
    rw differs (ap (λ r. b ∷ r) (filter-without i ids d e))

module _ {O : Type 0} where
  abbrev pub ids : List (TaskRun O) → List Text
  ids runs = map (λ r. r.task_id) runs

  -- The set of the running tasks has the ids of the runs that wait, each once.
  abbrev pub IsTracked : Waiting O → Type 0
  IsTracked w = (w.runner.task_running ≡ ids w.pending) × Distinct (ids w.pending)

  ids-without : (i : ℕ) (runs : List (TaskRun O)) → ids (without i runs) ≡ without i (ids runs)
  ids-without i [] = refl
  ids-without zero (r ∷ runs) = refl
  ids-without (suc i) (r ∷ runs) = ap (λ rest. r.task_id ∷ rest) (ids-without i runs)

  ids-get_elem? :
      (i : ℕ) (runs : List (TaskRun O)) {run : TaskRun O}
      → get_elem? runs i ≡ some run
      → get_elem? (ids runs) i ≡ some run.task_id
  ids-get_elem? i [] e = cc
  ids-get_elem? zero (r ∷ runs) e = ground (arith, e)
  ids-get_elem? (suc i) (r ∷ runs) e = ids-get_elem? i runs e

  pub start-IsTracked :
      (exists : Text → Bool) (fresh : Text) (auto : Option Bool) (owner : O) (task_id : Text)
      (w : Waiting O)
      → IsTracked w
      → IsTracked (start exists fresh auto owner task_id w)
  unfolding start run_task is_task_running
  start-IsTracked exists fresh auto owner task_id w (same, d) =
      elim (Bool-cases (any (text_eq task_id) w.runner.task_running)) [
        | inl t ↦ rw t (same, d)
        | inr t ↦
            let absent : any (text_eq task_id) (ids w.pending) ≡ false = rw (← same) t in
            rw (t, map-append (λ r. r.task_id) w.pending _)
              (ap (λ l. l ++ task_id ∷ []) same, Distinct-append_one task_id _ absent d)
      ]

  pub end_found-IsTracked :
      (i : ℕ) (w : Waiting O) → IsTracked w → IsTracked (end_found i w (get_elem? w.pending i))
  unfolding end_task
  end_found-IsTracked i w (same, d) = elim (Option-cases (get_elem? w.pending i)) [
    | inl e ↦ rw e (same, d)
    | inr (run, e) ↦
        rw (e, ids-without i w.pending, same)
          (filter-without i _ d (ids-get_elem? i w.pending e), Distinct-without i _ d)
  ]
