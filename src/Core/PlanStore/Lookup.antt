-- ===== src/Core/PlanStore/Lookup.antt =====
-- packages/core/src/plan-store.ts: what `get` finds after the other operations.
use cere_worker.Prelude.{
  or_else, ℕ, zero, suc, ◌≤◌, ◌<◌, ◌==◌, get_elem?, ap, ◌⊎◌, Text, text_eq, text_eq_iff,
  text_eq_refl, leb, if◌then◌else◌, true, false, Option, none, some, List, [], ◌∷◌, ◌≡◌, refl, ◌∙◌,
  length, filter, find?, find?-sat, arith, Bool-cases, inl, inr,
}
use cere_worker.Core.PlanStore.{
  Plan, PlanStep, PlanInput, PlanStepStatus, set_step, full_plan, has_plan_id, write_plan,
  write_found, save, get, with_step, update_step, delete_plan,
}

pub get-write_plan :
    (p : Plan) (j : Text) (plans : List Plan)
    → get j (write_plan p plans) ≡ (if text_eq p.id j then some p else get j plans)
unfolding get write_plan find?
get-write_plan p j [] = refl
get-write_plan p j (x ∷ xs) = elim (Bool-cases (has_plan_id p.id x)) [
  | inl t ↦ let same = (text_eq_iff x.id p.id).0 t in rw (t, same) (ground arith)
  | inr t ↦
      let rest = get-write_plan p j xs in
      let apart : text_eq p.id j ≡ true → text_eq x.id j ≡ false =
        λ e. rw (← (text_eq_iff p.id j).0 e) t in
      rw (t, rest) (ground (arith, apart))
]

-- What an update of a step makes of the plan that is found.
abbrev stepped : ℕ → ℕ → PlanStepStatus → Option Plan → Option Plan
stepped now k status none = none
stepped now k status (some plan) = or_else (with_step now k status plan) (some plan)

get-update_step :
    (now k : ℕ) (i j : Text) (status : PlanStepStatus) (plans : List Plan)
    → get j (update_step now i k status plans)
      ≡ (if text_eq i j then stepped now k status (get j plans) else get j plans)
unfolding update_step
get-update_step now k i j status plans = elim (Bool-cases (text_eq i j)) [
  | inl t ↦
      let same = (text_eq_iff i j).0 t in rw (same, text_eq_refl j) (found j (get j plans) refl)
  | inr t ↦ rw t (other (get i plans) refl t)
]
  where
    found :
        (j : Text) (o : Option Plan)
        → get j plans ≡ o
        → get j (write_found (with_step now k status) plans o) ≡ stepped now k status o
    found j none e = e
    found j (some p) e = elim (Bool-cases (leb (length p.steps) k)) [
      | inl t ↦ rw t e
      | inr t ↦
          let its_id : text_eq p.id j ≡ true = find?-sat (has_plan_id j) plans e in
          rw t (get-write_plan _ j plans ∙ rw its_id refl)
    ]

    other :
        (o : Option Plan)
        → get i plans ≡ o
        → text_eq i j ≡ false
        → get j (write_found (with_step now k status) plans o) ≡ get j plans
    other none e apart = refl
    other (some p) e apart = elim (Bool-cases (leb (length p.steps) k)) [
      | inl t ↦ rw t refl
      | inr t ↦
          let its_id = (text_eq_iff p.id i).0 (find?-sat (has_plan_id i) plans e) in
          let not_its : text_eq p.id j ≡ false = rw its_id apart in
          rw t (get-write_plan _ j plans ∙ rw not_its refl)
    ]

get-delete_plan : (id : Text) (plans : List Plan) → get id (delete_plan id plans) ≡ none
unfolding get delete_plan find? filter
get-delete_plan id [] = refl
get-delete_plan id (x ∷ xs) = elim (Bool-cases (has_plan_id id x)) [
  | inl t ↦ rw t (get-delete_plan id xs)
  | inr t ↦ rw (t, t) (get-delete_plan id xs)
]

get-delete_other :
    (id j : Text) (plans : List Plan)
    → text_eq id j ≡ false
    → get j (delete_plan id plans) ≡ get j plans
unfolding get delete_plan find? filter
get-delete_other id j [] apart = refl
get-delete_other id j (x ∷ xs) apart = elim (Bool-cases (has_plan_id id x)) [
  | inl t ↦
      let not_its : text_eq x.id j ≡ false = rw ((text_eq_iff x.id id).0 t) apart in
      rw (t, not_its) (get-delete_other id j xs apart)
  | inr t ↦ rw t (ground (arith, get-delete_other id j xs apart))
]

-- The step at `k'` after the step at `k` was given the status.
abbrev pub step_then : ℕ → ℕ → PlanStepStatus → Option PlanStep → Option PlanStep
step_then k k' status none = none
step_then k k' status (some s) = if k' == k then some (record s { status = status }) else some s

get_elem?-set_step :
    (k k' : ℕ) (status : PlanStepStatus) (steps : List PlanStep)
    → get_elem? (set_step k status steps) k' ≡ step_then k k' status (get_elem? steps k')
get_elem?-set_step k k' status [] = refl
get_elem?-set_step zero zero status (s ∷ rest) = refl
get_elem?-set_step zero (suc k') status (s ∷ rest) = as_it_was (get_elem? rest k')
  where
    as_it_was : (o : Option PlanStep) → o ≡ step_then zero (suc k') status o
    as_it_was none = refl
    as_it_was (some s) = ground arith
get_elem?-set_step (suc k) zero status (s ∷ rest) = ground arith
get_elem?-set_step (suc k) (suc k') status (s ∷ rest) =
    get_elem?-set_step k k' status rest ∙ shifted (get_elem? rest k')
  where
    shifted : (o : Option PlanStep) → step_then k k' status o ≡ step_then (suc k) (suc k') status o
    shifted none = refl
    shifted (some s) = ground arith

length-set_step :
    (k : ℕ) (status : PlanStepStatus) (steps : List PlanStep)
    → length (set_step k status steps) ≡ length steps
length-set_step k status [] = refl
length-set_step zero status (s ∷ rest) = refl
length-set_step (suc k) status (s ∷ rest) = ap suc (length-set_step k status rest)

-- `updateStep` of an id that finds a plan. If the plan has no step of the index, the id finds it as it
-- was. If it has, the id finds a plan with the new time that has as many steps, where the step of the
-- index has the new status and its description, each other step is as it was, and all else of the plan
-- is too. Every other id finds what it found before.
pub update_step-exact :
    (now k k' : ℕ) (i j : Text) (status : PlanStepStatus) (plans : List Plan) (p : Plan)
    → get i plans ≡ some p
    → text_eq i j ≡ false
    → let after = update_step now i k status plans in
      (get j after ≡ get j plans)
      × (((length p.steps ≤ k) × (get i after ≡ some p))
          ⊎ ((k < length p.steps)
              × (p' : Plan) × (get i after ≡ some p')
              × (p' ≡ record p { steps = p'.steps; updated_at = now })
              × (length p'.steps ≡ length p.steps)
              × (get_elem? p'.steps k' ≡ step_then k k' status (get_elem? p.steps k'))))
update_step-exact now k k' i j status plans p found apart =
    let other = rw apart at (get-update_step now k i j status plans) in
    let itself : get i (update_step now i k status plans) ≡ stepped now k status (some p) =
      rw (text_eq_refl i, found) at (get-update_step now k i i status plans) in
    (
      other,
      elim (Bool-cases (leb (length p.steps) k)) [
        | inl t ↦ inl (ground (arith, t), rw t at itself)
        | inr t ↦ inr (
          ground (arith, t),
          record p { steps = set_step k status p.steps; updated_at = now },
          rw t at itself,
          refl,
          length-set_step k status p.steps,
          get_elem?-set_step k k' status p.steps,
        )
      ],
    )

-- `save`, then `get` and `delete`. The plan that is saved has the id that it was given, or the fresh
-- one where none was given, the task, goal, steps, conversation and status of the input, and the
-- present as both its times, also where a plan of the id was there. Its id finds it, every other id
-- finds what it found before, and once it is deleted its id finds nothing and every other id finds
-- what it found before.
pub get-save :
    (fresh id j : Text) (now : ℕ) (plan : PlanInput) (plans : List Plan)
    → ((plan.id ≡ some id) ⊎ ((plan.id ≡ none) × (fresh ≡ id)))
    → text_eq id j ≡ false
    → let (saved, full) = save fresh now plan plans in
      (full.id ≡ id)
      × (full ≡ record {
        id = full.id;
        task_id = plan.task_id;
        goal = plan.goal;
        steps = plan.steps;
        conversation_id = plan.conversation_id;
        created_at = now;
        updated_at = now;
        status = plan.status;
      })
      × (get id saved ≡ some full)
      × (get j saved ≡ get j plans)
      × (get id (delete_plan id saved) ≡ none)
      × (get j (delete_plan id saved) ≡ get j plans)
unfolding save
get-save fresh id j now plan plans given apart =
    let full = full_plan fresh now plan in
    let saved = write_plan full plans in
    let same : full.id ≡ id = elim given [ inl e ↦ rw e refl | inr (e, f) ↦ rw (e, f) refl ] in
    let found : get id saved ≡ some full =
      get-write_plan full id plans ∙ rw (same, text_eq_refl id) refl in
    let other : get j saved ≡ get j plans = get-write_plan full j plans ∙ rw (same, apart) refl in
    (same, refl, found, other, get-delete_plan id saved, get-delete_other id j saved apart ∙ other)
