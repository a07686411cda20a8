-- ===== src/Core/PlanStore/Tests.antt =====
-- packages/core/src/plan-store.ts on three plans.
use cere_worker.Prelude.{
  ◌≤◌, ◌<◌, ◌⊎◌, inr, false, length, get_elem?, ℕ, Text, codes, text_eq, ◌&&◌, none, some, List, [],
  ◌∷◌, ◌≡◌, refl, map, count_if,
}
use cere_worker.Core.PlanStore.{
  Plan, PlanInput, PlanStatus, in_progress, abandoned, step_pending, step_done, is_in_progress,
  save, get, get_in_progress, get_by_task, update_status, update_step, delete_plan,
}
use cere_worker.Core.PlanStore.Order.{OldestFirst, get_in_progress-OldestFirst}
use cere_worker.Core.PlanStore.Lookup.{step_then, update_step-exact, get-save}

abbrev plan_of : Text → ℕ → PlanStatus → Plan
plan_of id created status = record {
  id = id;
  task_id = some (codes "t");
  goal = codes "goal";
  steps = record { description = codes "one"; status = step_pending } ∷ [];
  conversation_id = none;
  created_at = created;
  updated_at = created;
  status = status;
}

abbrev three_plans : List Plan
three_plans =
    plan_of (codes "a") 9 in_progress
    ∷ plan_of (codes "b") 3 abandoned
    ∷ plan_of (codes "c") 5 in_progress
    ∷ []

get_in_progress-OldestFirst_example :
    OldestFirst (get_in_progress three_plans)
    × (count_if is_in_progress (get_in_progress three_plans)
        ≡ count_if (λ p. is_in_progress p && is_in_progress p) three_plans)
get_in_progress-OldestFirst_example = get_in_progress-OldestFirst three_plans is_in_progress

abbrev plan_c : Plan
plan_c = plan_of (codes "c") 5 in_progress

plan_c-found : get (codes "c") three_plans ≡ some plan_c
unfolding get
plan_c-found = refl

c_apart_a : text_eq (codes "c") (codes "a") ≡ false
unfolding text_eq
c_apart_a = refl

update_step-exact_example :
    let after = update_step 20 (codes "c") 0 step_done three_plans in
    (get (codes "a") after ≡ get (codes "a") three_plans)
    × (((length plan_c.steps ≤ 0) × (get (codes "c") after ≡ some plan_c))
        ⊎ ((0 < length plan_c.steps)
            × (p' : Plan) × (get (codes "c") after ≡ some p')
            × (p' ≡ record plan_c { steps = p'.steps; updated_at = 20 })
            × (length p'.steps ≡ length plan_c.steps)
            × (get_elem? p'.steps 0 ≡ step_then 0 0 step_done (get_elem? plan_c.steps 0))))
update_step-exact_example =
    update_step-exact 20 0 0 (codes "c") (codes "a") step_done three_plans plan_c plan_c-found
      c_apart_a

abbrev new_plan : PlanInput
new_plan = record {
  id = none;
  task_id = none;
  goal = codes "new";
  steps = [];
  conversation_id = none;
  status = in_progress;
}

d_apart_a : text_eq (codes "d") (codes "a") ≡ false
unfolding text_eq
d_apart_a = refl

get-save_example :
    let (saved, full) = save (codes "d") 30 new_plan three_plans in
    (full.id ≡ codes "d")
    × (full ≡ record (plan_of full.id 30 in_progress) {
      task_id = none;
      goal = codes "new";
      steps = [];
    })
    × (get (codes "d") saved ≡ some full)
    × (get (codes "a") saved ≡ get (codes "a") three_plans)
    × (get (codes "d") (delete_plan (codes "d") saved) ≡ none)
    × (get (codes "a") (delete_plan (codes "d") saved) ≡ get (codes "a") three_plans)
get-save_example =
    get-save (codes "d") (codes "d") (codes "a") 30 new_plan three_plans (inr (refl, refl))
      d_apart_a

in_progress_ids : map (λ p. p.id) (get_in_progress three_plans) ≡ codes "c" ∷ codes "a" ∷ []
unfolding get_in_progress
in_progress_ids = refl

newest_of_task : get_by_task (codes "t") three_plans ≡ some (plan_of (codes "a") 9 in_progress)
unfolding get_by_task
newest_of_task = refl

nothing_in_progress :
    get_in_progress
      (update_status 20 (codes "a") abandoned (update_status 20 (codes "c") abandoned three_plans))
    ≡ []
unfolding get_in_progress update_status
nothing_in_progress = refl
