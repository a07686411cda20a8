-- ===== src/Core/PlanStore.antt =====
-- packages/core/src/plan-store.ts: the plans of tasks, a file each. The directory is the list of its
-- plans in the order that it is read in; a file that cannot be read or parsed is not in it. A time is
-- the instant that its ISO text names: such texts are in the order of their instants.
pub mod Order
pub mod Lookup
mod Tests
use cere_worker.Prelude.{
  ℕ, zero, suc, Text, text_eq, leb, ltb, if◌then◌else◌, Bool, true, false, not, ◌&&◌, Option, none,
  some, List, [], ◌∷◌, length, filter, find?,
}

pub data PlanStepStatus : Type 0 where
  step_pending step_done step_failed : PlanStepStatus

pub data PlanStatus : Type 0 where
  in_progress plan_completed plan_failed abandoned : PlanStatus

pub record PlanStep : Type 0 where
  pub description : Text
  pub status : PlanStepStatus

pub record Plan : Type 0 where
  pub id : Text
  pub task_id : Option Text
  pub goal : Text
  pub steps : List PlanStep
  pub conversation_id : Option Text
  pub created_at : ℕ
  pub updated_at : ℕ
  pub status : PlanStatus

-- What `save` is given.
pub record PlanInput : Type 0 where
  pub id : Option Text
  pub task_id : Option Text
  pub goal : Text
  pub steps : List PlanStep
  pub conversation_id : Option Text
  pub status : PlanStatus

abbrev pub has_plan_id : Text → Plan → Bool
has_plan_id id plan = text_eq plan.id id

abbrev pub id_or : Text → Option Text → Text
id_or fresh none = fresh
id_or fresh (some id) = id

-- `writeJsonFileAtomic` at the path of the plan.
unfoldable pub write_plan : Plan → List Plan → List Plan
unfolding text_eq
write_plan plan [] = plan ∷ []
write_plan plan (x ∷ xs) = if has_plan_id plan.id x then plan ∷ xs else x ∷ write_plan plan xs

abbrev pub full_plan : Text → ℕ → PlanInput → Plan
full_plan fresh now plan = record {
  id = id_or fresh plan.id;
  task_id = plan.task_id;
  goal = plan.goal;
  steps = plan.steps;
  conversation_id = plan.conversation_id;
  created_at = now;
  updated_at = now;
  status = plan.status;
}

unfoldable pub save : Text → ℕ → PlanInput → List Plan → List Plan × Plan
unfolding write_plan
save fresh now plan plans = let full = full_plan fresh now plan in (write_plan full plans, full)

unfoldable pub get : Text → List Plan → Option Plan
unfolding find? text_eq
get id plans = find? (has_plan_id id) plans

abbrev pub is_in_progress : Plan → Bool
is_in_progress plan = elim plan.status [ in_progress ↦ true | _ ↦ false ]

-- `sort` by a comparison is stable: a plan goes behind those that are not after it.
unfoldable pub insert_plan : (Plan → Plan → Bool) → Plan → List Plan → List Plan
insert_plan before plan [] = plan ∷ []
insert_plan before plan (x ∷ xs) =
    if before plan x then plan ∷ x ∷ xs else x ∷ insert_plan before plan xs

unfoldable pub sort_plans : (Plan → Plan → Bool) → List Plan → List Plan → List Plan
unfolding insert_plan
sort_plans before sorted [] = sorted
sort_plans before sorted (plan ∷ rest) = sort_plans before (insert_plan before plan sorted) rest

abbrev pub is_older : Plan → Plan → Bool
is_older a b = ltb a.created_at b.created_at

abbrev pub is_newer : Plan → Plan → Bool
is_newer a b = ltb b.created_at a.created_at

unfoldable pub get_in_progress : List Plan → List Plan
unfolding filter sort_plans
get_in_progress plans = sort_plans is_older [] (filter is_in_progress plans)

abbrev pub is_for_task : Text → Plan → Bool
is_for_task task_id plan = elim plan.task_id [
  | none ↦ false
  | some id ↦ text_eq id task_id && is_in_progress plan
]

abbrev pub first : List Plan → Option Plan
first [] = none
first (plan ∷ rest) = some plan

unfoldable pub get_by_task : Text → List Plan → Option Plan
unfolding filter sort_plans text_eq
get_by_task task_id plans = first (sort_plans is_newer [] (filter (is_for_task task_id) plans))

abbrev pub write_changed : List Plan → Option Plan → List Plan
write_changed plans none = plans
write_changed plans (some changed) = write_plan changed plans

abbrev pub write_found : (Plan → Option Plan) → List Plan → Option Plan → List Plan
write_found change plans none = plans
write_found change plans (some plan) = write_changed plans (change plan)

abbrev pub with_status : ℕ → PlanStatus → Plan → Option Plan
with_status now status plan = some (record plan { status = status; updated_at = now })

unfoldable pub update_status : ℕ → Text → PlanStatus → List Plan → List Plan
unfolding get write_plan
update_status now id status plans = write_found (with_status now status) plans (get id plans)

abbrev pub set_step : ℕ → PlanStepStatus → List PlanStep → List PlanStep
set_step i status [] = []
set_step zero status (s ∷ rest) = record s { status = status } ∷ rest
set_step (suc i) status (s ∷ rest) = s ∷ set_step i status rest

-- An index below 0 is refused like one past the end.
abbrev pub with_step : ℕ → ℕ → PlanStepStatus → Plan → Option Plan
with_step now step_index status plan =
    if leb (length plan.steps) step_index
    then none
    else some (record plan { steps = set_step step_index status plan.steps; updated_at = now })

unfoldable pub update_step : ℕ → Text → ℕ → PlanStepStatus → List Plan → List Plan
unfolding get write_plan
update_step now plan_id step_index status plans =
    write_found (with_step now step_index status) plans (get plan_id plans)

unfoldable pub delete_plan : Text → List Plan → List Plan
unfolding filter text_eq
delete_plan id plans = filter (λ plan. not (has_plan_id id plan)) plans
