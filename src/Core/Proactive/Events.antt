-- ===== src/Core/Proactive/Events.antt =====
-- packages/core/src/proactive.ts: what happens to the controller, in any order.
use cere_worker.Prelude.{ℕ, Text, Bool, Option, List, [], ◌∷◌}
use cere_worker.Core.Proactive.{
  Controller, Outcome, Conversations, resume_unfinished, on_heartbeat_invoke, end_run, stop,
  create_plan, complete_step, complete_plan, abandon_plan, run_elsewhere,
}

-- The calls of the controller, the ends of runs and the runs of others.
pub data Event : Type 0 where
  resuming : ℕ → Conversations → Event
  invoking : ℕ → Conversations → Text → Event
  ending : ℕ → ℕ → Outcome → Event
  stopping : Event
  planning : Text → ℕ → Text → Text → List Text → Option Text → Event
  step_completing : ℕ → Text → ℕ → Event
  completing abandoning : ℕ → Text → Event
  running_elsewhere : Conversations → Option Bool → Text → Event

abbrev pub step : Event → Controller → Controller
step (resuming now convs) c = resume_unfinished now convs c
step (invoking now convs task_id) c = on_heartbeat_invoke now convs task_id c
step (ending now i outcome) c = end_run now i outcome c
step stopping c = stop c
step (planning fresh now task_id goal steps conversation_id) c =
    (create_plan fresh now task_id goal steps conversation_id c).0
step (step_completing now plan_id i) c = complete_step now plan_id i c
step (completing now plan_id) c = complete_plan now plan_id c
step (abandoning now plan_id) c = abandon_plan now plan_id c
step (running_elsewhere convs mode task_id) c = run_elsewhere convs mode task_id c

unfoldable pub steps : List Event → Controller → Controller
unfolding resume_unfinished on_heartbeat_invoke end_run stop create_plan complete_step complete_plan
    abandon_plan run_elsewhere
steps [] c = c
steps (e ∷ events) c = steps events (step e c)
