-- ===== src/Core/Proactive.antt =====
-- packages/core/src/proactive.ts: the controller that resumes the tasks of unfinished plans and runs
-- those that the heartbeat asks for. The runner of tasks is the orchestrator of TaskRunner, the plans
-- are those of PlanStore. A run of a task that is no controller's belongs `elsewhere`.
pub mod Report
pub mod Events
pub mod Limit
pub mod Resume
pub mod Stopping
mod Tests
use cere_worker.Prelude.{
  ℕ, ◌+◌, ◌-◌, String, Text, codes, show, join, truthy, leb, if◌then◌else◌, Bool, true, false, not,
  ◌||◌, Option, none, some, List, [], ◌∷◌, ◌++◌, map, length, count_if, get_elem?,
}
use cere_worker.Core.PlanStore.{
  Plan, PlanInput, PlanStep, PlanStepStatus, in_progress, plan_completed, abandoned, step_pending,
  step_done, save, get_in_progress, update_status, update_step,
}
use cere_worker.Core.TaskRunner.{
  Runner, TaskRun, Waiting, is_task_running, run_task, wait_for, end_found, start,
}

pub data ResumeOnBoot : Type 0 where
  auto notify_only : ResumeOnBoot

pub record ProactiveConfig : Type 0 where
  pub enabled : Bool
  pub resume_on_boot : ResumeOnBoot
  pub status_reports : Bool
  pub max_concurrent_proactive : ℕ

pub data Source : Type 0 where
  resume_check resume resume_complete resume_error task_complete task_error status_report : Source

-- `sendToUser` and `broadcastToChannels`
pub data Output : Type 0 where
  to_user : Text → Source → Output
  to_channels : Text → Output

-- What waits for the end of a run.
pub data Owner : Type 0 where
  resumed : Plan → Owner
  heartbeat elsewhere : Owner

pub record Controller : Type 0 where
  pub config : ProactiveConfig
  pub plans : List Plan
  pub waiting : Waiting Owner
  pub active_proactive : ℕ
  pub stopped : Bool
  pub sent : List Output

-- The result of `runTask`, or what it throws.
pub data Outcome : Type 0 where
  succeeded : Outcome
  failed : Option Text → Outcome
  crashed : Text → Outcome

-- What `runTask` asks of the conversations: whether an id is known, and the id of a
-- conversation that is created for a task.
pub record Conversations : Type 0 where
  pub exists : Text → Bool
  pub fresh : Text → Text

abbrev pub send_to_user : Text → Source → Controller → Controller
send_to_user content source c = record c { sent = c.sent ++ to_user content source ∷ [] }

abbrev pub notify : Text → Source → Controller → Controller
notify content source c = record c {
  sent = c.sent ++ to_user content source ∷ to_channels content ∷ [];
}

abbrev is_done : PlanStep → Bool
is_done s = elim s.status [ step_done ↦ true | _ ↦ false ]

unfoldable pub completed_steps : Plan → ℕ
unfolding count_if
completed_steps plan = count_if is_done plan.steps

-- `${plan.goal} (${done}/${all} steps done)`
unfoldable pub progress_text : String → Plan → Text
unfolding completed_steps show
progress_text tail plan =
    plan.goal
    ++ codes " ("
    ++ show (completed_steps plan)
    ++ codes "/"
    ++ show (length plan.steps)
    ++ codes tail

unfoldable pub resume_summary : List Plan → Text
unfolding progress_text show join
resume_summary plans =
    codes "You have "
    ++ show (length plans)
    ++ codes " unfinished task(s) from a previous session:\n"
    ++ join (codes "\n") (map (λ p. codes "- " ++ progress_text " steps done)" p) plans)
    ++ codes "\n\nSay \"resume\" or \"resume <task>\" to continue, or \"abandon\" to discard."

abbrev pub error_text : Option Text → Text
error_text none = codes "undefined"
error_text (some error) = error

abbrev task_text : Text → String → Text
task_text task_id rest = codes "Task \"" ++ task_id ++ codes rest

abbrev resumed_text : Plan → String → Text
resumed_text plan rest = codes "Resumed task \"" ++ plan.goal ++ codes rest

-- What follows the `await` of `runTask` in `runAndNotify`.
unfoldable pub after_resumed : ℕ → Plan → Outcome → Controller → Controller
unfolding update_status
after_resumed now plan succeeded c =
    notify (resumed_text plan "\" completed successfully.") resume_complete
      (record c { plans = update_status now plan.id plan_completed c.plans })
after_resumed now plan (failed error) c =
    notify (resumed_text plan "\" failed: " ++ error_text error) resume_error c
after_resumed now plan (crashed error) c =
    notify (resumed_text plan "\" crashed: " ++ error) resume_error c

-- What follows it in `onHeartbeatInvoke`.
unfoldable pub after_invoked : Text → Outcome → Controller → Controller
after_invoked task_id succeeded c =
    notify (task_text task_id "\" completed successfully.") task_complete c
after_invoked task_id (failed error) c =
    notify (task_text task_id "\" failed: " ++ error_text error) task_error c
after_invoked task_id (crashed error) c =
    notify (task_text task_id "\" crashed: " ++ error) task_error c

abbrev one_less : Controller → Controller
one_less c = record c { active_proactive = c.active_proactive - 1 }

-- The end of a run, with the `finally` of the call that waited for it.
unfoldable pub settled : ℕ → Owner → Text → Outcome → Controller → Controller
unfolding after_resumed after_invoked
settled now (resumed plan) task_id outcome c = one_less (after_resumed now plan outcome c)
settled now heartbeat task_id outcome c = one_less (after_invoked task_id outcome c)
settled now elsewhere task_id outcome c = c

abbrev pub settle_found : ℕ → ℕ → Outcome → Controller → Option (TaskRun Owner) → Controller
settle_found now i outcome c none = c
settle_found now i outcome c (some run) =
    settled now run.owner run.task_id outcome
      (record c { waiting = end_found i c.waiting (some run) })

-- A run that `runTask` refuses at once has its result at once.
abbrev pub started : ℕ → Owner → Text → Controller → Option (Runner × TaskRun Owner) → Controller
started now owner task_id c none =
    settled now owner task_id (failed (some (codes "Task already running"))) c
started now owner task_id c (some (r, run)) = record c {
  waiting = wait_for c.waiting (some (r, run));
}

abbrev one_more : Controller → Controller
one_more c = record c { active_proactive = c.active_proactive + 1 }

-- The call of `runTask` in auto mode, counted as active.
unfoldable pub launch : ℕ → Conversations → Owner → Text → Controller → Controller
unfolding run_task settled
launch now convs owner task_id c =
    started now owner task_id (one_more c)
      (run_task convs.exists (convs.fresh task_id) (some true) owner task_id c.waiting.runner)

-- The body of the loop over the plans, past its first line.
abbrev pub resume_task : ℕ → Conversations → Plan → Controller → Option Text → Controller
resume_task now convs plan c none = c
resume_task now convs plan c (some task_id) =
    if is_task_running task_id c.waiting.runner
    then c
    else launch now convs (resumed plan) task_id
        (send_to_user (codes "Resuming task: " ++ progress_text " steps done)" plan) resume c)

abbrev pub is_full : Controller → Bool
is_full c = c.stopped || leb c.config.max_concurrent_proactive c.active_proactive

unfoldable pub resume_plans : ℕ → Conversations → List Plan → Controller → Controller
unfolding launch is_task_running
resume_plans now convs [] c = c
resume_plans now convs (plan ∷ rest) c =
    let later = resume_plans now convs rest (resume_task now convs plan c (truthy plan.task_id)) in
    if is_full c then c else later

abbrev pub resume_found : ℕ → Conversations → ResumeOnBoot → List Plan → Controller → Controller
resume_found now convs mode [] c = c
resume_found now convs notify_only (plan ∷ rest) c =
    send_to_user (resume_summary (plan ∷ rest)) resume_check c
resume_found now convs auto (plan ∷ rest) c = resume_plans now convs (plan ∷ rest) c

abbrev pub is_off : Controller → Bool
is_off c = not c.config.enabled || c.stopped

unfoldable pub resume_unfinished : ℕ → Conversations → Controller → Controller
unfolding resume_plans get_in_progress resume_summary
resume_unfinished now convs c =
    if is_off c
    then c
    else resume_found now convs c.config.resume_on_boot (get_in_progress c.plans) c

unfoldable pub on_heartbeat_invoke : ℕ → Conversations → Text → Controller → Controller
unfolding launch is_task_running
on_heartbeat_invoke now convs task_id c =
    if is_off c
    then c
    else if leb c.config.max_concurrent_proactive c.active_proactive
    then c
    else if is_task_running task_id c.waiting.runner
    then c
    else launch now convs heartbeat task_id c

unfoldable pub end_run : ℕ → ℕ → Outcome → Controller → Controller
unfolding settled
end_run now i outcome c = settle_found now i outcome c (get_elem? c.waiting.pending i)

unfoldable pub stop : Controller → Controller
stop c = record c { stopped = true }

abbrev pending_step : Text → PlanStep
pending_step description = record { description = description; status = step_pending }

unfoldable pub create_plan :
    Text → ℕ → Text → Text → List Text → Option Text → Controller → Controller × Plan
unfolding save
create_plan fresh now task_id goal steps conversation_id c =
    let (plans, plan) =
      save fresh now
        (record {
          id = none;
          task_id = some task_id;
          goal = goal;
          steps = map pending_step steps;
          conversation_id = conversation_id;
          status = in_progress;
        })
        c.plans in
    (record c { plans = plans }, plan)

unfoldable pub complete_step : ℕ → Text → ℕ → Controller → Controller
unfolding update_step
complete_step now plan_id i c = record c { plans = update_step now plan_id i step_done c.plans }

unfoldable pub complete_plan : ℕ → Text → Controller → Controller
unfolding update_status
complete_plan now plan_id c = record c { plans = update_status now plan_id plan_completed c.plans }

unfoldable pub abandon_plan : ℕ → Text → Controller → Controller
unfolding update_status
abandon_plan now plan_id c = record c { plans = update_status now plan_id abandoned c.plans }

-- A run that another part of the program starts at the same orchestrator.
unfoldable pub run_elsewhere : Conversations → Option Bool → Text → Controller → Controller
unfolding start
run_elsewhere convs mode task_id c = record c {
  waiting = start convs.exists (convs.fresh task_id) mode elsewhere task_id c.waiting;
}
