-- ===== src/Core/Proactive/Tests.antt =====
-- packages/core/src/proactive.ts on concrete input: three plans of two tasks, room for two runs.
use cere_worker.Prelude.{
  ℕ, Text, codes, true, false, Option, none, some, List, [], ◌∷◌, map, length, count_if, ◌≡◌, refl,
  arith,
}
use cere_worker.Core.PlanStore.{Plan, PlanStatus, in_progress, plan_completed, get_in_progress}
use cere_worker.Core.TaskRunner.{end_task}
use cere_worker.Core.Proactive.{
  Controller, Conversations, resumed, auto, to_user, to_channels, succeeded, failed,
  resume_unfinished, completed_steps, end_run, stop, create_plan, resume_summary, status_report,
}
use cere_worker.Core.Proactive.Events.{Event, resuming, invoking, ending, running_elsewhere, steps}
use cere_worker.Core.Proactive.Limit.{IsWithin, steps-IsWithin}
use cere_worker.Core.Proactive.Resume.{Resumes, owners, resume_unfinished-Resumes}
use cere_worker.Core.Proactive.Stopping.{
  StaysStopped, steps-StaysStopped, first_ends, ends-none_active,
}
use cere_worker.Core.Proactive.Report.{Instance, send_status_report}

abbrev plan_of : Text → Option Text → ℕ → Plan
plan_of id task_id created = record {
  id = id;
  task_id = task_id;
  goal = codes "tidy";
  steps = [];
  conversation_id = none;
  created_at = created;
  updated_at = created;
  status = in_progress;
}

abbrev convs : Conversations
convs = record { exists = λ id. true; fresh = λ task_id. codes "c" }

abbrev at_boot : Controller
at_boot = record {
  config = record {
    enabled = true;
    resume_on_boot = auto;
    status_reports = true;
    max_concurrent_proactive = 2;
  };
  plans =
      plan_of (codes "p") (some (codes "a")) 1
      ∷ plan_of (codes "q") (some (codes "a")) 2
      ∷ plan_of (codes "r") none 3
      ∷ plan_of (codes "s") (some (codes "b")) 4
      ∷ plan_of (codes "t") (some (codes "d")) 5
      ∷ [];
  waiting = record {
    runner = record { task_running = []; task_conversations = []; auto_mode = false };
    pending = [];
  };
  active_proactive = 0;
  stopped = false;
  sent = [];
}

at_boot-IsWithin : IsWithin at_boot
unfolding count_if
at_boot-IsWithin = ((refl, tt), refl, omega arith)

abbrev some_events : List Event
some_events =
    resuming 9 convs
    ∷ invoking 9 convs (codes "e")
    ∷ running_elsewhere convs none (codes "e")
    ∷ ending 10 0 (failed none)
    ∷ invoking 11 convs (codes "d")
    ∷ []

steps-IsWithin_example : IsWithin (steps some_events at_boot)
steps-IsWithin_example = steps-IsWithin some_events at_boot at_boot-IsWithin

resume_unfinished-Resumes_example :
    Resumes at_boot (get_in_progress at_boot.plans) (resume_unfinished 9 convs at_boot)
resume_unfinished-Resumes_example = resume_unfinished-Resumes 9 convs at_boot refl refl

abbrev booted : Controller
booted = resume_unfinished 9 convs at_boot

resumed_plans :
    owners booted.waiting.pending
    ≡ resumed (plan_of (codes "p") (some (codes "a")) 1)
      ∷ resumed (plan_of (codes "s") (some (codes "b")) 4)
      ∷ []
unfolding resume_unfinished
resumed_plans = refl

running_now :
    (steps some_events at_boot).waiting.runner.task_running ≡ codes "b" ∷ codes "e" ∷ codes "d" ∷ []
unfolding steps end_task
running_now = refl

booted_stops : (stop booted).stopped ≡ true
unfolding stop
booted_stops = refl

steps-StaysStopped_example :
    StaysStopped (stop booted) (steps (resuming 9 convs ∷ ending 9 1 succeeded ∷ []) (stop booted))
steps-StaysStopped_example =
    steps-StaysStopped (resuming 9 convs ∷ ending 9 1 succeeded ∷ []) (stop booted) booted_stops

booted-IsWithin : IsWithin booted
unfolding steps
booted-IsWithin = steps-IsWithin (resuming 9 convs ∷ []) at_boot at_boot-IsWithin

two_wait : length (succeeded ∷ failed none ∷ []) ≡ length booted.waiting.pending
unfolding resume_unfinished
two_wait = refl

ends-none_active_example :
    let d = steps (map (first_ends 12) (succeeded ∷ failed none ∷ [])) booted in
    (d.active_proactive ≡ 0) × (d.waiting.runner.task_running ≡ [])
ends-none_active_example =
    ends-none_active 12 (succeeded ∷ failed none ∷ []) booted booted-IsWithin two_wait

abbrev statuses : Controller → List PlanStatus
statuses c = map (λ p. p.status) c.plans

-- A plan is completed with its run; the plan of a run that failed is resumed at the next start.
completed_with_run :
    statuses (end_run 12 0 succeeded (end_run 12 1 (failed none) booted))
    ≡ plan_completed ∷ in_progress ∷ in_progress ∷ in_progress ∷ in_progress ∷ []
unfolding end_run resume_unfinished
completed_with_run = refl

abbrev made : Controller × Plan
made =
    create_plan (codes "n") 13 (codes "t") (codes "goal") (codes "x" ∷ codes "y" ∷ []) none at_boot

made_steps : completed_steps made.1 ≡ 0
unfolding create_plan completed_steps
made_steps = refl

summary :
    resume_summary (plan_of (codes "p") none 1 ∷ [])
    ≡ codes
        "You have 1 unfinished task(s) from a previous session:\n- tidy (0/0 steps done)\n\nSay \"resume\" or \"resume <task>\" to continue, or \"abandon\" to discard."
unfolding resume_summary
summary = refl

abbrev instance_of : Instance
instance_of = record {
  name = codes "Cere";
  id = codes "0123456789";
  conversation_count = 4;
  finetune_lineage =
      record { completed_at = codes "2026-01-02T03:04"; loss_text = codes "0.125" } ∷ [];
}

report :
    (send_status_report
      (codes "2026-01-03")
      (some instance_of)
      (λ text. none)
      (record at_boot { plans = plan_of (codes "p") none 1 ∷ [] })).sent
    ≡ (let text =
          codes
            "**Status Report** — 2026-01-03\nInstance: Cere (01234567)\nConversations: 4\nFine-tune cycles: 1 (last: 2026-01-02, loss: 0.125)\nIn-progress plans: 1\n\n- tidy (0/0 steps)" in
        to_user text status_report ∷ to_channels text ∷ [])
unfolding send_status_report
report = refl
