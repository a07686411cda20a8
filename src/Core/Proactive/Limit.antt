-- ===== src/Core/Proactive/Limit.antt =====
-- packages/core/src/proactive.ts: the count of the controller's runs, over events in any order.
use cere_worker.Prelude.{
  ℕ, zero, suc, ◌+◌, ◌-◌, ◌≤◌, ◌<◌, Text, codes, leb, if◌then◌else◌, Bool, true, false, Option,
  none, some, List, [], ◌∷◌, ◌++◌, ◌≡◌, refl, sym, ◌∙◌, truthy, count_if, get_elem?, arith,
  Bool-cases, Option-cases, inl, inr,
}
use cere_worker.Core.PlanStore.{Plan, get_in_progress}
use cere_worker.Core.TaskRunner.{
  Runner, TaskRun, Waiting, is_task_running, run_task, without, start, end_found, wait_for,
}
use cere_worker.Core.TaskRunner.Running.{IsTracked, start-IsTracked, end_found-IsTracked}
use cere_worker.Core.Proactive.{
  Controller, Owner, resumed, heartbeat, elsewhere, Outcome, succeeded, failed, crashed,
  Conversations, auto, notify_only, ResumeOnBoot, after_resumed, after_invoked, settled, started,
  launch, resume_task, is_full, resume_plans, resume_found, is_off, resume_unfinished,
  on_heartbeat_invoke, end_run, stop, create_plan, complete_step, complete_plan, abandon_plan,
  run_elsewhere,
}
use cere_worker.Core.Proactive.Events.{
  Event, resuming, invoking, ending, stopping, planning, step_completing, completing, abandoning,
  running_elsewhere, step, steps,
}

abbrev pub own_of : Owner → Bool
own_of owner = elim owner [ elsewhere ↦ false | _ ↦ true ]

abbrev pub is_own : TaskRun Owner → Bool
is_own run = own_of run.owner

-- The runs that are the controller's are as many as it counts, and within the limit; the tasks that
-- the runner calls running are those of the runs that wait, each once.
abbrev pub Within : ℕ → ℕ → Waiting Owner → Type 0
Within limit active w = IsTracked w × (active ≡ count_if is_own w.pending) × (active ≤ limit)

abbrev pub IsWithin : Controller → Type 0
IsWithin c = Within c.config.max_concurrent_proactive c.active_proactive c.waiting

count_if-append_one :
    (runs : List (TaskRun Owner)) (run : TaskRun Owner)
    → count_if is_own (runs ++ run ∷ [])
      ≡ (if is_own run then suc (count_if is_own runs) else count_if is_own runs)
unfolding count_if
count_if-append_one [] run = refl
count_if-append_one (r ∷ runs) run = ground (arith, count_if-append_one runs run)

count_if-without :
    (i : ℕ) (runs : List (TaskRun Owner)) {run : TaskRun Owner}
    → get_elem? runs i ≡ some run
    → count_if is_own runs ≡ (
        if is_own run
        then suc (count_if is_own (without i runs))
        else count_if is_own (without i runs))
unfolding count_if
count_if-without i [] e = cc
count_if-without zero (r ∷ runs) {run} e = let same : r ≡ run = ground (arith, e) in rw same refl
count_if-without (suc i) (r ∷ runs) {run} e = ground (arith, count_if-without i runs {run = run} e)

-- What the end of a run does to the rest: it is counted no more if it is the controller's.
abbrev pub Frame : Owner → Controller → Controller → Type 0
Frame owner c d =
    (d.waiting ≡ c.waiting)
    × (d.config ≡ c.config)
    × (d.stopped ≡ c.stopped)
    × (d.active_proactive ≡ (if own_of owner then c.active_proactive - 1 else c.active_proactive))

pub settled-Frame :
    (now : ℕ) (owner : Owner) (task_id : Text) (outcome : Outcome) (c : Controller)
    → Frame owner c (settled now owner task_id outcome c)
unfolding settled after_resumed after_invoked
settled-Frame now (resumed plan) task_id succeeded c = (refl, refl, refl, refl)
settled-Frame now (resumed plan) task_id (failed error) c = (refl, refl, refl, refl)
settled-Frame now (resumed plan) task_id (crashed error) c = (refl, refl, refl, refl)
settled-Frame now heartbeat task_id succeeded c = (refl, refl, refl, refl)
settled-Frame now heartbeat task_id (failed error) c = (refl, refl, refl, refl)
settled-Frame now heartbeat task_id (crashed error) c = (refl, refl, refl, refl)
settled-Frame now elsewhere task_id outcome c = (refl, refl, refl, refl)

run_task-owner :
    (convs : Conversations) (mode : Option Bool) (owner : Owner) (task_id : Text) (r r' : Runner)
    (run : TaskRun Owner)
    → run_task convs.exists (convs.fresh task_id) mode owner task_id r ≡ some (r', run)
    → run.owner ≡ owner
unfolding run_task
run_task-owner convs mode owner task_id r r' run e = ground arith

if-IsWithin :
    (b : Bool) (c d : Controller)
    → IsWithin c
    → (b ≡ false → IsWithin d)
    → IsWithin (if b then c else d)
if-IsWithin true c d h k = h
if-IsWithin false c d h k = k refl

-- `c` counts one run more than wait.
started-IsWithin :
    (now : ℕ) (owner : Owner) (task_id : Text) (c : Controller)
    (o : Option (Runner × TaskRun Owner))
    → own_of owner ≡ true
    → ((r : Runner) (run : TaskRun Owner) → o ≡ some (r, run) → run.owner ≡ owner)
    → c.active_proactive ≡ suc (count_if is_own c.waiting.pending)
    → c.active_proactive ≤ c.config.max_concurrent_proactive
    → IsTracked c.waiting
    → IsTracked (wait_for c.waiting o)
    → IsWithin (started now owner task_id c o)
started-IsWithin now owner task_id c none own its n le t t' =
    let (waits, config, _, active) =
      settled-Frame now owner task_id (failed (some (codes "Task already running"))) c in
    rw (waits, config, active, own) (t, omega (arith, n), omega (arith, le))
started-IsWithin now owner task_id c (some (r, run)) own its n le t t' =
    let counted : own_of run.owner ≡ true = rw (its r run refl) own in
    (t', n ∙ sym (count_if-append_one c.waiting.pending run ∙ rw counted refl), le)

count_if-wait_for :
    (w : Waiting Owner) (o : Option (Runner × TaskRun Owner))
    → ((r : Runner) (run : TaskRun Owner) → o ≡ some (r, run) → run.owner ≡ elsewhere)
    → count_if is_own (wait_for w o).pending ≡ count_if is_own w.pending
count_if-wait_for w none its = refl
count_if-wait_for w (some (r, run)) its =
    count_if-append_one w.pending run ∙ rw (its r run refl) refl

launch-IsWithin :
    (now : ℕ) (convs : Conversations) (owner : Owner) (task_id : Text) (c : Controller)
    → own_of owner ≡ true
    → c.active_proactive < c.config.max_concurrent_proactive
    → IsWithin c
    → IsWithin (launch now convs owner task_id c)
unfolding launch start
launch-IsWithin now convs owner task_id c own room (t, n, le) =
    started-IsWithin now owner task_id (record c { active_proactive = c.active_proactive + 1 })
      (run_task convs.exists (convs.fresh task_id) (some true) owner task_id c.waiting.runner) own
      (run_task-owner convs (some true) owner task_id c.waiting.runner) (omega (arith, n))
      (omega (arith, room)) t
      (start-IsTracked convs.exists (convs.fresh task_id) (some true) owner task_id c.waiting t)

resume_task-IsWithin :
    (now : ℕ) (convs : Conversations) (plan : Plan) (c : Controller) (o : Option Text)
    → c.active_proactive < c.config.max_concurrent_proactive
    → IsWithin c
    → IsWithin (resume_task now convs plan c o)
resume_task-IsWithin now convs plan c none room h = h
resume_task-IsWithin now convs plan c (some task_id) room h =
    if-IsWithin (is_task_running task_id c.waiting.runner) c _ h
      (λ _. launch-IsWithin now convs (resumed plan) task_id _ refl room h)

resume_plans-IsWithin :
    (now : ℕ) (convs : Conversations) (plans : List Plan) (c : Controller)
    → IsWithin c
    → IsWithin (resume_plans now convs plans c)
unfolding resume_plans
resume_plans-IsWithin now convs [] c h = h
resume_plans-IsWithin now convs (plan ∷ rest) c h = elim (Bool-cases (is_full c)) [
  | inl e ↦ rw e h
  | inr e ↦
      let room : c.active_proactive < c.config.max_concurrent_proactive = ground (arith, e) in
      rw e (
        resume_plans-IsWithin now convs rest _
          (resume_task-IsWithin now convs plan c (truthy plan.task_id) room h))
]

resume_found-IsWithin :
    (now : ℕ) (convs : Conversations) (mode : ResumeOnBoot) (plans : List Plan) (c : Controller)
    → IsWithin c
    → IsWithin (resume_found now convs mode plans c)
resume_found-IsWithin now convs mode [] c h = h
resume_found-IsWithin now convs notify_only (plan ∷ rest) c h = h
resume_found-IsWithin now convs auto (plan ∷ rest) c h =
    resume_plans-IsWithin now convs (plan ∷ rest) c h

on_heartbeat_invoke-IsWithin :
    (now : ℕ) (convs : Conversations) (task_id : Text) (c : Controller)
    → IsWithin c
    → IsWithin (on_heartbeat_invoke now convs task_id c)
unfolding on_heartbeat_invoke
on_heartbeat_invoke-IsWithin now convs task_id c h = if-IsWithin (is_off c) c _ h (λ _.
    if-IsWithin (leb c.config.max_concurrent_proactive c.active_proactive) c _ h (λ f.
      let room : c.active_proactive < c.config.max_concurrent_proactive = ground (arith, f) in
      if-IsWithin (is_task_running task_id c.waiting.runner) c _ h
        (λ _. launch-IsWithin now convs heartbeat task_id c refl room h)))

end_run-IsWithin :
    (now i : ℕ) (outcome : Outcome) (c : Controller)
    → IsWithin c
    → IsWithin (end_run now i outcome c)
unfolding end_run
end_run-IsWithin now i outcome c (t, n, le) = elim (Option-cases (get_elem? c.waiting.pending i)) [
  | inl e ↦ rw e (t, n, le)
  | inr (run, e) ↦
      let left = end_found i c.waiting (some run) in
      let tracked : IsTracked left = rw e at (end_found-IsTracked i c.waiting t) in
      let counts = count_if-without i c.waiting.pending e in
      let (waits, config, _, active) =
        settled-Frame now run.owner run.task_id outcome (record c { waiting = left }) in
      rw (e, waits, config, active) (tracked, ground (arith, n, counts), ground (arith, le))
]

step-IsWithin : (e : Event) (c : Controller) → IsWithin c → IsWithin (step e c)
unfolding resume_unfinished stop create_plan complete_step complete_plan abandon_plan run_elsewhere
    start
step-IsWithin (resuming now convs) c h =
    if-IsWithin (is_off c) c _ h
      (λ _. resume_found-IsWithin now convs c.config.resume_on_boot (get_in_progress c.plans) c h)
step-IsWithin (invoking now convs task_id) c h = on_heartbeat_invoke-IsWithin now convs task_id c h
step-IsWithin (ending now i outcome) c h = end_run-IsWithin now i outcome c h
step-IsWithin stopping c h = h
step-IsWithin (planning fresh now task_id goal steps conversation_id) c h = h
step-IsWithin (step_completing now plan_id i) c h = h
step-IsWithin (completing now plan_id) c h = h
step-IsWithin (abandoning now plan_id) c h = h
step-IsWithin (running_elsewhere convs mode task_id) c (t, n, le) =
    let mine = run_task-owner convs mode elsewhere task_id c.waiting.runner in
    let task =
      run_task convs.exists (convs.fresh task_id) mode elsewhere task_id c.waiting.runner in
    (
      start-IsTracked convs.exists (convs.fresh task_id) mode elsewhere task_id c.waiting t,
      n ∙ sym (count_if-wait_for c.waiting task mine),
      le,
    )

-- Over any calls of the controller, ends of runs and runs of others at the same orchestrator, in any
-- order: the controller counts its runs as many as there are, never more than its limit, and the tasks
-- that the orchestrator calls running are those of the runs that wait, with no task running twice.
pub steps-IsWithin : (events : List Event) (c : Controller) → IsWithin c → IsWithin (steps events c)
unfolding steps
steps-IsWithin [] c h = h
steps-IsWithin (e ∷ events) c h = steps-IsWithin events (step e c) (step-IsWithin e c h)
