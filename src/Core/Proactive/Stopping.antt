-- ===== src/Core/Proactive/Stopping.antt =====
-- packages/core/src/proactive.ts: the controller once it has stopped, and once its runs have ended.
use cere_worker.Prelude.{
  ℕ, zero, suc, ◌≤◌, true, none, some, List, [], ◌∷◌, map, length, ◌≡◌, refl, sym, ◌∙◌, ap,
  count_if, get_elem?, arith, Option-cases, inl, inr,
}
use cere_worker.Core.TaskRunner.{TaskRun, without, end_found}
use cere_worker.Core.TaskRunner.Running.{ids}
use cere_worker.Core.Proactive.{
  Controller, Owner, Outcome, is_off, resume_unfinished, on_heartbeat_invoke, end_run, stop,
  create_plan, complete_step, complete_plan, abandon_plan, run_elsewhere,
}
use cere_worker.Core.Proactive.Events.{
  Event, resuming, invoking, ending, stopping, planning, step_completing, completing, abandoning,
  running_elsewhere, step, steps,
}
use cere_worker.Core.Proactive.Limit.{is_own, settled-Frame, IsWithin, steps-IsWithin}

-- It has stopped, and it counts no more runs than before.
abbrev pub StaysStopped : Controller → Controller → Type 0
StaysStopped c d = (d.stopped ≡ true) × (d.active_proactive ≤ c.active_proactive)

without-absent {ℓ} : {A : Type ℓ} (i : ℕ) (xs : List A) → get_elem? xs i ≡ none → xs ≡ without i xs
without-absent i [] e = refl
without-absent zero (x ∷ xs) e = cc
without-absent (suc i) (x ∷ xs) e = ap (λ r. x ∷ r) (without-absent i xs e)

end_run-frame :
    (now i : ℕ) (outcome : Outcome) (c : Controller)
    → ((end_run now i outcome c).stopped ≡ c.stopped)
      × ((end_run now i outcome c).active_proactive ≤ c.active_proactive)
      × ((end_run now i outcome c).waiting.pending ≡ without i c.waiting.pending)
unfolding end_run
end_run-frame now i outcome c = elim (Option-cases (get_elem? c.waiting.pending i)) [
  | inl e ↦ rw e (refl, omega arith, without-absent i _ e)
  | inr (run, e) ↦
      let (waits, _, same, active) =
        settled-Frame now run.owner run.task_id outcome
          (record c { waiting = end_found i c.waiting (some run) }) in
      rw (e, waits, same, active) (refl, ground arith, refl)
]

step-StaysStopped : (e : Event) (c : Controller) → c.stopped ≡ true → StaysStopped c (step e c)
unfolding resume_unfinished on_heartbeat_invoke stop create_plan complete_step complete_plan
    abandon_plan run_elsewhere
step-StaysStopped (resuming now convs) c h =
    let off : is_off c ≡ true = ground (arith, h) in rw off (h, omega arith)
step-StaysStopped (invoking now convs task_id) c h =
    let off : is_off c ≡ true = ground (arith, h) in rw off (h, omega arith)
step-StaysStopped (ending now i outcome) c h =
    let (same, le, _) = end_run-frame now i outcome c in (same ∙ h, le)
step-StaysStopped stopping c h = (refl, omega arith)
step-StaysStopped (planning fresh now task_id goal steps conversation_id) c h = (h, omega arith)
step-StaysStopped (step_completing now plan_id i) c h = (h, omega arith)
step-StaysStopped (completing now plan_id) c h = (h, omega arith)
step-StaysStopped (abandoning now plan_id) c h = (h, omega arith)
step-StaysStopped (running_elsewhere convs mode task_id) c h = (h, omega arith)

-- A controller that has stopped stays stopped, and it counts no more runs after any events than before
-- them: it starts none.
pub steps-StaysStopped :
    (events : List Event) (c : Controller) → c.stopped ≡ true → StaysStopped c (steps events c)
unfolding steps
steps-StaysStopped [] c h = (h, omega arith)
steps-StaysStopped (e ∷ events) c h =
    let (stays, le) = step-StaysStopped e c h in
    let (later, le') = steps-StaysStopped events (step e c) stays in (later, omega (arith, le, le'))

abbrev pub first_ends : ℕ → Outcome → Event
first_ends now outcome = ending now 0 outcome

ends-none_pending :
    (now : ℕ) (outcomes : List Outcome) (c : Controller)
    → length outcomes ≡ length c.waiting.pending
    → (steps (map (first_ends now) outcomes) c).waiting.pending ≡ []
unfolding steps
ends-none_pending now [] c h = empty_of c.waiting.pending h
  where
    empty_of : (runs : List (TaskRun Owner)) → 0 ≡ length runs → runs ≡ []
    empty_of [] h = refl
    empty_of (r ∷ runs) h = absurd (omega arith)
ends-none_pending now (outcome ∷ outcomes) c h =
    let d = end_run now 0 outcome c in
    let (_, _, pending) = end_run-frame now 0 outcome c in
    ends-none_pending now outcomes d (one_left c.waiting.pending h ∙ ap length (sym pending))
  where
    one_left :
        (runs : List (TaskRun Owner))
        → suc (length outcomes) ≡ length runs
        → length outcomes ≡ length (without 0 runs)
    one_left [] h = absurd (omega arith)
    one_left (r ∷ runs) h = omega arith

-- Once each of the runs that wait has ended, in the order of their starts and in whatever way, the
-- controller counts none and the orchestrator calls no task running: no failure and no crash of a task
-- takes a place of the limit for good.
pub ends-none_active :
    (now : ℕ) (outcomes : List Outcome) (c : Controller)
    → IsWithin c
    → length outcomes ≡ length c.waiting.pending
    → let d = steps (map (first_ends now) outcomes) c in
      (d.active_proactive ≡ 0) × (d.waiting.runner.task_running ≡ [])
unfolding count_if
ends-none_active now outcomes c h e =
    let ((tracked, _), n, _) = steps-IsWithin (map (first_ends now) outcomes) c h in
    let gone = ends-none_pending now outcomes c e in
    (n ∙ ap (count_if is_own) gone, tracked ∙ ap ids gone)
