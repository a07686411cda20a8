-- ===== src/Core/TaskRunner/AutoMode.antt =====
-- packages/core/src/orchestrator.ts: `runTask` sets the mode of the tools and puts it back at its end.
use cere_worker.Prelude.{
  ℕ, zero, suc, ◌<◌, Text, Bool, Option, some, List, [], ◌∷◌, ◌++◌, length, ◌≡◌, refl, ◌∙◌,
  get_elem?, arith, Bool-cases, ◌⊎◌, inl, inr,
}
use cere_worker.Core.TaskRunner.{
  TaskRun, Waiting, is_task_running, run_task, end_task, without, start, end_found,
}

-- Calls and ends of runs in any order, except that the run that waits longest ends while others wait.
pub data Steps {O : Type 0} : Waiting O → Waiting O → Type 0 where
  nothing_yet : (w : Waiting O) → Steps w w
  then_start :
      {v w : Waiting O} (exists : Text → Bool) (fresh : Text) (auto : Option Bool) (owner : O)
      (task_id : Text)
      → Steps v w
      → Steps v (start exists fresh auto owner task_id w)
  then_end :
      {v w : Waiting O} (i : ℕ) (run : TaskRun O)
      → get_elem? w.pending i ≡ some run
      → (0 < i) ⊎ (length w.pending ≡ 1)
      → Steps v w
      → Steps v (end_found i w (some run))

module _ {O : Type 0} where
  -- The mode from before the runs that wait.
  mode_before : Bool → List (TaskRun O) → Bool
  mode_before mode [] = mode
  mode_before mode (r ∷ runs) = r.prev_auto_mode

  abbrev rest_mode : Waiting O → Bool
  rest_mode w = mode_before w.runner.auto_mode w.pending

  mode_before-append :
      (mode later : Bool) (runs : List (TaskRun O)) (run : TaskRun O)
      → run.prev_auto_mode ≡ mode
      → mode_before later (runs ++ run ∷ []) ≡ mode_before mode runs
  unfolding mode_before
  mode_before-append mode later [] run h = h
  mode_before-append mode later (r ∷ runs) run h = refl

  mode_before-without :
      (i : ℕ) (mode : Bool) (runs : List (TaskRun O)) (run : TaskRun O)
      → get_elem? runs i ≡ some run
      → (0 < i) ⊎ (length runs ≡ 1)
      → mode_before run.prev_auto_mode (without i runs) ≡ mode_before mode runs
  unfolding mode_before
  mode_before-without i mode [] run e h = cc
  mode_before-without zero mode (r ∷ []) run e h = ground (arith, e)
  mode_before-without zero mode (r ∷ s ∷ runs) run e (inl h) = absurd (omega arith)
  mode_before-without zero mode (r ∷ s ∷ runs) run e (inr h) = absurd (omega arith)
  mode_before-without (suc i) mode (r ∷ runs) run e h = refl

  start-rest_mode :
      (exists : Text → Bool) (fresh : Text) (auto : Option Bool) (owner : O) (task_id : Text)
      (w : Waiting O)
      → rest_mode (start exists fresh auto owner task_id w) ≡ rest_mode w
  unfolding start run_task
  start-rest_mode exists fresh auto owner task_id w =
      elim (Bool-cases (is_task_running task_id w.runner)) [
        | inl t ↦ rw t refl
        | inr t ↦ rw t (mode_before-append _ _ w.pending _ refl)
      ]

  Steps-rest_mode : (v w : Waiting O) → Steps v w → rest_mode w ≡ rest_mode v
  unfolding end_task
  Steps-rest_mode v w (nothing_yet _) = refl
  Steps-rest_mode v _ (then_start {w = u} exists fresh auto owner task_id steps) =
      start-rest_mode exists fresh auto owner task_id u ∙ Steps-rest_mode v u steps
  Steps-rest_mode v _ (then_end {w = u} i run e h steps) =
      mode_before-without i u.runner.auto_mode u.pending run e h ∙ Steps-rest_mode v u steps

  -- If no run waits at first and none at last, and in between no run has ended as the one that waits
  -- longest while others waited, then the mode is at last what it was at first.
  pub Steps-auto_mode :
      (v w : Waiting O)
      → Steps v w
      → v.pending ≡ []
      → w.pending ≡ []
      → w.runner.auto_mode ≡ v.runner.auto_mode
  unfolding mode_before
  Steps-auto_mode v w steps h k = rw (h, k) at (Steps-rest_mode v w steps)
