-- ===== src/Core/TaskRunner/Tests.antt =====
-- packages/core/src/orchestrator.ts: runs of tasks on concrete input.
use cere_worker.Prelude.{
  Text, codes, Bool, true, false, none, some, [], ◌∷◌, ◌≡◌, refl, inl, inr, arith,
}
use cere_worker.Core.TaskRunner.{
  TaskRun, Waiting, run_task, start, end_task, end_found, get_task_conversation,
}
use cere_worker.Core.TaskRunner.AutoMode.{Steps, nothing_yet, then_start, then_end, Steps-auto_mode}

abbrev at_rest : Waiting Unit
at_rest = record {
  runner = record { task_running = []; task_conversations = []; auto_mode = false };
  pending = [];
}

abbrev run_of : Text → Bool → TaskRun Unit
run_of id prev = record { task_id = id; prev_auto_mode = prev; owner = tt }

abbrev both : Waiting Unit
both =
    start (λ _. true) (codes "c2") (some true) tt (codes "b")
      (start (λ _. true) (codes "c1") (some true) tt (codes "a") at_rest)

both_wait : both.pending ≡ run_of (codes "a") false ∷ run_of (codes "b") true ∷ []
unfolding start run_task
both_wait = refl

started_twice : run_task (λ _. true) (codes "c3") (some true) tt (codes "a") both.runner ≡ none
unfolding start run_task
started_twice = refl

own_conversation : get_task_conversation (codes "b") both.runner ≡ some (codes "c2")
unfolding start run_task get_task_conversation
own_conversation = refl

abbrev nested : Waiting Unit
nested =
    end_found 0 (end_found 1 both (some (run_of (codes "b") true)))
      (some (run_of (codes "a") false))

nested-Steps : Steps at_rest nested
unfolding start run_task end_task
nested-Steps = then_end 0 (run_of (codes "a") false) refl (inr refl) (
    then_end 1 (run_of (codes "b") true) refl (inl (omega arith)) (
      then_start (λ _. true) (codes "c2") (some true) tt (codes "b")
        (then_start (λ _. true) (codes "c1") (some true) tt (codes "a") (nothing_yet at_rest))))

nothing_waits : nested.pending ≡ []
unfolding start run_task end_task
nothing_waits = refl

Steps-auto_mode_example : nested.runner.auto_mode ≡ false
Steps-auto_mode_example = Steps-auto_mode at_rest nested nested-Steps refl nothing_waits

-- The run that was started first ends first: the mode of the second stays.
abbrev overlapped : Waiting Unit
overlapped =
    end_found 0 (end_found 0 both (some (run_of (codes "a") false)))
      (some (run_of (codes "b") true))

overlapped_rests : overlapped.pending ≡ []
unfolding start run_task end_task
overlapped_rests = refl

overlapped_mode : overlapped.runner.auto_mode ≡ true
unfolding start run_task end_task
overlapped_mode = refl
