-- ===== src/Core/TaskRunner.antt =====
-- packages/core/src/orchestrator.ts: the runs of tasks, `runTask` with what it keeps, up to where it
-- awaits the turn and from there to its end. What a caller keeps with a run is the parameter `O`.
pub mod Running
pub mod AutoMode
mod Tests
use cere_worker.Prelude.{
  ℕ, zero, suc, Text, text_eq, if◌then◌else◌, Bool, not, Option, none, some, List, [], ◌∷◌, ◌++◌,
  filter, any, map_get, map_set,
}

-- The fields of the orchestrator that `runTask` reads and writes.
pub record Runner : Type 0 where
  pub task_running : List Text
  pub task_conversations : List (Text × Text)
  pub auto_mode : Bool

-- What a call of `runTask` holds while it awaits its turn.
pub record TaskRun (O : Type 0) : Type 0 where
  pub task_id : Text
  pub prev_auto_mode : Bool
  pub owner : O

unfoldable pub is_task_running : Text → Runner → Bool
unfolding any text_eq
is_task_running task_id r = any (text_eq task_id) r.task_running

abbrev pub kept_conversation : (Text → Bool) → Text → Option Text → Text
kept_conversation exists fresh none = fresh
kept_conversation exists fresh (some id) = if exists id then id else fresh

unfoldable pub set_task_conversation : Text → Text → Runner → Runner
unfolding map_set
set_task_conversation task_id id r = record r {
  task_conversations = map_set task_id id r.task_conversations;
}

unfoldable pub get_task_conversation : Text → Runner → Option Text
unfolding map_get
get_task_conversation task_id r = map_get task_id r.task_conversations

-- The `autoMode` of the options, if it is given.
abbrev pub given_mode : Option Bool → Bool → Bool
given_mode none mode = mode
given_mode (some mode) _ = mode

-- The conversation of the task, or a new one where it has none that exists.
abbrev pub run_conversation : (Text → Bool) → Text → Text → Runner → Text
run_conversation exists fresh task_id r =
    kept_conversation exists fresh (get_task_conversation task_id r)

-- `runTask` up to the turn: the next state and the run that waits, or none where it answers at once
-- that the task is running already.
unfoldable pub run_task :
    {O : Type 0}
    → (Text → Bool)
    → Text
    → Option Bool
    → O
    → Text
    → Runner
    → Option (Runner × TaskRun O)
unfolding is_task_running set_task_conversation get_task_conversation
run_task exists fresh auto owner task_id r =
    if is_task_running task_id r
    then none
    else let kept = set_task_conversation task_id (run_conversation exists fresh task_id r) r in
      some (
        record kept {
          task_running = r.task_running ++ task_id ∷ [];
          auto_mode = given_mode auto r.auto_mode;
        },
        record { task_id = task_id; prev_auto_mode = r.auto_mode; owner = owner },
      )

-- Its `finally` block.
unfoldable pub end_task : {O : Type 0} → TaskRun O → Runner → Runner
unfolding filter text_eq
end_task run r = record r {
  task_running = filter (λ id. not (text_eq run.task_id id)) r.task_running;
  auto_mode = run.prev_auto_mode;
}

-- The runs that wait are taken from where they stand in the order of their starts.
pub record Waiting (O : Type 0) : Type 0 where
  pub runner : Runner
  pub pending : List (TaskRun O)

abbrev pub without {ℓ} : {A : Type ℓ} → ℕ → List A → List A
without i [] = []
without zero (x ∷ xs) = xs
without (suc i) (x ∷ xs) = x ∷ without i xs

abbrev pub wait_for : {O : Type 0} → Waiting O → Option (Runner × TaskRun O) → Waiting O
wait_for w none = w
wait_for w (some (r, run)) = record { runner = r; pending = w.pending ++ run ∷ [] }

unfoldable pub start :
    {O : Type 0} → (Text → Bool) → Text → Option Bool → O → Text → Waiting O → Waiting O
unfolding run_task
start exists fresh auto owner task_id w =
    wait_for w (run_task exists fresh auto owner task_id w.runner)

abbrev pub end_found : {O : Type 0} → ℕ → Waiting O → Option (TaskRun O) → Waiting O
end_found i w none = w
end_found i w (some run) = record { runner = end_task run w.runner; pending = without i w.pending }
