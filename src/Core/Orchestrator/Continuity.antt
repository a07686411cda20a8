-- ===== src/Core/Orchestrator/Continuity.antt =====
-- packages/core/src/orchestrator.ts: the progress of a turn that outlives its attempts: what the tools
-- did, the checkpoints, the state of the browser, and the boundaries.
use cere_worker.Prelude.{
  ℕ, zero, suc, Text, codes, text_eq, ltb, if◌then◌else◌, Bool, true, false, not, ◌&&◌, Option,
  none, some, List, [], ◌∷◌, ◌++◌, length,
}
use cere_worker.Core.Orchestrator.{
  TaskCheckpointStatus, status_done, status_in_progress, BrowserStateSnapshot, TaskCheckpoint,
  ProgressSource, from_tool, from_checkpoint, ProgressEntry, TurnBoundaryKind, checkpoint_boundary,
  TurnBoundarySummary, TurnContinuityState,
}
use cere_worker.Core.Orchestrator.Texts.{truncate_resume_text}

abbrev pub is_from_tool : ProgressSource → Bool
is_from_tool from_tool = true
is_from_tool from_checkpoint = false

-- `a === b` on strings that may be absent.
abbrev pub same_text : Option Text → Option Text → Bool
same_text none none = true
same_text (some s) (some t) = text_eq s t
same_text _ _ = false

-- An entry that says what the last one says, and changed nothing.
abbrev pub is_repeat : ProgressEntry → ProgressEntry → Bool
is_repeat last entry =
    is_from_tool entry.source
    && is_from_tool last.source
    && not entry.state_changing
    && not last.state_changing
    && text_eq last.action entry.action
    && text_eq last.summary entry.summary
    && same_text last.url entry.url
    && same_text last.tab_id entry.tab_id

abbrev pub is_removable : ProgressEntry → Bool
is_removable candidate = is_from_tool candidate.source && not candidate.state_changing

module _ {ℓ} {A : Type ℓ} where
  -- `xs.at(-1)`
  unfoldable pub last : List A → Option A
  last [] = none
  last (x ∷ []) = some x
  last (x ∷ y ∷ rest) = last (y ∷ rest)

  abbrev pub behind : A → Option (List A) → Option (List A)
  behind x none = none
  behind x (some xs) = some (x ∷ xs)

  -- The list without the first entry that passes, where there is one.
  unfoldable pub without_first : (A → Bool) → List A → Option (List A)
  without_first p [] = none
  without_first p (x ∷ xs) = if p x then some xs else behind x (without_first p xs)

  abbrev pub or_tail : List A → Option (List A) → List A
  or_tail xs (some ys) = ys
  or_tail [] none = []
  or_tail (x ∷ xs) none = xs

  -- `while (xs.length > n) xs.shift()`
  unfoldable pub shift_to : ℕ → List A → List A
  shift_to n [] = []
  shift_to n (x ∷ xs) = let rest = shift_to n xs in if ltb n (length (x ∷ xs)) then rest else x ∷ xs

-- `splice(removableIndex >= 0 ? removableIndex : 0, 1)`
unfoldable pub splice_entry : List ProgressEntry → List ProgressEntry
unfolding without_first
splice_entry ledger = or_tail ledger (without_first is_removable ledger)

-- The loop that brings the ledger down to 50 entries.
unfoldable pub shrink_ledger : ℕ → List ProgressEntry → List ProgressEntry
unfolding splice_entry
shrink_ledger zero ledger = ledger
shrink_ledger (suc fuel) ledger =
    let rest = shrink_ledger fuel (splice_entry ledger) in
    if ltb 50 (length ledger) then rest else ledger

abbrev pub repeats_last : Option ProgressEntry → ProgressEntry → Bool
repeats_last none entry = false
repeats_last (some last) entry = is_repeat last entry

unfoldable pub push_entry : List ProgressEntry → ProgressEntry → List ProgressEntry
unfolding shrink_ledger last text_eq
push_entry ledger entry =
    if repeats_last (last ledger) entry
    then ledger
    else (let grown = ledger ++ entry ∷ [] in shrink_ledger (length grown) grown)

abbrev pub record_progress_entry : TurnContinuityState → ProgressEntry → TurnContinuityState
record_progress_entry continuity entry = record continuity {
  progress_ledger = push_entry continuity.progress_ledger entry;
}

-- What the caller of `recordBoundary` gives.
pub record BoundaryInput : Type 0 where
  pub kind : TurnBoundaryKind
  pub action : Text
  pub summary : Text
  pub state_changing : Bool
  pub url : Option Text
  pub tab_id : Option Text
  pub evidence : Option Text
  pub checkpoint_status : Option TaskCheckpointStatus

abbrev pub boundary_of : Text → ℕ → BrowserStateSnapshot → BoundaryInput → TurnBoundarySummary
boundary_of id now browser_state input = record {
  id = id;
  kind = input.kind;
  action = input.action;
  summary = input.summary;
  created_at = now;
  state_changing = input.state_changing;
  browser_state = browser_state;
  url = input.url;
  tab_id = input.tab_id;
  evidence = input.evidence;
  checkpoint_status = input.checkpoint_status;
}

-- `id` is what `nanoid` gives. The snapshot of the browser is the one of the turn.
unfoldable pub record_boundary :
    Text → ℕ → TurnContinuityState → BoundaryInput → TurnContinuityState
unfolding shift_to
record_boundary id now continuity input = record continuity {
  boundaries =
      shift_to 20 (continuity.boundaries ++ boundary_of id now continuity.browser_state input ∷ []);
}

abbrev pub status_text : TaskCheckpointStatus → Text
status_text status_done = codes "done"
status_text status_in_progress = codes "in_progress"

abbrev pub is_done : TaskCheckpointStatus → Bool
is_done status_done = true
is_done status_in_progress = false

unfoldable pub checkpoint_of : Text → TaskCheckpointStatus → Text → TaskCheckpoint
unfolding truncate_resume_text
checkpoint_of step status evidence = record {
  step = step;
  status = status;
  evidence = evidence;
  summary =
      step ++ codes " (" ++ status_text status ++ codes "): " ++ truncate_resume_text evidence 220;
}

-- In place of the first checkpoint of the same step, or at the end.
unfoldable pub put_checkpoint : TaskCheckpoint → List TaskCheckpoint → List TaskCheckpoint
unfolding text_eq
put_checkpoint checkpoint [] = checkpoint ∷ []
put_checkpoint checkpoint (x ∷ xs) =
    if text_eq x.step checkpoint.step then checkpoint ∷ xs else x ∷ put_checkpoint checkpoint xs

abbrev pub checkpoint_entry : TaskCheckpoint → ProgressEntry
checkpoint_entry checkpoint = record {
  source = from_checkpoint;
  action = codes "task_checkpoint";
  summary = checkpoint.summary;
  tool_name = none;
  url = none;
  tab_id = none;
  state_changing = is_done checkpoint.status;
  is_error = false;
  checkpoint_status = some checkpoint.status;
}

abbrev pub checkpoint_input : TaskCheckpoint → BoundaryInput
checkpoint_input checkpoint = record {
  kind = checkpoint_boundary;
  action = codes "task_checkpoint";
  summary = checkpoint.summary;
  state_changing = is_done checkpoint.status;
  url = none;
  tab_id = none;
  evidence = some checkpoint.evidence;
  checkpoint_status = some checkpoint.status;
}

unfoldable pub record_checkpoint :
    Text → ℕ → TurnContinuityState → TaskCheckpoint → TurnContinuityState
unfolding put_checkpoint push_entry record_boundary
record_checkpoint id now continuity checkpoint =
    let listed = record continuity {
      task_checkpoints = put_checkpoint checkpoint continuity.task_checkpoints;
    } in
    record_boundary id now (record_progress_entry listed (checkpoint_entry checkpoint))
      (checkpoint_input checkpoint)
