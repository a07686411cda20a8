-- ===== src/Core/Orchestrator/Completion.antt =====
-- packages/core/src/orchestrator.ts: how an attempt says that its task is done or blocked, and how the
-- end of its stream is judged.
use cere_worker.Prelude.{
  ℕ, ltb, Text, codes, text_eq, trim, any, if◌then◌else◌, Bool, true, false, not, ◌&&◌, ◌||◌,
  Option, none, some, List, [], ◌∷◌, ◌++◌,
}
use cere_worker.Core.ToolRuntime.Values.{undefined, null, Fields, get_field, Engine}
use cere_worker.Core.Orchestrator.{
  TurnOutcome, completed, completed_no_text, ended_on_tool_calls, completion_signal_missing,
  protocol_error, CompletionSignal, signal_none, signal_complete, signal_blocked,
  AttemptCompletionState, TaskCheckpointStatus, status_done, status_in_progress,
  completion_boundary,
}
use cere_worker.Core.Orchestrator.Continuity.{
  is_from_tool, last, BoundaryInput, record_boundary, checkpoint_of, record_checkpoint,
}

pub data StreamFinishReason : Type 0 where
  reason_stop reason_length reason_content_filter reason_tool_calls reason_error reason_other :
      StreamFinishReason

pub data StreamContentKind : Type 0 where
  text_kind tool_call_kind empty_kind other_kind error_kind : StreamContentKind

pub record StreamFinishMetadata : Type 0 where
  pub finish_reason : Option StreamFinishReason
  pub step_finish_reasons : List StreamFinishReason
  pub last_content_kind : StreamContentKind
  pub ended_with_tool_call : Bool

abbrev pub is_tool_calls : Option StreamFinishReason → Bool
is_tool_calls (some reason_tool_calls) = true
is_tool_calls _ = false

abbrev pub is_error_reason : Option StreamFinishReason → Bool
is_error_reason (some reason_error) = true
is_error_reason _ = false

abbrev pub is_error_kind : StreamContentKind → Bool
is_error_kind error_kind = true
is_error_kind _ = false

abbrev pub no_signal : CompletionSignal → Bool
no_signal signal_none = true
no_signal _ = false

abbrev pub is_empty_text : Text → Bool
is_empty_text [] = true
is_empty_text (c ∷ s) = false

-- The finish reason of the stream, or of its last step, is `tool-calls`.
unfoldable pub finished_on_tool_calls : Option StreamFinishMetadata → Bool
unfolding last
finished_on_tool_calls none = false
finished_on_tool_calls (some meta) =
    is_tool_calls meta.finish_reason || is_tool_calls (last meta.step_finish_reasons)

abbrev pub ended_with_tool_call : Option StreamFinishMetadata → Bool
ended_with_tool_call none = false
ended_with_tool_call (some meta) = meta.ended_with_tool_call

abbrev pub ended_in_error : Option StreamFinishMetadata → Bool
ended_in_error none = false
ended_in_error (some meta) =
    is_error_reason meta.finish_reason || is_error_kind meta.last_content_kind

unfoldable pub classify_turn_outcome :
    Text → Option StreamFinishMetadata → AttemptCompletionState → TurnOutcome
unfolding finished_on_tool_calls trim
classify_turn_outcome display_content meta state =
    if finished_on_tool_calls meta || ended_with_tool_call meta
    then ended_on_tool_calls
    else (if ltb 0 state.external_tool_call_count && no_signal state.signal
        then completion_signal_missing
        else (if ended_in_error meta
            then protocol_error
            else (if is_empty_text (trim display_content) then completed_no_text else completed)))

pub record CompletionGuardFailure : Type 0 where
  pub message : Text
  pub signal : CompletionSignal

abbrev pub guard_failure : Text → AttemptCompletionState → Option CompletionGuardFailure
guard_failure message state = some (record { message = message; signal = state.signal })

unfoldable pub evaluate_completion_guard :
    Text → Option StreamFinishMetadata → AttemptCompletionState → Option CompletionGuardFailure
unfolding finished_on_tool_calls trim
evaluate_completion_guard display_content meta state =
    let active = ltb 0 state.external_tool_call_count in
    if is_empty_text (trim display_content) && active
    then guard_failure (codes "Turn ended after tool activity without a final answer.") state
    else (if finished_on_tool_calls meta
        then guard_failure (codes "Turn ended on tool-calls without a final answer.") state
        else (if active && no_signal state.signal
            then guard_failure
                (codes "Tool-driven turn ended without task_complete or task_blocked.") state
            else none))

-- What an internal tool returns: an error or not, with its output.
pub data Reply : Type 0 where
  refused accepted : Text → Reply

-- `String(args[key] ?? '').trim()`
unfoldable pub arg_text : Engine → Text → Fields → Text
unfolding get_field trim
arg_text engine key args = elim (get_field key args) [
  | undefined ↦ []
  | null ↦ []
  | v ↦ trim (engine.to_string v)
]

-- A tool of the turn has succeeded, as the attempt counts it or as the ledger says.
unfoldable pub has_verified_progress : AttemptCompletionState → Bool
unfolding any
has_verified_progress state =
    ltb 0 state.successful_external_tool_count
    || any (λ entry. is_from_tool entry.source && not entry.is_error)
        state.continuity.progress_ledger

abbrev pub completion_input : Text → Text → Text → BoundaryInput
completion_input action summary evidence = record {
  kind = completion_boundary;
  action = action;
  summary = summary;
  state_changing = true;
  url = none;
  tab_id = none;
  evidence = some evidence;
  checkpoint_status = none;
}

unfoldable pub with_complete :
    Text → ℕ → Text → Text → AttemptCompletionState → AttemptCompletionState
unfolding record_boundary
with_complete id now evidence summary state = record state {
  signal = signal_complete;
  summary = some summary;
  blocker = none;
  evidence = evidence;
  continuity = record_boundary id now state.continuity (
      completion_input (codes "task_complete") (codes "Task completion recorded: " ++ summary)
        evidence);
}

unfoldable pub with_blocked :
    Text → ℕ → Text → Text → AttemptCompletionState → AttemptCompletionState
unfolding record_boundary
with_blocked id now evidence blocker state = record state {
  signal = signal_blocked;
  summary = none;
  blocker = some blocker;
  evidence = evidence;
  continuity = record_boundary id now state.continuity (
      completion_input (codes "task_blocked") (codes "Task blocker recorded: " ++ blocker)
        evidence);
}

pub data Signalled : Type 0 where
  complete blocked : Signalled

unfoldable pub status_of : Text → Option TaskCheckpointStatus
unfolding text_eq
status_of value =
    if text_eq value (codes "done")
    then some status_done
    else (if text_eq value (codes "in_progress") then some status_in_progress else none)

abbrev pub checkpoint_with :
    Text
    → ℕ
    → Text
    → Text
    → AttemptCompletionState
    → Option TaskCheckpointStatus
    → AttemptCompletionState × Reply
checkpoint_with id now step evidence state none =
    (state, refused (codes "status must be either \"done\" or \"in_progress\"."))
checkpoint_with id now step evidence state (some status) =
    let checkpoint = checkpoint_of step status evidence in
    if is_empty_text evidence
    then (state, refused (codes "A non-empty evidence field is required."))
    else (
      record state { continuity = record_checkpoint id now state.continuity checkpoint },
      accepted (codes "Checkpoint recorded: " ++ checkpoint.summary),
    )

module _ (engine : Engine) where
  unfoldable pub record_found_signal :
      Text → ℕ → Signalled → Fields → AttemptCompletionState → AttemptCompletionState × Reply
  unfolding arg_text has_verified_progress with_complete with_blocked
  record_found_signal id now complete args state =
      let evidence = arg_text engine (codes "evidence") args in
      let summary = arg_text engine (codes "summary") args in
      if is_empty_text evidence
      then (state, refused (codes "A non-empty evidence field is required."))
      else (if is_empty_text summary
          then (state, refused (codes "A non-empty summary field is required."))
          else (if not (has_verified_progress state)
              then (
                state,
                refused (
                    codes
                      "task_complete requires at least one successful external tool result in this turn."),
              )
              else (
                with_complete id now evidence summary state,
                accepted (codes "Task completion recorded."),
              )))
  record_found_signal id now blocked args state =
      let evidence = arg_text engine (codes "evidence") args in
      let blocker = arg_text engine (codes "blocker") args in
      if is_empty_text evidence
      then (state, refused (codes "A non-empty evidence field is required."))
      else (if is_empty_text blocker
          then (state, refused (codes "A non-empty blocker field is required."))
          else (
            with_blocked id now evidence blocker state,
            accepted (codes "Task blocker recorded."),
          ))

  -- With no attempt on its way there is nothing to record.
  unfoldable pub record_completion_signal :
      Text
      → ℕ
      → Signalled
      → Fields
      → Option AttemptCompletionState
      → Option AttemptCompletionState × Reply
  unfolding record_found_signal
  record_completion_signal id now signal args none =
      (none, refused (codes "No active turn is available for task completion tracking."))
  record_completion_signal id now signal args (some state) =
      let (state', reply) = record_found_signal id now signal args state in (some state', reply)

  unfoldable pub record_task_checkpoint :
      Text → ℕ → Fields → Option AttemptCompletionState → Option AttemptCompletionState × Reply
  unfolding arg_text status_of checkpoint_of record_checkpoint
  record_task_checkpoint id now args none =
      (none, refused (codes "No active turn is available for task checkpoint tracking."))
  record_task_checkpoint id now args (some state) =
      let step = arg_text engine (codes "step") args in
      let evidence = arg_text engine (codes "evidence") args in
      let status = arg_text engine (codes "status") args in
      if is_empty_text step
      then (some state, refused (codes "A non-empty step field is required."))
      else (let (state', reply) = checkpoint_with id now step evidence state (status_of status) in
          (some state', reply))
