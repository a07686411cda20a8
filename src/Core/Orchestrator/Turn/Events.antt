-- ===== src/Core/Orchestrator/Turn/Events.antt =====
-- packages/core/src/orchestrator.ts: the callbacks that `sendMessage` gives to the stream, and what
-- else happens to an attempt. An event comes with its time.
use cere_worker.Prelude.{
  ℕ, suc, Text, codes, text_eq, trim, any, filter, if◌then◌else◌, Bool, true, false, not, ◌&&◌,
  Option, none, some, List, [], ◌∷◌, ◌++◌,
}
use cere_worker.Core.ToolRuntime.Values.{Fields, field, str, end}
use cere_worker.Core.ToolRuntime.Results.{ToolResult}
use cere_worker.Core.ToolRuntime.Execute.{ToolCall}
use cere_worker.Core.Conversation.{Message, MessageExtra, cerebrum, tool, new_message, no_extra}
use cere_worker.Core.Orchestrator.{AttemptCompletionState}
use cere_worker.Core.Orchestrator.Continuity.{record_boundary}
use cere_worker.Core.Orchestrator.ToolProgress.{BrowserResumeMetadata, record_attempt_tool_progress}
use cere_worker.Core.Orchestrator.Completion.{
  StreamFinishMetadata, evaluate_completion_guard, CompletionGuardFailure, is_empty_text, Signalled,
  record_completion_signal, record_task_checkpoint,
}
use cere_worker.Core.Orchestrator.Store.{ConversationStore}
use cere_worker.Core.Orchestrator.Turn.{
  StreamPhase, idle, waiting_model, waiting_tool, RecoverySource, TurnRecoveryAssessment, Setup,
  cerebrum_chunk, cerebrum_toolcall, cerebrum_end, emergency_stop, error, Attempt, Turn, Running,
  emit,
}
use cere_worker.Core.Orchestrator.Turn.Watchdog.{
  abort_current, on_ticked, on_assessed, on_assessment_failed,
}

-- A text at the end of an event is the id that `nanoid` gives to a message or to a boundary.
-- `tool_returned` is where the tool has been executed, `tool_recorded` where its result has been
-- verified; `ticked` is the interval of the watchdog, and says whether the Cerebellum is connected;
-- `assessed` and `assessment_failed` are where the assessment of a stall arrives or throws.
pub data StreamEvent : Type 0 where
  chunk : Text → StreamEvent
  tool_called : ToolCall → StreamEvent
  signalled : Signalled → Fields → Text → StreamEvent
  checkpointed : Fields → Text → StreamEvent
  tool_returned : ToolCall → ToolResult → StreamEvent
  tool_recorded :
      ToolCall → Text → ToolResult → Option BrowserResumeMetadata → Text → Text → StreamEvent
  finished : Text → List ToolCall → Option StreamFinishMetadata → Text → StreamEvent
  stream_error : Text → StreamEvent
  ticked : Bool → StreamEvent
  assessed : RecoverySource → TurnRecoveryAssessment → Text → StreamEvent
  assessment_failed : TurnRecoveryAssessment → Text → StreamEvent
  emergency_stopped : StreamEvent

abbrev pub internal_task_tool_names : List Text
internal_task_tool_names =
    codes "task_complete"
    ∷ codes "task_blocked"
    ∷ codes "task_checkpoint"
    ∷ codes "task_upsert"
    ∷ codes "task_remove"
    ∷ codes "task_list"
    ∷ codes "task_get"
    ∷ []

-- `name.trim() || name`
unfoldable pub normalized_name : Text → Text
unfolding trim
normalized_name name = if is_empty_text (trim name) then name else trim name

unfoldable pub is_internal_task_signal_tool : Text → Bool
unfolding normalized_name any text_eq
is_internal_task_signal_tool name =
    any (λ n. text_eq n (normalized_name name)) internal_task_tool_names

abbrev pub tool_extra : Text → Text → ToolResult → MessageExtra
tool_extra requested_name tool_name result = record no_extra {
  tool_result = some result;
  metadata = some (
      field (codes "toolName") (str tool_name) (
        if text_eq requested_name tool_name
        then end
        else field (codes "requestedToolName") (str requested_name) end));
}

-- An empty list of calls counts as none.
abbrev pub calls_extra : List ToolCall → MessageExtra
calls_extra [] = no_extra
calls_extra (c ∷ cs) = record no_extra { tool_calls = some (c ∷ cs) }

abbrev pub or_same {ℓ} : {A : Type ℓ} → Option A → A → A
or_same none a = a
or_same (some b) a = b

abbrev pub mark_waiting : StreamPhase → ℕ → Attempt → Attempt
mark_waiting phase now attempt = record attempt { phase = phase; last_activity_at = now }

-- `stopStreamWatchdog`
abbrev pub stop_watchdog : Attempt → Attempt
stop_watchdog attempt = record attempt { watching = false; phase = idle; deferred_until = 0 }

abbrev pub is_open : Attempt → Bool
is_open attempt = attempt.current && not attempt.aborted

abbrev pub count_call : Bool → AttemptCompletionState → AttemptCompletionState
count_call true state = record state {
  internal_tool_call_count = suc state.internal_tool_call_count;
}
count_call false state = record state {
  external_tool_call_count = suc state.external_tool_call_count;
}

abbrev pub count_success : Bool → Bool → AttemptCompletionState → AttemptCompletionState
count_success internal is_error state =
    if not internal && not is_error
    then record state { successful_external_tool_count = suc state.successful_external_tool_count }
    else state

abbrev pub tool_message : Text → ℕ → ToolCall → Text → ToolResult → Message
tool_message id now call tool_name result =
    new_message id now tool result.output (tool_extra call.name tool_name result)

abbrev pub visible_calls : List ToolCall → List ToolCall
visible_calls calls = filter (λ c. not (is_internal_task_signal_tool c.name)) calls

module _ {St : Type 0} where
  abbrev pub with_attempt : Running St → Attempt → Running St
  with_attempt r attempt = record r { attempt = attempt }

  abbrev pub on_chunk : ℕ → Text → Running St → Running St
  on_chunk now text r =
      if is_open r.attempt
      then record {
        turn = emit (cerebrum_chunk text) r.turn;
        attempt = record (mark_waiting waiting_model now r.attempt) {
          full_content = r.attempt.full_content ++ text;
        };
      }
      else r

  -- Only a call of an external tool is shown.
  abbrev pub show_call : Bool → ToolCall → Turn St → Turn St
  show_call internal call turn =
      let shown = cerebrum_toolcall (record call { name = normalized_name call.name }) in
      record turn { emitted = if internal then turn.emitted else turn.emitted ++ shown ∷ [] }

  -- `onToolCall`, up to the execution of the tool; where it throws, the state stays.
  abbrev pub on_tool_called : ℕ → ToolCall → Running St → Running St
  on_tool_called now call r =
      let internal = is_internal_task_signal_tool (normalized_name call.name) in
      if is_open r.attempt
      then record {
        turn = show_call internal call r.turn;
        attempt = record (mark_waiting waiting_tool now r.attempt) {
          state = count_call internal r.attempt.state;
        };
      }
      else r

  -- What an internal tool does while it is executed.
  abbrev pub with_state : Running St → Option AttemptCompletionState → Running St
  with_state r state = with_attempt r (record r.attempt { state = or_same state r.attempt.state })

  abbrev pub on_tool_returned : ℕ → ToolCall → ToolResult → Running St → Running St
  on_tool_returned now call result r =
      let internal = is_internal_task_signal_tool (normalized_name call.name) in
      if r.attempt.aborted
      then r
      else with_attempt r (record (mark_waiting waiting_model now r.attempt) {
        state = count_success internal result.is_error r.attempt.state;
      })

  abbrev pub on_error : Text → Running St → Running St
  on_error message r =
      if r.attempt.current
      then record {
        turn = record r.turn {
          emitted =
              if r.attempt.aborted then r.turn.emitted else r.turn.emitted ++ error message ∷ [];
        };
        attempt = stop_watchdog r.attempt;
      }
      else r

  -- `emergencyStop`, as far as the turn sees it.
  abbrev pub on_emergency_stop : Running St → Running St
  on_emergency_stop r = record {
    turn = emit emergency_stop r.turn;
    attempt = record (abort_current r.attempt) { current = false };
  }

module _ {St : Type 0} (conversations : ConversationStore St) where
  abbrev pub append : ℕ → Message → Turn St → Turn St
  append now message turn = record turn {
    store = (conversations.append_message turn.conversation_id now message turn.store).0;
  }

  -- `if (failedAttemptMessageIds.length > 0) deleteMessages(...)`
  abbrev pub cleaned : Text → List Text → St → St
  cleaned conversation_id [] store = store
  cleaned conversation_id (id ∷ ids) store =
      (conversations.delete_messages conversation_id (id ∷ ids) store).0

  abbrev pub clean_up : Turn St → Turn St
  clean_up turn = record turn {
    store = cleaned turn.conversation_id turn.failed_attempt_message_ids turn.store;
  }

  abbrev pub record_external :
      ℕ
      → ToolCall
      → Text
      → ToolResult
      → Option BrowserResumeMetadata
      → Text
      → Text
      → Running St
      → Running St
  record_external now call tool_name result resume boundary_id id r = record {
    turn = append now (tool_message id now call tool_name result) r.turn;
    attempt = record r.attempt {
      state = record r.attempt.state {
        continuity =
            record_attempt_tool_progress boundary_id now tool_name result resume
              r.attempt.state.continuity;
      };
      message_ids = r.attempt.message_ids ++ id ∷ [];
    };
  }

  -- The end of `onToolCall`.
  abbrev pub on_tool_recorded :
      ℕ
      → ToolCall
      → Text
      → ToolResult
      → Option BrowserResumeMetadata
      → Text
      → Text
      → Running St
      → Running St
  on_tool_recorded now call tool_name result resume boundary_id id r =
      if is_open r.attempt && not (is_internal_task_signal_tool (normalized_name call.name))
      then record_external now call tool_name result resume boundary_id id r
      else r

  -- The message of the Cerebrum is stored where the guard lets it pass.
  abbrev pub judge :
      ℕ → Text → List ToolCall → Text → Running St → Option CompletionGuardFailure → Running St
  judge now content calls id r (some failure) =
      with_attempt r (record r.attempt { guard_failure = some failure })
  judge now content calls id r none =
      let message = new_message id now cerebrum content (calls_extra (visible_calls calls)) in
      record r { turn = emit (cerebrum_end message) (append now message (clean_up r.turn)) }

  abbrev pub on_finish :
      ℕ → Text → List ToolCall → Option StreamFinishMetadata → Text → Running St → Running St
  on_finish now content calls meta id r =
      let seen = with_attempt r (record (stop_watchdog r.attempt) {
        final_display_content = content;
        finish_meta = meta;
      }) in
      if is_open r.attempt
      then judge now content calls id seen (evaluate_completion_guard content meta r.attempt.state)
      else r

  unfoldable pub step : Setup → ℕ × StreamEvent → Running St → Running St
  unfolding is_internal_task_signal_tool normalized_name record_boundary
      record_attempt_tool_progress record_completion_signal record_task_checkpoint
      evaluate_completion_guard filter
  step setup (now, chunk text) r = on_chunk now text r
  step setup (now, tool_called call) r = on_tool_called now call r
  step setup (now, signalled signal args id) r =
      with_state r
        (record_completion_signal setup.engine id now signal args (some r.attempt.state)).0
  step setup (now, checkpointed args id) r =
      with_state r (record_task_checkpoint setup.engine id now args (some r.attempt.state)).0
  step setup (now, tool_returned call result) r = on_tool_returned now call result r
  step setup (now, tool_recorded call tool_name result resume boundary_id id) r =
      on_tool_recorded now call tool_name result resume boundary_id id r
  step setup (now, finished content calls meta id) r = on_finish now content calls meta id r
  step setup (now, stream_error message) r = on_error message r
  step setup (now, ticked connected) r = on_ticked setup now connected r
  step setup (now, assessed source assessment id) r = on_assessed setup now source assessment id r
  step setup (now, assessment_failed assessment id) r = on_assessment_failed now assessment id r
  step setup (now, emergency_stopped) r = on_emergency_stop r

  unfoldable pub steps : Setup → List (ℕ × StreamEvent) → Running St → Running St
  unfolding step
  steps setup [] r = r
  steps setup (e ∷ es) r = steps setup es (step setup e r)
