-- ===== src/Core/Orchestrator/Tests.antt =====
-- Runs of a turn with two attempts, of its guard, its signals and its progress, and an emergency stop.
use cere_worker.Prelude.{
  ℕ, zero, suc, Text, codes, text_eq, trim, any, count_if, true, false, none, some, List, [], ◌∷◌,
  ◌≡◌, ◌≢◌, ◌⊎◌, refl, arith, length,
}
use cere_worker.Core.ToolRuntime.Values.{Value, str, Fields, field, end, Engine}
use cere_worker.Core.ToolRuntime.Results.{ToolResult}
use cere_worker.Core.ToolRuntime.Execute.{ToolCall}
use cere_worker.Core.Conversation.{
  Message, MemoryStore, user, cerebrum, new_message, no_extra, new_conversation, get_messages,
  append_message, delete_messages,
}
use cere_worker.Core.SubAgents.{Manager, SpawnOptions, spawn, is_active_agent}
use cere_worker.Core.SubAgents.Attended.{distinct_ids}
use cere_worker.Core.Orchestrator.{
  AttemptCompletionState, create_turn_continuity_state, create_attempt_completion_state,
  status_done,
}
use cere_worker.Core.Orchestrator.Completion.{
  reason_stop, reason_tool_calls, text_kind, tool_call_kind, StreamFinishMetadata, refused,
  accepted, complete, record_completion_signal, is_empty_text, no_signal, finished_on_tool_calls,
}
use cere_worker.Core.Orchestrator.Guard.{Recorded, record_completion_signal-answered}
use cere_worker.Core.Orchestrator.Store.{memory_store}
use cere_worker.Core.Orchestrator.Turn.{
  Setup, TurnRecoveryAssessment, retry, Running, Turn, start_attempt,
}
use cere_worker.Core.Orchestrator.Turn.{from_cerebellum}
use cere_worker.Core.Orchestrator.Turn.Events
use cere_worker.Core.Orchestrator.Turn.Loop
use cere_worker.Core.Orchestrator.Turn.Termination.{send_message-terminates}
use cere_worker.Core.Orchestrator.Turn.Rounds.{FreshScript}
use cere_worker.Core.Orchestrator.Turn.Outcome.{Extends, ExtendsCleanly, send_message-keeps}
use cere_worker.Core.Orchestrator.Turn.Answer.{step-finished}
use cere_worker.Core.Orchestrator.Continuity.{record_checkpoint, checkpoint_of}
use cere_worker.Core.Orchestrator.ToolProgress.{record_attempt_tool_progress}
use cere_worker.Core.Orchestrator.Ledger.{
  Progress, tool_done, step_noted, continuity_after, IsWithin, continuity_after-IsWithin,
}
use cere_worker.Core.Orchestrator.Emergency.{emergency_stop, emergency_stop-none_active}

abbrev text_of : Value → Text
text_of (str s) = s
text_of _ = []

abbrev engine : Engine
engine = record {
  json = text_of;
  json_pretty = text_of;
  to_string = text_of;
  goes_behind = λ a b. false;
  sha256_hex = λ s. s;
}

abbrev setup : Setup
setup = record {
  engine = engine;
  stream_stall_threshold = 30000;
  max_nudge_retries = 2;
  max_completion_retries = 1;
}

abbrev call : ToolCall
call = record { id = codes "k1"; name = codes "readFile"; args = str [] }

abbrev result : ToolResult
result = record {
  call_id = codes "k1";
  output = codes "text";
  is_error = false;
  details = none;
  metadata = none;
  truncated = false;
  synthetic = false;
  warnings = none;
}

abbrev on_calls : StreamFinishMetadata
on_calls = record {
  finish_reason = some reason_tool_calls;
  step_finish_reasons = reason_tool_calls ∷ [];
  last_content_kind = tool_call_kind;
  ended_with_tool_call = true;
}

abbrev on_stop : StreamFinishMetadata
on_stop = record {
  finish_reason = some reason_stop;
  step_finish_reasons = reason_stop ∷ [];
  last_content_kind = text_kind;
  ended_with_tool_call = false;
}

abbrev assessment : TurnRecoveryAssessment
assessment = record {
  action = retry;
  operator_message = codes "again";
  model_message = codes "go on";
  diagnosis = codes "cut off";
  wait_seconds = none;
}

abbrev script_of : List (ℕ × Events.StreamEvent) → Text → Loop.AttemptScript
script_of events message_id = record {
  started_at = 10;
  events = events;
  settlement = Loop.resolved;
  connected = true;
  meanwhile = [];
  answer = some assessment;
  fallback = assessment;
  ended_at = 20;
  message_id = message_id;
  boundary_id = codes "b1";
}

-- The first attempt reads a file and ends on its call; a later one answers.
abbrev script : ℕ → Loop.AttemptScript
script zero =
    script_of
      ((11, Events.tool_called call)
        ∷ (12, Events.tool_returned call result)
        ∷ (13, Events.tool_recorded call (codes "readFile") result none (codes "b0") (codes "t1"))
        ∷ (14, Events.finished [] (call ∷ []) (some on_calls) (codes "a1"))
        ∷ [])
      (codes "s1")
script (suc k) =
    script_of ((21, Events.finished (codes "Done.") [] (some on_stop) (codes "a2")) ∷ [])
      (codes "s2")

abbrev store : MemoryStore ℕ
store = record { conversations = (codes "c", new_conversation (codes "c") 1) ∷ []; sessions = [] }

abbrev sent : Turn (MemoryStore ℕ) × Loop.TurnEnd
sent =
    Loop.send_message memory_store setup script 9 (codes "u1") (codes "Read it.") (codes "c") false
      store

-- What the first attempt left is gone when the second one answers.
after_two_attempts :
    memory_store.get_messages (codes "c") sent.0.store
    ≡ new_message (codes "u1") 9 user (codes "Read it.") no_extra
      ∷ new_message (codes "a2") 21 cerebrum (codes "Done.") no_extra
      ∷ []
unfolding Loop.send_message get_messages append_message delete_messages
after_two_attempts = refl

-- An emergency stop that comes while a stream that has ended is assessed: the turn goes on.
abbrev stopped_script : ℕ → Loop.AttemptScript
stopped_script zero = record (script zero) { meanwhile = (15, Events.emergency_stopped) ∷ [] }
stopped_script (suc k) = script (suc k)

stop_while_assessed :
    let (turn, ended) =
      Loop.send_message memory_store setup stopped_script 9
        (codes "u1")
        (codes "Read it.")
        (codes "c")
        false
        store in
    (ended ≡ Loop.by_answer)
    × (memory_store.get_messages (codes "c") turn.store
        ≡ new_message (codes "u1") 9 user (codes "Read it.") no_extra
          ∷ new_message (codes "a2") 21 cerebrum (codes "Done.") no_extra
          ∷ [])
unfolding Loop.send_message get_messages append_message delete_messages
stop_while_assessed = (refl, refl)

-- And one that comes after a nudge, before the stream has settled.
abbrev nudged_script : ℕ → Loop.AttemptScript
nudged_script zero =
    record (script_of
      ((200000, Events.ticked true)
        ∷ (200001, Events.assessed from_cerebellum assessment (codes "b0"))
        ∷ (200002, Events.emergency_stopped)
        ∷ [])
      (codes "s1")) { settlement = Loop.rejected (codes "Stream aborted") }
nudged_script (suc k) = script (suc k)

stop_after_nudge :
    (Loop.send_message memory_store setup nudged_script 9
      (codes "u1")
      (codes "Read it.")
      (codes "c")
      false
      store).1
    ≡ Loop.by_answer
unfolding Loop.send_message
stop_after_nudge = refl

send_message-terminates_example : Loop.loop_terminated sent.1 ≡ true
send_message-terminates_example =
    send_message-terminates memory_store setup script 9 (codes "u1") (codes "Read it.") (codes "c")
      false store (omega arith)

abbrev first_messages : List Message
first_messages = new_message (codes "u1") 9 user (codes "Read it.") no_extra ∷ []

fresh_scripts : (k : ℕ) → FreshScript first_messages (script k)
unfolding any text_eq
fresh_scripts zero = record {
  events = (tt, (tt, (refl, (tt, tt))));
  meanwhile = tt;
  message = refl;
}
fresh_scripts (suc k) = record { events = (tt, tt); meanwhile = tt; message = refl }

send_message-keeps_example :
    Extends memory_store first_messages sent.0
    × ((sent.1 ≢ Loop.by_failure) ⊎ ExtendsCleanly memory_store first_messages sent.0)
unfolding get_messages append_message text_eq
send_message-keeps_example =
    send_message-keeps memory_store setup script 9 (codes "u1") (codes "Read it.") (codes "c") false
      store refl fresh_scripts

abbrev running : Running (MemoryStore ℕ)
running = start_attempt 10 1 (Loop.new_turn (codes "c") false store)

step-finished_example :
    let after =
      Events.step memory_store setup
        (14, Events.finished (codes "Done.") [] (some on_stop) (codes "a1"))
        running in
    ((after.turn.store ≡ running.turn.store) × (after.turn.emitted ≡ running.turn.emitted))
    ⊎ ((Events.is_open running.attempt ≡ true)
        × (finished_on_tool_calls (some on_stop) ≡ false)
        × ((running.attempt.state.external_tool_call_count ≡ 0)
            ⊎ ((no_signal running.attempt.state.signal ≡ false)
                × (is_empty_text (trim (codes "Done.")) ≡ false))))
step-finished_example =
    step-finished memory_store setup 14 (codes "Done.") [] (some on_stop) (codes "a1") running

abbrev progress : List (Text × ℕ × Progress)
progress =
    (codes "b1", 1, step_noted (codes "read") status_done (codes "seen"))
    ∷ (codes "b2", 2, tool_done (codes "writeFile") result none)
    ∷ (codes "b3", 3, step_noted (codes "read") status_done (codes "seen again"))
    ∷ []

abbrev worked : AttemptCompletionState
worked = create_attempt_completion_state (continuity_after create_turn_continuity_state progress)

abbrev signal_args : Fields
signal_args =
    field (codes "evidence") (str (codes "seen")) (field (codes "summary") (str (codes "read")) end)

signal_is_recorded :
    (record_completion_signal engine (codes "b1") 5 complete signal_args (some worked)).1
    ≡ accepted (codes "Task completion recorded.")
unfolding record_completion_signal trim text_eq continuity_after record_checkpoint
    record_attempt_tool_progress
signal_is_recorded = refl

record_completion_signal-answered_example :
    let answer =
      record_completion_signal engine (codes "b1") 5 complete signal_args (some worked) in
    ((message : Text) × (answer.1 ≡ refused message) × (answer.0 ≡ some worked))
    ⊎ ((message : Text) × (after : AttemptCompletionState) × (answer.1 ≡ accepted message)
        × (answer.0 ≡ some after)
        × (is_empty_text after.evidence ≡ false)
        × Recorded progress complete worked after)
record_completion_signal-answered_example =
    record_completion_signal-answered engine (codes "b1") 5 complete signal_args worked progress
      refl

two_kept :
    let after = continuity_after create_turn_continuity_state progress in
    (length after.progress_ledger ≡ 3)
    × (length after.boundaries ≡ 3)
    × (length after.task_checkpoints ≡ 1)
unfolding continuity_after record_checkpoint record_attempt_tool_progress checkpoint_of
two_kept = (refl, refl, refl)

continuity_after-IsWithin_example :
    IsWithin (continuity_after create_turn_continuity_state progress)
continuity_after-IsWithin_example = continuity_after-IsWithin progress

abbrev no_agents : Manager
no_agents = record {
  agents = [];
  runs = [];
  sessions = [];
  next_controller = 0;
  max_concurrent = 2;
}

abbrev plain : SpawnOptions
plain = record { timeout_ms = none; label = none; cleanup = none; parent_session_key = none }

unfoldable one_agent : Manager
unfolding spawn
one_agent = (spawn (codes "a") (codes "c") (codes "look") plain 7 no_agents).0

emergency_stop-none_active_example :
    let (r', manager) = emergency_stop (running, some one_agent) in
    ((m' : Manager) × (manager ≡ some m') × (count_if is_active_agent m'.agents ≡ 0))
    × (r'.attempt.aborted ≡ true)
    × (r'.attempt.current ≡ false)
unfolding one_agent spawn distinct_ids
emergency_stop-none_active_example = emergency_stop-none_active running one_agent refl refl
