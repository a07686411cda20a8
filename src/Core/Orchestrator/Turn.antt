-- ===== src/Core/Orchestrator/Turn.antt =====
-- packages/core/src/orchestrator.ts: `sendMessage`, a turn of a conversation and its attempts. Here is
-- the state; Events has the callbacks of the stream, Watchdog what looks after it, Loop the rest. What the provider,
-- the tools, the Cerebellum and the clock do is given as a script. Left out are the journal and the
-- session of the turn, compaction, the verification of a tool's result (the result that is given has
-- it), the discovery mode (which is off), and calls of a callback after its attempt is over.
pub mod Watchdog
pub mod Events
pub mod Loop
pub mod Counting
pub mod Termination
pub mod Kept
pub mod Rounds
pub mod Outcome
pub mod Answer
use cere_worker.Prelude.{
  ℕ, zero, suc, ◌+◌, Text, Bool, true, false, Option, none, some, List, [], ◌∷◌, ◌++◌,
}
use cere_worker.Core.ToolRuntime.Values.{Engine}
use cere_worker.Core.ToolRuntime.Execute.{ToolCall}
use cere_worker.Core.Conversation.{Message}
use cere_worker.Core.Orchestrator.{
  AttemptCompletionState, TurnContinuityState, create_attempt_completion_state,
  create_turn_continuity_state,
}
use cere_worker.Core.Orchestrator.Completion.{StreamFinishMetadata, CompletionGuardFailure}

pub data StreamPhase : Type 0 where
  idle waiting_model waiting_tool : StreamPhase

pub data RetryCause : Type 0 where
  stall completion : RetryCause

pub data RecoverySource : Type 0 where
  from_cerebellum from_fallback : RecoverySource

pub data RecoveryAction : Type 0 where
  wait retry stop : RecoveryAction

pub record TurnRecoveryAssessment : Type 0 where
  pub action : RecoveryAction
  pub operator_message : Text
  pub model_message : Text
  pub diagnosis : Text
  pub wait_seconds : Option ℕ

-- The numbers that the orchestrator is set up with; times are in milliseconds.
pub record Setup : Type 0 where
  pub engine : Engine
  pub stream_stall_threshold : ℕ
  pub max_nudge_retries : ℕ
  pub max_completion_retries : ℕ

pub data TurnEvent : Type 0 where
  message_user message_system : Message → TurnEvent
  cerebrum_start : ℕ → TurnEvent
  cerebrum_chunk : Text → TurnEvent
  cerebrum_toolcall : ToolCall → TurnEvent
  cerebrum_end : Message → TurnEvent
  cerebrum_stall : TurnEvent
  stall_nudge : ℕ → TurnEvent
  emergency_stop : TurnEvent
  error : Text → TurnEvent

-- The variables of one round of the loop, and the fields of the orchestrator that it resets. `current`
-- says that `abortController` still is the one of this attempt.
pub record Attempt : Type 0 where
  pub number : ℕ
  pub retry_cause : Option RetryCause
  pub stall_retry_count_at_start : ℕ
  pub current : Bool
  pub aborted : Bool
  pub watching : Bool
  pub phase : StreamPhase
  pub last_activity_at : ℕ
  pub deferred_until : ℕ
  pub full_content : Text
  pub final_display_content : Text
  pub state : AttemptCompletionState
  pub guard_failure : Option CompletionGuardFailure
  pub finish_meta : Option StreamFinishMetadata
  pub message_ids : List Text
  pub pending : Option (RecoverySource × TurnRecoveryAssessment)

-- The variables outside the loop, with the store and what is emitted.
pub record Turn (St : Type 0) : Type 0 where
  pub store : St
  pub conversation_id : Text
  pub nudge_count : ℕ
  pub nudge_in_flight : Bool
  pub completion_retry_count : ℕ
  pub next_retry_context : Option Message
  pub next_retry_cause : Option RetryCause
  pub failed_attempt_message_ids : List Text
  pub continuity : TurnContinuityState
  pub emitted : List TurnEvent

pub record Running (St : Type 0) : Type 0 where
  pub turn : Turn St
  pub attempt : Attempt

module _ {St : Type 0} where
  abbrev pub emit : TurnEvent → Turn St → Turn St
  emit event turn = record turn { emitted = turn.emitted ++ event ∷ [] }

  -- The start of an attempt, `startStreamWatchdog` included.
  abbrev pub start_attempt : ℕ → ℕ → Turn St → Running St
  start_attempt now number turn = record {
    turn =
        emit (cerebrum_start number)
          (record turn { next_retry_cause = none; next_retry_context = none });
    attempt = record {
      number = number;
      retry_cause = turn.next_retry_cause;
      stall_retry_count_at_start = turn.nudge_count;
      current = true;
      aborted = false;
      watching = true;
      phase = waiting_model;
      last_activity_at = now;
      deferred_until = 0;
      full_content = [];
      final_display_content = [];
      state = create_attempt_completion_state turn.continuity;
      guard_failure = none;
      finish_meta = none;
      message_ids = [];
      pending = none;
    };
  }
