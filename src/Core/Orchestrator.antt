-- ===== src/Core/Orchestrator.antt =====
-- packages/core/src/orchestrator.ts, with its types of packages/core/src/types.ts: what a turn of the
-- orchestrator keeps of its progress. The children have the operations on it.
pub mod Texts
pub mod Continuity
pub mod ToolProgress
pub mod Ledger
pub mod Completion
pub mod Success
pub mod Guard
pub mod Store
pub mod Turn
pub mod Emergency
mod Tests
use cere_worker.Prelude.{ℕ, Text, Bool, Option, none, List, []}

pub data TaskCheckpointStatus : Type 0 where
  status_done status_in_progress : TaskCheckpointStatus

pub record BrowserTabSnapshot : Type 0 where
  pub id : Text
  pub title : Option Text
  pub url : Text
  pub active : Bool

pub record BrowserStateSnapshot : Type 0 where
  pub current_url : Option Text
  pub active_tab_id : Option Text
  pub tabs : Option (List BrowserTabSnapshot)

pub record TaskCheckpoint : Type 0 where
  pub step : Text
  pub status : TaskCheckpointStatus
  pub evidence : Text
  pub summary : Text

pub data ProgressSource : Type 0 where
  from_tool from_checkpoint : ProgressSource

pub record ProgressEntry : Type 0 where
  pub source : ProgressSource
  pub action : Text
  pub summary : Text
  pub tool_name : Option Text
  pub url : Option Text
  pub tab_id : Option Text
  pub state_changing : Bool
  pub is_error : Bool
  pub checkpoint_status : Option TaskCheckpointStatus

pub data TurnOutcome : Type 0 where
  completed completed_no_text ended_on_tool_calls completion_signal_missing : TurnOutcome
  aborted stalled protocol_error : TurnOutcome

pub data TurnBoundaryKind : Type 0 where
  tool_boundary checkpoint_boundary completion_boundary : TurnBoundaryKind
  stall_boundary recovery_boundary : TurnBoundaryKind

pub record TurnBoundarySummary : Type 0 where
  pub id : Text
  pub kind : TurnBoundaryKind
  pub action : Text
  pub summary : Text
  pub created_at : ℕ
  pub state_changing : Bool
  pub browser_state : BrowserStateSnapshot
  pub url : Option Text
  pub tab_id : Option Text
  pub evidence : Option Text
  pub checkpoint_status : Option TaskCheckpointStatus

pub record TurnContinuityState : Type 0 where
  pub progress_ledger : List ProgressEntry
  pub task_checkpoints : List TaskCheckpoint
  pub browser_state : BrowserStateSnapshot
  pub boundaries : List TurnBoundarySummary

pub data CompletionSignal : Type 0 where
  signal_none signal_complete signal_blocked : CompletionSignal

pub record AttemptCompletionState : Type 0 where
  pub signal : CompletionSignal
  pub evidence : Text
  pub summary : Option Text
  pub blocker : Option Text
  pub successful_external_tool_count : ℕ
  pub external_tool_call_count : ℕ
  pub internal_tool_call_count : ℕ
  pub continuity : TurnContinuityState

abbrev pub no_browser_state : BrowserStateSnapshot
no_browser_state = record { current_url = none; active_tab_id = none; tabs = none }

abbrev pub create_turn_continuity_state : TurnContinuityState
create_turn_continuity_state = record {
  progress_ledger = [];
  task_checkpoints = [];
  browser_state = no_browser_state;
  boundaries = [];
}

abbrev pub create_attempt_completion_state : TurnContinuityState → AttemptCompletionState
create_attempt_completion_state continuity = record {
  signal = signal_none;
  evidence = [];
  summary = none;
  blocker = none;
  successful_external_tool_count = 0;
  external_tool_call_count = 0;
  internal_tool_call_count = 0;
  continuity = continuity;
}
