-- ===== src/Core/Orchestrator/Guard.antt =====
-- packages/core/src/orchestrator.ts: what the judgement of a stream and the signals guarantee.
use cere_worker.Prelude.{
  List, ltb, ltb→lt, any, ◌<◌, ℕ, Text, codes, trim, true, false, Option, none, some, ◌≡◌, ◌≢◌, ◌⊎◌,
  refl, arith, Bool-cases, inl, inr,
}
use cere_worker.Core.ToolRuntime.Values.{Fields, Engine}
use cere_worker.Core.Orchestrator.{
  completed, completed_no_text, signal_complete, signal_blocked, AttemptCompletionState,
  create_turn_continuity_state,
}
use cere_worker.Core.Orchestrator.Ledger.{Progress, continuity_after}
use cere_worker.Core.Orchestrator.Success.{has_succeeded, says_success, continuity_after-backed}
use cere_worker.Core.Orchestrator.Completion.{
  StreamFinishMetadata, no_signal, is_empty_text, finished_on_tool_calls, ended_with_tool_call,
  ended_in_error, classify_turn_outcome, evaluate_completion_guard, refused, accepted, arg_text,
  has_verified_progress, with_complete, with_blocked, Signalled, complete, blocked,
  record_found_signal, record_completion_signal,
}

-- A stream that passes the guard did not finish on tool calls, and if it called external tools it has
-- a signal and a text.
pub evaluate_completion_guard-passed :
    (content : Text) (meta : Option StreamFinishMetadata) (state : AttemptCompletionState)
    → evaluate_completion_guard content meta state ≡ none
    → (finished_on_tool_calls meta ≡ false)
      × ((state.external_tool_call_count ≡ 0)
          ⊎ ((no_signal state.signal ≡ false) × (is_empty_text (trim content) ≡ false)))
unfolding evaluate_completion_guard
evaluate_completion_guard-passed content meta state h = ground arith

-- A stream that does not end with a tool call, nor in an error, passes the guard if it is classified as
-- completed, and if it passes then it is classified as completed, or as completed without a text
-- where it called no external tool.
pub classify_turn_outcome-guard :
    (content : Text) (meta : Option StreamFinishMetadata) (state : AttemptCompletionState)
    → ended_with_tool_call meta ≡ false
    → ended_in_error meta ≡ false
    → let outcome = classify_turn_outcome content meta state in
      ((outcome ≡ completed) × (evaluate_completion_guard content meta state ≡ none))
      ⊎ (((outcome ≡ completed_no_text)
            × (state.external_tool_call_count ≡ 0)
            × (evaluate_completion_guard content meta state ≡ none))
          ⊎ ((outcome ≢ completed) × (evaluate_completion_guard content meta state ≢ none)))
unfolding classify_turn_outcome evaluate_completion_guard
classify_turn_outcome-guard content meta state h h' = ground arith

-- A tool of the attempt has succeeded, as it is counted, or one of the turn.
abbrev pub HasSucceeded : List (Text × ℕ × Progress) → AttemptCompletionState → Type 0
HasSucceeded ps state = (0 < state.successful_external_tool_count) ⊎ (any has_succeeded ps ≡ true)

has_verified_progress-HasSucceeded :
    (ps : List (Text × ℕ × Progress)) (state : AttemptCompletionState)
    → state.continuity ≡ continuity_after create_turn_continuity_state ps
    → has_verified_progress state ≡ true
    → HasSucceeded ps state
unfolding has_verified_progress
has_verified_progress-HasSucceeded ps state made verified =
    elim (Bool-cases (ltb 0 state.successful_external_tool_count)) [
      | inl t ↦ inl (ltb→lt _ _ t)
      | inr t ↦
          let noted : any says_success state.continuity.progress_ledger ≡ true = rw t at verified in
          inr (continuity_after-backed ps (rw made at noted))
    ]

-- What an accepted signal leaves in the state of the attempt.
abbrev pub Recorded :
    List (Text × ℕ × Progress)
    → Signalled
    → AttemptCompletionState
    → AttemptCompletionState
    → Type 0
Recorded ps complete state after =
    (after.signal ≡ signal_complete)
    × HasSucceeded ps state
    × ((summary : Text) × (after.summary ≡ some summary) × (is_empty_text summary ≡ false))
Recorded ps blocked state after =
    (after.signal ≡ signal_blocked)
    × ((blocker : Text) × (after.blocker ≡ some blocker) × (is_empty_text blocker ≡ false))

-- Where the ledger of an attempt is made by the tools, checkpoints and boundaries of its turn: either
-- a signal is refused and the attempt is as before, or it is accepted, its evidence is not empty, nor
-- is its summary or blocker, and if it says that the task is complete, then the attempt has counted a
-- tool that succeeded, or a tool of the turn came back without an error.
pub record_completion_signal-answered :
    (engine : Engine) (id : Text) (now : ℕ) (signal : Signalled) (args : Fields)
    (state : AttemptCompletionState) (ps : List (Text × ℕ × Progress))
    → state.continuity ≡ continuity_after create_turn_continuity_state ps
    → let answer = record_completion_signal engine id now signal args (some state) in
      ((message : Text) × (answer.1 ≡ refused message) × (answer.0 ≡ some state))
      ⊎ ((message : Text) × (after : AttemptCompletionState) × (answer.1 ≡ accepted message)
          × (answer.0 ≡ some after)
          × (is_empty_text after.evidence ≡ false)
          × Recorded ps signal state after)
unfolding record_completion_signal record_found_signal with_complete with_blocked
record_completion_signal-answered engine id now complete args state ps made =
    let evidence = arg_text engine (codes "evidence") args in
    let summary = arg_text engine (codes "summary") args in
    elim (Bool-cases (is_empty_text evidence)) [
      | inl t ↦ rw t (inl (_, refl, refl))
      | inr e ↦ elim (Bool-cases (is_empty_text summary)) [
        | inl t ↦ rw (e, t) (inl (_, refl, refl))
        | inr s ↦ elim (Bool-cases (has_verified_progress state)) [
          | inl v ↦
              let succeeded = has_verified_progress-HasSucceeded ps state made v in
              rw (e, s, v) (inr (_, _, refl, refl, e, (refl, succeeded, (_, refl, s))))
          | inr v ↦ rw (e, s, v) (inl (_, refl, refl))
        ]
      ]
    ]
record_completion_signal-answered engine id now blocked args state ps made =
    let evidence = arg_text engine (codes "evidence") args in
    let blocker = arg_text engine (codes "blocker") args in
    elim (Bool-cases (is_empty_text evidence)) [
      | inl t ↦ rw t (inl (_, refl, refl))
      | inr e ↦ elim (Bool-cases (is_empty_text blocker)) [
        | inl t ↦ rw (e, t) (inl (_, refl, refl))
        | inr b ↦ rw (e, b) (inr (_, _, refl, refl, e, (refl, (_, refl, b))))
      ]
    ]
