-- ===== src/Core/Orchestrator/Turn/Answer.antt =====
-- packages/core/src/orchestrator.ts: which answers of the Cerebrum a turn stores.
use cere_worker.Prelude.{
  ℕ, Text, trim, true, false, Option, List, ◌≡◌, ◌⊎◌, refl, inl, inr, Bool-cases, Option-cases,
}
use cere_worker.Core.ToolRuntime.Execute.{ToolCall}
use cere_worker.Core.Orchestrator.Completion.{
  StreamFinishMetadata, no_signal, is_empty_text, finished_on_tool_calls, evaluate_completion_guard,
}
use cere_worker.Core.Orchestrator.Guard.{evaluate_completion_guard-passed}
use cere_worker.Core.Orchestrator.Store.{ConversationStore}
use cere_worker.Core.Orchestrator.Turn.{Setup, Running}
use cere_worker.Core.Orchestrator.Turn.Events

module _ {St : Type 0} (conversations : ConversationStore St) where
  -- At the finish of a stream, either nothing is stored and nothing shown, or the attempt is the
  -- current one and not aborted, its stream did not finish on tool calls, and if it called external
  -- tools then it has a signal and the answer is not blank.
  pub step-finished :
      (setup : Setup) (now : ℕ) (content : Text) (calls : List ToolCall)
      (meta : Option StreamFinishMetadata) (id : Text) (r : Running St)
      → let after =
          Events.step conversations setup (now, Events.finished content calls meta id) r in
        ((after.turn.store ≡ r.turn.store) × (after.turn.emitted ≡ r.turn.emitted))
        ⊎ ((Events.is_open r.attempt ≡ true)
            × (finished_on_tool_calls meta ≡ false)
            × ((r.attempt.state.external_tool_call_count ≡ 0)
                ⊎ ((no_signal r.attempt.state.signal ≡ false)
                    × (is_empty_text (trim content) ≡ false))))
  unfolding Events.step
  step-finished setup now content calls meta id r = elim (Bool-cases (Events.is_open r.attempt)) [
    | inr t ↦ rw t (inl (refl, refl))
    | inl t ↦ elim (Option-cases (evaluate_completion_guard content meta r.attempt.state)) [
      | inl passed ↦
          let (not_on_calls, signalled) =
            evaluate_completion_guard-passed content meta r.attempt.state passed in
          inr (t, not_on_calls, signalled)
      | inr (failure, e) ↦ rw (t, e) (inl (refl, refl))
    ]
  ]
