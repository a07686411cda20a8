-- ===== src/Core/Orchestrator/Turn/Rounds.antt =====
-- packages/core/src/orchestrator.ts: the messages of a conversation over the rounds of a turn.
use cere_worker.Prelude.{
  ℕ, Text, if◌then◌else◌, Bool, true, false, not, ◌&&◌, Option, none, some, List, [], ◌∷◌, ◌++◌,
  append-nil, ◌≡◌, refl, All, any, any-append, text_eq, text_eq_refl, arith,
}
use mathlib.Core.List.{append_assoc}
use cere_worker.Core.ToolRuntime.Execute.{ToolCall}
use cere_worker.Core.Conversation.{Message}
use cere_worker.Core.Orchestrator.Store.{ConversationStore}
use cere_worker.Core.Orchestrator.Completion.{CompletionGuardFailure, evaluate_completion_guard}
use cere_worker.Core.Orchestrator.Turn.{
  RecoverySource, TurnRecoveryAssessment, RecoveryAction, wait, retry, stop, Setup, Turn, Running,
}
use cere_worker.Core.Orchestrator.Turn.Events
use cere_worker.Core.Orchestrator.Turn.Watchdog
use cere_worker.Core.Orchestrator.Turn.Loop
use cere_worker.Core.Orchestrator.Turn.Kept.{
  Fresh, Owned, NoTool, Holds, append-Holds, delete-Holds,
}

-- The ids of the messages that are to be removed later are no ids of the first messages.
abbrev pub FreshEvent : List Message → ℕ × Events.StreamEvent → Type 0
FreshEvent init (now, Events.tool_recorded call name result resume boundary id) = Fresh init id
FreshEvent init (now, _) = Unit

pub record FreshScript (init : List Message) (script : Loop.AttemptScript) : Type 0 where
  pub events : All (FreshEvent init) script.events
  pub meanwhile : All (FreshEvent init) script.meanwhile
  pub message : Fresh init script.message_id

own_id : (ids : List Text) (id : Text) (m : Message) → m.id ≡ id → Owned (ids ++ id ∷ []) m
unfolding any
own_id ids id m e =
    let self : text_eq id m.id ≡ true = rw e (text_eq_refl id) in
    ground (arith, self, any-append (λ i. text_eq i m.id) ids (id ∷ []))

module _ {St : Type 0} (conversations : ConversationStore St) where
  abbrev pub KeptTurn : List Message → Turn St → Type 0
  KeptTurn init turn =
      Holds conversations init turn.failed_attempt_message_ids turn.conversation_id turn.store

  abbrev pub KeptRun : List Message → Running St → Type 0
  KeptRun init r =
      Holds conversations init (r.turn.failed_attempt_message_ids ++ r.attempt.message_ids)
        r.turn.conversation_id r.turn.store

  if-Kept :
      (init : List Message) (x y : Running St) (b : Bool)
      → KeptRun init x
      → KeptRun init y
      → KeptRun init (if b then x else y)
  if-Kept init x y true h k = h
  if-Kept init x y false h k = k

  cleaned-Holds :
      (init : List Message) (ids more : List Text) (conversation_id : Text) (store : St)
      → Holds conversations init (ids ++ more) conversation_id store
      → Holds conversations init
          (ids ++ more)
          conversation_id
          (Events.cleaned conversations conversation_id ids store)
  cleaned-Holds init [] more cid store h = h
  cleaned-Holds init (id ∷ ids) more cid store h =
      delete-Holds conversations init (id ∷ ids) more cid store h

  -- A message that is no tool's is added.
  pub said-Holds :
      (init : List Message) (ids : List Text) (conversation_id : Text) (now : ℕ) (m : Message)
      (store : St)
      → Holds conversations init ids conversation_id store
      → NoTool m
      → Holds conversations init ids conversation_id
          (conversations.append_message conversation_id now m store).0
  said-Holds init ids cid now m store h no_tool =
      let own : Owned (ids ++ []) m = rw no_tool refl in
      let added = append-Holds conversations init ids [] cid now m store h own tt in
      rw (append-nil ids) at added

  pub recorded-Holds :
      (init : List Message) (failed ids : List Text) (id conversation_id : Text) (now : ℕ)
      (m : Message) (store : St)
      → Holds conversations init (failed ++ ids) conversation_id store
      → Owned ((failed ++ ids) ++ id ∷ []) m
      → Fresh init id
      → Holds conversations init
          (failed ++ (ids ++ id ∷ []))
          conversation_id
          (conversations.append_message conversation_id now m store).0
  recorded-Holds init failed ids id cid now m store h own fresh =
      let added =
        append-Holds conversations init (failed ++ ids) (id ∷ []) cid now m store h own
          (fresh, tt) in
      rw (append_assoc failed ids (id ∷ [])) at added

  judged-Kept :
      (init : List Message) (now : ℕ) (content : Text) (calls : List ToolCall) (id : Text)
      (r : Running St) (failure : Option CompletionGuardFailure)
      → KeptRun init r
      → KeptRun init (Events.judge conversations now content calls id r failure)
  judged-Kept init now content calls id r (some failure) h = h
  judged-Kept init now content calls id r none h =
      said-Holds init _ r.turn.conversation_id now _ _
        (cleaned-Holds init r.turn.failed_attempt_message_ids r.attempt.message_ids
          r.turn.conversation_id r.turn.store h)
        refl

  assessed-Kept :
      (setup : Setup) (init : List Message) (now : ℕ) (source : RecoverySource)
      (a : TurnRecoveryAssessment) (id : Text) (action : RecoveryAction) (r : Running St)
      → KeptRun init r
      → KeptRun init (Watchdog.apply_assessment setup now source a id action r)
  assessed-Kept setup init now source a id wait r h = h
  assessed-Kept setup init now source a id retry r h = h
  assessed-Kept setup init now source a id stop r h = h

  step-Kept :
      (setup : Setup) (init : List Message) (e : ℕ × Events.StreamEvent) (r : Running St)
      → FreshEvent init e
      → KeptRun init r
      → KeptRun init (Events.step conversations setup e r)
  unfolding Events.step
  step-Kept setup init (now, Events.chunk text) r f h =
      if-Kept init _ _ (Events.is_open r.attempt) h h
  step-Kept setup init (now, Events.tool_called call) r f h =
      if-Kept init _ _ (Events.is_open r.attempt) h h
  step-Kept setup init (now, Events.signalled signal args id) r f h = h
  step-Kept setup init (now, Events.checkpointed args id) r f h = h
  step-Kept setup init (now, Events.tool_returned call result) r f h =
      if-Kept init _ _ r.attempt.aborted h h
  step-Kept setup init (now, Events.tool_recorded call name result resume boundary id) r f h =
      let failed = r.turn.failed_attempt_message_ids in
      let ids = r.attempt.message_ids in
      let m = Events.tool_message id now call name result in
      let mine : Owned ((failed ++ ids) ++ id ∷ []) m = own_id (failed ++ ids) id m refl in
      if-Kept init _ _
        (Events.is_open r.attempt
          && not (Events.is_internal_task_signal_tool (Events.normalized_name call.name)))
        (recorded-Holds init failed ids id r.turn.conversation_id now m r.turn.store h mine f) h
  step-Kept setup init (now, Events.finished content calls meta id) r f h =
      if-Kept init _ _ (Events.is_open r.attempt)
        (judged-Kept init now content calls id _
          (evaluate_completion_guard content meta r.attempt.state) h)
        h
  step-Kept setup init (now, Events.stream_error message) r f h =
      if-Kept init _ _ r.attempt.current h h
  step-Kept setup init (now, Events.ticked connected) r f h =
      if-Kept init _ _ (Watchdog.is_stalled setup now r) (if-Kept init _ _ connected h h) h
  step-Kept setup init (now, Events.assessed source a id) r f h =
      if-Kept init _ _ r.turn.nudge_in_flight
        (assessed-Kept setup init now source a id a.action r h) h
  step-Kept setup init (now, Events.assessment_failed a id) r f h =
      if-Kept init _ _ r.turn.nudge_in_flight h h
  step-Kept setup init (now, Events.emergency_stopped) r f h = h

  pub steps-Kept :
      (setup : Setup) (init : List Message) (es : List (ℕ × Events.StreamEvent)) (r : Running St)
      → All (FreshEvent init) es
      → KeptRun init r
      → KeptRun init (Events.steps conversations setup es r)
  unfolding Events.steps
  steps-Kept setup init [] r f h = h
  steps-Kept setup init (e ∷ es) r (f, fs) h =
      steps-Kept setup init es (Events.step conversations setup e r) fs
        (step-Kept setup init e r f h)
