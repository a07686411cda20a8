-- ===== src/Core/Orchestrator/Turn/Loop.antt =====
-- packages/core/src/orchestrator.ts: how an attempt of `sendMessage` ends, and the loop over attempts.
use cere_worker.Prelude.{
  ℕ, zero, suc, ◌+◌, ltb, leb, Text, codes, show, if◌then◌else◌, Bool, true, false, not, ◌&&◌,
  Option, none, some, List, [], ◌∷◌, ◌++◌,
}
use cere_worker.Core.ToolRuntime.Values.{field, str, bool, end}
use cere_worker.Core.Conversation.{Message, user, system, new_message, no_extra, without_messages}
use cere_worker.Core.Orchestrator.{create_turn_continuity_state}
use cere_worker.Core.Orchestrator.Completion.{CompletionGuardFailure}
use cere_worker.Core.Orchestrator.Continuity.{record_boundary}
use cere_worker.Core.Orchestrator.Store.{ConversationStore}
use cere_worker.Core.Orchestrator.Turn.{
  RetryCause, stall, completion, RecoverySource, from_cerebellum, from_fallback, RecoveryAction,
  wait, retry, stop, TurnRecoveryAssessment, Setup, message_user, message_system, error, Attempt,
  Turn, Running, emit, start_attempt,
}
use cere_worker.Core.Orchestrator.Turn.Watchdog.{note_recovery}
use cere_worker.Core.Orchestrator.Turn.Events.{StreamEvent, steps, append, clean_up}

-- How the promise of `awaitStreamAttempt` ends. It is rejected with an error of the stream, or some
-- time after an abort.
pub data Settlement : Type 0 where
  resolved : Settlement
  rejected : Text → Settlement

-- An attempt from the outside: what happens until its stream is settled; whether no
-- Cerebellum is missing if it was rejected; what the Cerebellum answers if it was resolved and is judged incomplete
-- (nothing where it is away or fails), what happens until then, and the fallback.
pub record AttemptScript : Type 0 where
  pub started_at : ℕ
  pub events : List (ℕ × StreamEvent)
  pub settlement : Settlement
  pub connected : Bool
  pub meanwhile : List (ℕ × StreamEvent)
  pub answer : Option TurnRecoveryAssessment
  pub fallback : TurnRecoveryAssessment
  pub ended_at : ℕ
  pub message_id : Text
  pub boundary_id : Text

-- Where a round of the loop leads: to the next one, to the end with an answer, or to the end with the
-- turn given up.
pub data Next (St : Type 0) : Type 0 where
  again answered given_up : Turn St → Next St

-- How the loop ends: by either `break`, or as the condition of the loop fails.
pub data TurnEnd : Type 0 where
  by_answer by_failure by_limit : TurnEnd

abbrev pub loop_terminated : TurnEnd → Bool
loop_terminated by_limit = false
loop_terminated _ = true

abbrev pub is_retry : RecoveryAction → Bool
is_retry retry = true
is_retry _ = false

abbrev pub is_stop : RecoveryAction → Bool
is_stop stop = true
is_stop _ = false

abbrev pub is_wait : RecoveryAction → Bool
is_wait wait = true
is_wait _ = false

-- `assessTurnRecovery` for the cause `completion`, where waiting makes no sense.
unfoldable pub assess_completion :
    Option TurnRecoveryAssessment → TurnRecoveryAssessment → RecoverySource × TurnRecoveryAssessment
assess_completion none fallback = (from_fallback, fallback)
assess_completion (some assessment) fallback =
    if is_wait assessment.action
    then (from_cerebellum, record assessment { action = retry; wait_seconds = none })
    else (from_cerebellum, assessment)

abbrev pub cause_text : RetryCause → Text
cause_text stall = codes "stall"
cause_text completion = codes "completion"

abbrev pub resume_text : RetryCause → Text
resume_text stall = codes "watchdog-resume"
resume_text completion = codes "completion-resume"

abbrev pub source_text : RecoverySource → Text
source_text from_cerebellum = codes "cerebellum"
source_text from_fallback = codes "fallback"

unfoldable pub build_retry_context_message : RetryCause → ℕ → Text → RecoverySource → Message
unfolding show
build_retry_context_message cause attempt model_message source =
    new_message (codes "system:" ++ cause_text cause ++ codes "-retry:" ++ show attempt) 0 system
      model_message
      (record no_extra {
        metadata = some (
            field (codes "transient") (bool true) (
              field (codes "source") (str (resume_text cause))
                (field (codes "recoverySource") (str (source_text source)) end)));
      })

abbrev pub exhausted_text : RecoverySource → Text
exhausted_text from_cerebellum =
    codes
      "[Cerebellum] The turn ended repeatedly without a valid completion signal or final answer."
exhausted_text from_fallback =
    codes
      "[System fallback] The turn ended repeatedly without a valid completion signal or final answer."

-- `diagnosis || message`
abbrev pub or_message : Text → Text → Text
or_message [] message = message
or_message (c ∷ s) message = c ∷ s

abbrev pub max_total_attempts : Setup → ℕ
max_total_attempts setup = 1 + setup.max_nudge_retries + setup.max_completion_retries

module _ {St : Type 0} where
  abbrev pub fail_ids : List Text → Turn St → Turn St
  fail_ids ids turn = record turn {
    failed_attempt_message_ids = turn.failed_attempt_message_ids ++ ids;
  }

  -- The progress of the attempt is that of the turn.
  abbrev pub keep_continuity : Running St → Turn St
  keep_continuity r = record r.turn { continuity = r.attempt.state.continuity }

  abbrev pub counted_stall : Setup → Running St → Bool
  counted_stall setup r =
      ltb r.attempt.stall_retry_count_at_start r.turn.nudge_count
      && leb r.turn.nudge_count setup.max_nudge_retries

  -- With what the next round makes of the turn.
  abbrev pub go_on : (Turn St → Turn St × TurnEnd) → Next St → Turn St × TurnEnd
  go_on next (again turn) = next turn
  go_on next (answered turn) = (turn, by_answer)
  go_on next (given_up turn) = (turn, by_failure)

  abbrev pub after_loop : Setup → Turn St × TurnEnd → Turn St
  after_loop setup (turn, by_limit) =
      emit
        (error (
          codes "Retry safety limit reached after "
          ++ show (max_total_attempts setup)
          ++ codes " attempts."))
        turn
  after_loop setup (turn, _) = turn

  -- The state at the start of a turn; an assessment of an earlier turn may still be on its way.
  abbrev pub new_turn : Text → Bool → St → Turn St
  new_turn conversation_id in_flight store = record {
    store = store;
    conversation_id = conversation_id;
    nudge_count = 0;
    nudge_in_flight = in_flight;
    completion_retry_count = 0;
    next_retry_context = none;
    next_retry_cause = none;
    failed_attempt_message_ids = [];
    continuity = create_turn_continuity_state;
    emitted = [];
  }

module _ {St : Type 0} (conversations : ConversationStore St) where
  -- A system message that is shown and kept.
  abbrev pub say : AttemptScript → Text → Turn St → Turn St
  say script content turn =
      let message = new_message script.message_id script.ended_at system content no_extra in
      emit (message_system message) (append conversations script.ended_at message turn)

  abbrev pub give_up : Text → Turn St → Next St
  give_up message turn = given_up (clean_up conversations (emit (error message) turn))

  -- The message about a retry goes away with those of the attempt.
  abbrev pub retry_turn :
      RetryCause
      → RecoverySource
      → TurnRecoveryAssessment
      → AttemptScript
      → Attempt
      → Turn St
      → Next St
  retry_turn cause source assessment script attempt turn =
      let said = say script assessment.operator_message turn in
      again (record (fail_ids (attempt.message_ids ++ script.message_id ∷ []) said) {
        next_retry_cause = some cause;
        next_retry_context =
            some (build_retry_context_message cause attempt.number assessment.model_message source);
      })

  -- The part after the assessment of a stream that the guard did not let pass.
  unfoldable pub after_completion :
      Setup → AttemptScript → RecoverySource → TurnRecoveryAssessment → Running St → Next St
  unfolding build_retry_context_message record_boundary
  after_completion setup script source assessment r =
      let action =
        if is_stop assessment.action then codes "completion_stop" else codes "completion_retry" in
      let noted =
        note_recovery script.boundary_id script.ended_at action assessment.diagnosis r.attempt in
      let turn = keep_continuity (record { turn = r.turn; attempt = noted }) in
      let failure =
        or_message assessment.diagnosis
          (codes "Turn ended without a valid completion signal or final answer.") in
      if is_stop assessment.action
      then give_up failure
          (say script assessment.operator_message (fail_ids r.attempt.message_ids turn))
      else (if ltb turn.completion_retry_count setup.max_completion_retries
          then retry_turn completion source assessment script r.attempt
              (record turn { completion_retry_count = suc turn.completion_retry_count })
          else give_up failure
              (say script (exhausted_text source) (fail_ids r.attempt.message_ids turn)))

  abbrev pub after_resolved :
      Setup → AttemptScript → Running St → Option CompletionGuardFailure → Next St
  after_resolved setup script r none = answered (keep_continuity r)
  after_resolved setup script r (some failure) =
      let (source, assessment) = assess_completion script.answer script.fallback in
      after_completion setup script source assessment (steps conversations setup script.meanwhile r)

  abbrev pub plain_failure : AttemptScript → Text → Bool → Turn St → Next St
  plain_failure script message aborted turn =
      if not script.connected && aborted
      then give_up
          (codes
            "Cerebellum disconnected during active response. Restart it with: docker compose up -d cerebellum")
          turn
      else give_up message turn

  -- The `catch`, by what the watchdog has decided; `turn` has the ids of the attempt among the failed.
  abbrev pub recover :
      Setup
      → AttemptScript
      → Text
      → Running St
      → Turn St
      → Option (RecoverySource × TurnRecoveryAssessment)
      → Next St
  recover setup script message r turn none = plain_failure script message r.attempt.aborted turn
  recover setup script message r turn (some (source, assessment)) =
      if r.attempt.aborted && is_retry assessment.action && counted_stall setup r
      then retry_turn stall source assessment script r.attempt turn
      else (if r.attempt.aborted && is_stop assessment.action
          then give_up assessment.diagnosis (say script assessment.operator_message turn)
          else plain_failure script message r.attempt.aborted turn)

  unfoldable pub after_rejected : Setup → AttemptScript → Text → Running St → Next St
  unfolding build_retry_context_message
  after_rejected setup script message r =
      recover setup script message r (fail_ids r.attempt.message_ids (keep_continuity r))
        r.attempt.pending

  abbrev pub settle : Setup → AttemptScript → Running St → Settlement → Next St
  settle setup script r resolved = after_resolved setup script r r.attempt.guard_failure
  settle setup script r (rejected message) = after_rejected setup script message r

  -- One round of the loop.
  unfoldable pub run_attempt : Setup → ℕ → AttemptScript → Turn St → Next St
  unfolding steps after_completion after_rejected assess_completion
  run_attempt setup number script turn =
      settle setup script
        (steps conversations setup script.events (start_attempt script.started_at number turn))
        script.settlement

  -- The messages that an attempt sends to the model, without those of the failed attempts.
  abbrev pub history : Turn St → List Message
  history turn =
      without_messages turn.failed_attempt_message_ids
        (conversations.get_messages turn.conversation_id turn.store)

  -- `for (attempt = 0; attempt < maxTotalAttempts; attempt++)`, from the attempt with this index.
  unfoldable pub attempts : Setup → (ℕ → AttemptScript) → ℕ → ℕ → Turn St → Turn St × TurnEnd
  unfolding run_attempt
  attempts setup script zero index turn = (turn, by_limit)
  attempts setup script (suc left) index turn =
      go_on (attempts setup script left (suc index))
        (run_attempt setup (suc index) (script index) turn)

  -- The message of the user, where there is one.
  abbrev pub add_user_message : ℕ → Text → Text → Turn St → Turn St
  add_user_message now id [] turn = turn
  add_user_message now id (c ∷ content) turn =
      let message = new_message id now user (c ∷ content) no_extra in
      emit (message_user message) (append conversations now message turn)

  -- `sendMessage` of a text with an id for its message, where the Cerebrum is there and the Cerebellum
  -- is not offline.
  unfoldable pub send_message :
      Setup → (ℕ → AttemptScript) → ℕ → Text → Text → Text → Bool → St → Turn St × TurnEnd
  unfolding attempts
  send_message setup script now user_id content conversation_id in_flight store =
      let started =
        add_user_message now user_id content (new_turn conversation_id in_flight store) in
      let (turn, ended) = attempts setup script (max_total_attempts setup) 0 started in
      (after_loop setup (turn, ended), ended)
