-- ===== src/Core/Orchestrator/Turn/Termination.antt =====
-- packages/core/src/orchestrator.ts: the loop over the attempts of a turn ends by itself.
use cere_worker.Prelude.{
  ℕ, zero, suc, ◌+◌, ◌≤◌, ◌<◌, ltb, ltb→lt, if◌then◌else◌, Bool, true, false, not, ◌&&◌, Option,
  none, some, [], ◌∷◌, ◌≡◌, refl, ◌∙◌, Text, arith,
}
use cere_worker.Core.Orchestrator.Store.{ConversationStore}
use cere_worker.Core.Orchestrator.Completion.{CompletionGuardFailure}
use cere_worker.Core.Orchestrator.Turn.{
  RecoverySource, TurnRecoveryAssessment, Setup, Turn, Running, start_attempt,
}
use cere_worker.Core.Orchestrator.Turn.Events
use cere_worker.Core.Orchestrator.Turn.Loop
use cere_worker.Core.Orchestrator.Turn.Counting.{flying, NudgesWithin, Counts, steps-Counts}

module _ {St : Type 0} (conversations : ConversationStore St) where
  -- What the next round needs, if there is one: one more retry is counted, within the limits.
  abbrev Progresses : Setup → Turn St → Loop.Next St → Type 0
  Progresses setup turn (Loop.again turn') =
      NudgesWithin setup turn'
      × (turn'.completion_retry_count ≤ setup.max_completion_retries)
      × (turn.nudge_count + turn.completion_retry_count
          < turn'.nudge_count + turn'.completion_retry_count)
  Progresses setup turn (Loop.answered turn') = Unit
  Progresses setup turn (Loop.given_up turn') = Unit

  if-Progresses :
      (setup : Setup) (turn : Turn St) (x y : Loop.Next St) (b : Bool)
      → (b ≡ true → Progresses setup turn x)
      → (b ≡ false → Progresses setup turn y)
      → Progresses setup turn (if b then x else y)
  if-Progresses setup turn x y true h k = h refl
  if-Progresses setup turn x y false h k = k refl

  -- A running attempt of the turn, as the end of the attempt finds it.
  record Runs (setup : Setup) (turn : Turn St) (r : Running St) : Type 0 where
    pub within : NudgesWithin setup r.turn
    pub grows : turn.nudge_count ≤ r.turn.nudge_count
    pub completion : r.turn.completion_retry_count ≡ turn.completion_retry_count
    pub start : r.attempt.stall_retry_count_at_start ≡ turn.nudge_count
    pub limit : turn.completion_retry_count ≤ setup.max_completion_retries

  completion-Progresses :
      (setup : Setup) (script : Loop.AttemptScript) (source : RecoverySource)
      (a : TurnRecoveryAssessment) (turn : Turn St) (r : Running St)
      → Runs setup turn r
      → Progresses setup turn (Loop.after_completion conversations setup script source a r)
  unfolding Loop.after_completion
  completion-Progresses setup script source a turn r h =
      if-Progresses setup turn _ _ (Loop.is_stop a.action) (λ _. tt)
        (λ _.
          if-Progresses setup turn _ _
            (ltb r.turn.completion_retry_count setup.max_completion_retries)
            (λ room.
              (h.within, omega (arith, ltb→lt _ _ room), omega (arith, h.grows, h.completion)))
            (λ _. tt))

  plain_failure-Progresses :
      (setup : Setup) (script : Loop.AttemptScript) (message : Text) (aborted : Bool)
      (turn turn' : Turn St)
      → Progresses setup turn (Loop.plain_failure conversations script message aborted turn')
  plain_failure-Progresses setup script message aborted turn turn' =
      if-Progresses setup turn _ _ (not script.connected && aborted) (λ _. tt) (λ _. tt)

  rejected-Progresses :
      (setup : Setup) (script : Loop.AttemptScript) (message : Text) (turn : Turn St)
      (r : Running St) (pending : Option (RecoverySource × TurnRecoveryAssessment))
      → Runs setup turn r
      → Progresses setup turn (
          Loop.recover conversations setup script message r
            (Loop.fail_ids r.attempt.message_ids (Loop.keep_continuity r))
            pending)
  rejected-Progresses setup script message turn r none h =
      plain_failure-Progresses setup script message r.attempt.aborted turn
        (Loop.fail_ids r.attempt.message_ids (Loop.keep_continuity r))
  rejected-Progresses setup script message turn r (some (source, a)) h =
      if-Progresses setup turn _ _
        (r.attempt.aborted && Loop.is_retry a.action && Loop.counted_stall setup r)
        (λ counted.
          let more : ltb r.attempt.stall_retry_count_at_start r.turn.nudge_count ≡ true =
            ground (arith, counted) in
          (
            h.within,
            omega (arith, h.limit, h.completion),
            omega (arith, ltb→lt _ _ more, h.start, h.completion),
          ))
        (λ _.
          if-Progresses setup turn _ _ (r.attempt.aborted && Loop.is_stop a.action) (λ _. tt)
            (λ _.
              plain_failure-Progresses setup script message r.attempt.aborted turn
                (Loop.fail_ids r.attempt.message_ids (Loop.keep_continuity r))))

  run_attempt-Progresses :
      (setup : Setup) (number : ℕ) (script : Loop.AttemptScript) (turn : Turn St)
      → NudgesWithin setup turn
      → turn.completion_retry_count ≤ setup.max_completion_retries
      → Progresses setup turn (Loop.run_attempt conversations setup number script turn)
  unfolding Loop.run_attempt Loop.after_rejected
  run_attempt-Progresses setup number script turn h limit =
      let started = start_attempt script.started_at number turn in
      let ran = Events.steps conversations setup script.events started in
      settled script.settlement
        (run_of ran (steps-Counts conversations setup script.events started))
    where
      run_of :
          (r : Running St)
          → Counts setup (start_attempt script.started_at number turn) r
          → Runs setup turn r
      run_of r c = record {
        within = c.within h;
        grows = c.grows;
        completion = c.completion;
        start = c.start;
        limit = limit;
      }

      resolved-Progresses :
          (r : Running St) (failure : Option CompletionGuardFailure)
          → Runs setup turn r
          → Progresses setup turn (Loop.after_resolved conversations setup script r failure)
      resolved-Progresses r none k = tt
      resolved-Progresses r (some failure) k =
          let c = steps-Counts conversations setup script.meanwhile r in
          let (source, a) = Loop.assess_completion script.answer script.fallback in
          completion-Progresses setup script source a turn
            (Events.steps conversations setup script.meanwhile r)
            (record {
              within = c.within k.within;
              grows = omega (arith, c.grows, k.grows);
              completion = c.completion ∙ k.completion;
              start = c.start ∙ k.start;
              limit = limit;
            })

      settled :
          {r : Running St} (settlement : Loop.Settlement)
          → Runs setup turn r
          → Progresses setup turn (Loop.settle conversations setup script r settlement)
      settled {r} Loop.resolved k = resolved-Progresses r r.attempt.guard_failure k
      settled {r} (Loop.rejected message) k =
          rejected-Progresses setup script message turn r r.attempt.pending k

  attempts-terminates :
      (setup : Setup) (script : ℕ → Loop.AttemptScript) (left index : ℕ) (turn : Turn St)
      → NudgesWithin setup turn
      → turn.completion_retry_count ≤ setup.max_completion_retries
      → setup.max_nudge_retries + setup.max_completion_retries
        < left + (turn.nudge_count + turn.completion_retry_count)
      → Loop.loop_terminated (Loop.attempts conversations setup script left index turn).1 ≡ true
  unfolding Loop.attempts
  attempts-terminates setup script zero index turn h limit room =
      absurd (omega (arith, h, limit, room))
  attempts-terminates setup script (suc left) index turn h limit room =
      of_next (Loop.run_attempt conversations setup (suc index) (script index) turn)
        (run_attempt-Progresses setup (suc index) (script index) turn h limit)
        (attempts-terminates setup script left (suc index))
    where
      of_next :
          (next : Loop.Next St)
          → Progresses setup turn next
          → ((turn' : Turn St)
              → NudgesWithin setup turn'
              → turn'.completion_retry_count ≤ setup.max_completion_retries
              → setup.max_nudge_retries + setup.max_completion_retries
                < left + (turn'.nudge_count + turn'.completion_retry_count)
              → Loop.loop_terminated
                  (Loop.attempts conversations setup script left (suc index) turn').1
                ≡ true)
          → Loop.loop_terminated
              (Loop.go_on (Loop.attempts conversations setup script left (suc index)) next).1
            ≡ true
      of_next (Loop.again turn') (h', limit', more) later =
          later turn' h' limit' (omega (arith, room, more))
      of_next (Loop.answered turn') _ later = refl
      of_next (Loop.given_up turn') _ later = refl

  -- Whatever the stream, the tools, the watchdog and the Cerebellum do, a turn leaves the loop by an
  -- answer or by giving up, within one attempt and the retries that are allowed for stalls and for
  -- completion, so that the error about the retry safety limit is never emitted. An assessment of an
  -- earlier turn that is still on its way counts as a nudge.
  pub send_message-terminates :
      (setup : Setup) (script : ℕ → Loop.AttemptScript) (now : ℕ)
      (user_id content conversation_id : Text) (in_flight : Bool) (store : St)
      → flying in_flight ≤ setup.max_nudge_retries
      → Loop.loop_terminated
          (Loop.send_message conversations setup script now user_id content conversation_id
            in_flight store).1
        ≡ true
  unfolding Loop.send_message
  send_message-terminates setup script now user_id [] conversation_id in_flight store h =
      attempts-terminates setup script (Loop.max_total_attempts setup) 0
        (Loop.new_turn conversation_id in_flight store) (omega (arith, h)) (omega arith)
        (omega arith)
  send_message-terminates setup script now user_id (c ∷ content) conversation_id in_flight store h =
      attempts-terminates setup script (Loop.max_total_attempts setup) 0
        (Loop.add_user_message conversations now user_id (c ∷ content)
          (Loop.new_turn conversation_id in_flight store))
        (omega (arith, h)) (omega arith) (omega arith)
