-- ===== src/Core/Orchestrator/Turn/Counting.antt =====
-- packages/core/src/orchestrator.ts: how the retries of a turn are counted, and that they end.
use cere_worker.Prelude.{
  ℕ, ◌+◌, ◌≤◌, ltb, ltb→lt, if◌then◌else◌, Bool, true, false, not, ◌&&◌, Option, none, some, List,
  [], ◌∷◌, ◌≡◌, refl, ◌∙◌, Text, arith,
}
use cere_worker.Core.Orchestrator.Store.{ConversationStore}
use cere_worker.Core.Orchestrator.Completion.{CompletionGuardFailure, evaluate_completion_guard}
use cere_worker.Core.Orchestrator.Turn.{
  RecoverySource, from_fallback, TurnRecoveryAssessment, RecoveryAction, wait, retry, stop, Setup,
  Turn, Running, emit, cerebrum_stall,
}
use cere_worker.Core.Orchestrator.Turn.Events
use cere_worker.Core.Orchestrator.Turn.Watchdog

abbrev pub flying : Bool → ℕ
flying true = 1
flying false = 0

module _ {St : Type 0} where
  -- The nudges that are counted, and the one that is on its way, are within the limit.
  abbrev pub NudgesWithin : Setup → Turn St → Type 0
  NudgesWithin setup turn = turn.nudge_count + flying turn.nudge_in_flight ≤ setup.max_nudge_retries

  -- What an event does to the counts.
  pub record Counts (setup : Setup) (r r' : Running St) : Type 0 where
    pub within : NudgesWithin setup r.turn → NudgesWithin setup r'.turn
    pub grows : r.turn.nudge_count ≤ r'.turn.nudge_count
    pub completion : r'.turn.completion_retry_count ≡ r.turn.completion_retry_count
    pub start : r'.attempt.stall_retry_count_at_start ≡ r.attempt.stall_retry_count_at_start

  unmoved : (setup : Setup) (r : Running St) → Counts setup r r
  unmoved setup r = record { within = λ h. h; grows = omega arith; completion = refl; start = refl }

  if-Counts :
      (setup : Setup) (r x y : Running St) (b : Bool)
      → (b ≡ true → Counts setup r x)
      → (b ≡ false → Counts setup r y)
      → Counts setup r (if b then x else y)
  if-Counts setup r x y true h k = h refl
  if-Counts setup r x y false h k = k refl

  -- The counts of the one are those of the other.
  abbrev SameCounts : Running St → Running St → Type 0
  SameCounts r r' =
      (r'.turn.nudge_count ≡ r.turn.nudge_count)
      × (r'.turn.nudge_in_flight ≡ r.turn.nudge_in_flight)
      × (r'.turn.completion_retry_count ≡ r.turn.completion_retry_count)
      × (r'.attempt.stall_retry_count_at_start ≡ r.attempt.stall_retry_count_at_start)

  of_same : (setup : Setup) (r r' : Running St) → SameCounts r r' → Counts setup r r'
  of_same setup r r' (n, f, c, s) = record {
    within = λ h. rw (n, f) h;
    grows = omega (arith, n);
    completion = c;
    start = s;
  }

module _ {St : Type 0} where
  nudge-Counts :
      (setup : Setup) (now : ℕ) (source : RecoverySource) (a : TurnRecoveryAssessment) (id : Text)
      (r : Running St)
      → r.turn.nudge_in_flight ≡ true
      → Counts setup r (Watchdog.nudge now source a id r)
  nudge-Counts setup now source a id r f = record {
    within = λ h. omega (arith, rw f at h);
    grows = omega arith;
    completion = refl;
    start = refl;
  }

  landed-Counts :
      (setup : Setup) (r r' : Running St)
      → r'.turn.nudge_in_flight ≡ false
      → r'.turn.nudge_count ≡ r.turn.nudge_count
      → r'.turn.completion_retry_count ≡ r.turn.completion_retry_count
      → r'.attempt.stall_retry_count_at_start ≡ r.attempt.stall_retry_count_at_start
      → Counts setup r r'
  landed-Counts setup r r' f n c s = record {
    within = λ h. rw (f, n) (omega (arith, h));
    grows = omega (arith, n);
    completion = c;
    start = s;
  }

  assessed-Counts :
      (setup : Setup) (now : ℕ) (source : RecoverySource) (a : TurnRecoveryAssessment) (id : Text)
      (action : RecoveryAction) (r : Running St)
      → r.turn.nudge_in_flight ≡ true
      → Counts setup r (Watchdog.apply_assessment setup now source a id action r)
  assessed-Counts setup now source a id wait r f = landed-Counts setup r _ refl refl refl refl
  assessed-Counts setup now source a id retry r f = nudge-Counts setup now source a id r f
  assessed-Counts setup now source a id stop r f = landed-Counts setup r _ refl refl refl refl

  ticked-Counts :
      (setup : Setup) (now : ℕ) (connected : Bool) (r : Running St)
      → Watchdog.is_stalled setup now r ≡ true
      → Counts setup r (
          if connected
          then record r { turn = emit cerebrum_stall (record r.turn { nudge_in_flight = true }) }
          else record {
            turn = emit cerebrum_stall r.turn;
            attempt = Watchdog.abort_current r.attempt;
          })
  ticked-Counts setup now true r t =
      let room : ltb r.turn.nudge_count setup.max_nudge_retries ≡ true = ground (arith, t) in
      record {
        within = λ h. omega (arith, ltb→lt _ _ room);
        grows = omega arith;
        completion = refl;
        start = refl;
      }
  ticked-Counts setup now false r t = of_same setup r _ (refl, refl, refl, refl)

module _ {St : Type 0} (conversations : ConversationStore St) where
  step-Counts :
      (setup : Setup) (e : ℕ × Events.StreamEvent) (r : Running St)
      → Counts setup r (Events.step conversations setup e r)
  unfolding Events.step
  step-Counts setup (now, Events.chunk text) r =
      if-Counts setup r _ _ (Events.is_open r.attempt)
        (λ _. of_same setup r _ (refl, refl, refl, refl)) (λ _. unmoved setup r)
  step-Counts setup (now, Events.tool_called call) r =
      if-Counts setup r _ _ (Events.is_open r.attempt)
        (λ _. of_same setup r _ (refl, refl, refl, refl)) (λ _. unmoved setup r)
  step-Counts setup (now, Events.signalled signal args id) r =
      of_same setup r _ (refl, refl, refl, refl)
  step-Counts setup (now, Events.checkpointed args id) r =
      of_same setup r _ (refl, refl, refl, refl)
  step-Counts setup (now, Events.tool_returned call result) r =
      if-Counts setup r _ _ r.attempt.aborted (λ _. unmoved setup r)
        (λ _. of_same setup r _ (refl, refl, refl, refl))
  step-Counts setup (now, Events.tool_recorded call name result resume boundary id) r =
      if-Counts setup r _ _
        (Events.is_open r.attempt
          && not (Events.is_internal_task_signal_tool (Events.normalized_name call.name)))
        (λ _. of_same setup r _ (refl, refl, refl, refl)) (λ _. unmoved setup r)
  step-Counts setup (now, Events.finished content calls meta id) r =
      if-Counts setup r _ _ (Events.is_open r.attempt)
        (λ _. judged (evaluate_completion_guard content meta r.attempt.state))
        (λ _. unmoved setup r)
    where
      judged :
          (failure : Option CompletionGuardFailure)
          → Counts setup r (
              Events.judge conversations now content calls id
                (Events.with_attempt r (record (Events.stop_watchdog r.attempt) {
                  final_display_content = content;
                  finish_meta = meta;
                }))
                failure)
      judged none = of_same setup r _ (refl, refl, refl, refl)
      judged (some failure) = of_same setup r _ (refl, refl, refl, refl)
  step-Counts setup (now, Events.stream_error message) r =
      if-Counts setup r _ _ r.attempt.current (λ _. of_same setup r _ (refl, refl, refl, refl))
        (λ _. unmoved setup r)
  step-Counts setup (now, Events.ticked connected) r =
      if-Counts setup r _ _ (Watchdog.is_stalled setup now r) (ticked-Counts setup now connected r)
        (λ _. unmoved setup r)
  step-Counts setup (now, Events.assessed source a id) r =
      if-Counts setup r _ _ r.turn.nudge_in_flight
        (assessed-Counts setup now source a id a.action r) (λ _. unmoved setup r)
  step-Counts setup (now, Events.assessment_failed a id) r =
      if-Counts setup r _ _ r.turn.nudge_in_flight (nudge-Counts setup now from_fallback a id r)
        (λ _. unmoved setup r)
  step-Counts setup (now, Events.emergency_stopped) r = of_same setup r _ (refl, refl, refl, refl)

  pub steps-Counts :
      (setup : Setup) (es : List (ℕ × Events.StreamEvent)) (r : Running St)
      → Counts setup r (Events.steps conversations setup es r)
  unfolding Events.steps
  steps-Counts setup [] r = unmoved setup r
  steps-Counts setup (e ∷ es) r =
      let first = step-Counts setup e r in
      let rest = steps-Counts setup es (Events.step conversations setup e r) in
      record {
        within = λ h. rest.within (first.within h);
        grows = omega (arith, first.grows, rest.grows);
        completion = rest.completion ∙ first.completion;
        start = rest.start ∙ first.start;
      }
