-- ===== src/Core/Orchestrator/Turn/Watchdog.antt =====
-- packages/core/src/orchestrator.ts: `startStreamWatchdog`, which looks after the stream of a turn.
use cere_worker.Prelude.{
  ℕ, suc, ◌+◌, ◌-◌, ◌*◌, max, ltb, leb, Text, codes, if◌then◌else◌, Bool, true, false, not, ◌&&◌,
  ◌||◌, Option, none, some,
}
use cere_worker.Core.Orchestrator.{recovery_boundary}
use cere_worker.Core.Orchestrator.Continuity.{BoundaryInput, record_boundary}
use cere_worker.Core.Orchestrator.Turn.{
  StreamPhase, waiting_model, RecoverySource, from_fallback, RecoveryAction, wait, retry, stop,
  TurnRecoveryAssessment, Setup, cerebrum_stall, stall_nudge, Attempt, Turn, Running, emit,
}

abbrev pub recovery_input : Text → Text → BoundaryInput
recovery_input action summary = record {
  kind = recovery_boundary;
  action = action;
  summary = summary;
  state_changing = false;
  url = none;
  tab_id = none;
  evidence = none;
  checkpoint_status = none;
}

-- The seconds of `waitSeconds ?? threshold / 1000`, as milliseconds.
abbrev pub wait_ms_of : Option ℕ → ℕ → ℕ
wait_ms_of none threshold = threshold
wait_ms_of (some seconds) threshold = seconds * 1000

abbrev pub is_waiting_model : StreamPhase → Bool
is_waiting_model waiting_model = true
is_waiting_model _ = false

-- `getCurrentStallThresholdMs`
abbrev pub stall_threshold_ms : Setup → StreamPhase → ℕ → ℕ
stall_threshold_ms setup phase nudge_count =
    let base =
      if is_waiting_model phase
      then setup.stream_stall_threshold * 3
      else setup.stream_stall_threshold in
    base + nudge_count * setup.stream_stall_threshold

-- `this.abortController?.abort()`
abbrev pub abort_current : Attempt → Attempt
abort_current attempt = record attempt { aborted = attempt.aborted || attempt.current }

abbrev pub note_recovery : Text → ℕ → Text → Text → Attempt → Attempt
note_recovery id now action summary attempt = record attempt {
  state = record attempt.state {
    continuity = record_boundary id now attempt.state.continuity (recovery_input action summary);
  };
}

module _ {St : Type 0} where
  -- The conditions under which the interval of the watchdog does anything.
  abbrev pub is_stalled : Setup → ℕ → Running St → Bool
  is_stalled setup now r =
      let threshold = stall_threshold_ms setup r.attempt.phase r.turn.nudge_count in
      r.attempt.watching
      && leb r.attempt.deferred_until now
      && leb threshold (now - r.attempt.last_activity_at)
      && ltb r.turn.nudge_count setup.max_nudge_retries
      && not r.turn.nudge_in_flight

  abbrev pub on_ticked : Setup → ℕ → Bool → Running St → Running St
  on_ticked setup now connected r =
      if is_stalled setup now r
      then (if connected
          then record r { turn = emit cerebrum_stall (record r.turn { nudge_in_flight = true }) }
          else record { turn = emit cerebrum_stall r.turn; attempt = abort_current r.attempt })
      else r

  abbrev pub landed : Turn St → Turn St
  landed turn = record turn { nudge_in_flight = false }

  -- The nudge is counted, and the stream is aborted.
  abbrev pub nudge : ℕ → RecoverySource → TurnRecoveryAssessment → Text → Running St → Running St
  nudge now source assessment id r =
      let count = suc r.turn.nudge_count in
      record {
        turn = emit (stall_nudge count) (record (landed r.turn) { nudge_count = count });
        attempt = abort_current (
            note_recovery id now (codes "stall_retry") assessment.diagnosis
              (record r.attempt { pending = some (source, assessment) }));
      }

  abbrev pub apply_assessment :
      Setup
      → ℕ
      → RecoverySource
      → TurnRecoveryAssessment
      → Text
      → RecoveryAction
      → Running St
      → Running St
  apply_assessment setup now source assessment id wait r =
      let wait_ms = max 15000 (wait_ms_of assessment.wait_seconds setup.stream_stall_threshold) in
      record { turn = landed r.turn; attempt = record r.attempt { deferred_until = now + wait_ms } }
  apply_assessment setup now source assessment id retry r = nudge now source assessment id r
  apply_assessment setup now source assessment id stop r = record {
    turn = landed r.turn;
    attempt = abort_current (
        note_recovery id now (codes "stall_stop") assessment.diagnosis
          (record r.attempt { pending = some (source, assessment) }));
  }

  -- An assessment arrives only where one was asked for.
  abbrev pub on_assessed :
      Setup → ℕ → RecoverySource → TurnRecoveryAssessment → Text → Running St → Running St
  on_assessed setup now source assessment id r =
      if r.turn.nudge_in_flight
      then apply_assessment setup now source assessment id assessment.action r
      else r

  abbrev pub on_assessment_failed : ℕ → TurnRecoveryAssessment → Text → Running St → Running St
  on_assessment_failed now assessment id r =
      if r.turn.nudge_in_flight then nudge now from_fallback assessment id r else r
