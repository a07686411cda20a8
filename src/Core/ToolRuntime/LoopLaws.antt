-- ===== src/Core/ToolRuntime/LoopLaws.antt =====
-- When the loop detector speaks.
use cere_worker.Prelude.{ℕ, ◌+◌, ◌≤◌, ◌≡◌, refl, Text, true, some, List, leb, arith}
use cere_worker.Core.ToolRuntime.Values.{Fields, Engine, hash_tool_call}
use cere_worker.Core.ToolRuntime.Streaks.{ToolHistoryEntry, get_repeat_streak}
use cere_worker.Core.ToolRuntime.Loops.{
  generic_repeat, critical, ToolLoopDetectionConfig, LoopDetectionOutcome, detect_loop_before_call,
  check_repeat,
}

check_repeat-critical :
    (config : ToolLoopDetectionConfig) (tool_name : Text) (n : ℕ)
    → config.critical_threshold ≤ n
    → (found : LoopDetectionOutcome) × (check_repeat config tool_name n ≡ some found)
      × (found.level ≡ critical)
      × (found.detector ≡ generic_repeat)
unfolding check_repeat
check_repeat-critical config tool_name n h =
    let high : leb config.critical_threshold n ≡ true = ground arith in
    rw high (_, refl, refl, refl)

-- With the detection on and the detector of repeats on, a call whose streak, itself included,
-- reaches the critical threshold is found critical, whatever the other detectors say.
pub detect-critical :
    (engine : Engine) (history : List ToolHistoryEntry) (tool_name : Text) (args : Fields)
    (config : ToolLoopDetectionConfig)
    → config.enabled ≡ true
    → config.detectors.generic_repeat ≡ true
    → config.critical_threshold
      ≤ get_repeat_streak history (hash_tool_call engine tool_name args) + 1
    → (found : LoopDetectionOutcome) × (detect_loop_before_call engine history tool_name args config
        ≡ some found)
      × (found.level ≡ critical)
      × (found.detector ≡ generic_repeat)
unfolding detect_loop_before_call
detect-critical engine history tool_name args config on repeats h =
    let n = get_repeat_streak history (hash_tool_call engine tool_name args) + 1 in
    let (found, e, level, detector) = check_repeat-critical config tool_name n h in
    (found, rw (e, on, repeats), level, detector)
