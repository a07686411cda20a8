-- ===== src/Core/ToolRuntime/Halting.antt =====
-- One call made again and again in one scope: from some call on the tool is not reached any more.
use mathlib.Core.Path.{ap₂}
use cere_worker.Prelude.{
  ℕ, zero, suc, ◌+◌, ◌≤◌, ◌<◌, ◌≡◌, refl, ◌∙◌, Text, ◌⊎◌, inl, inr, arith, dec_lt,
}
use cere_worker.Core.ToolRuntime.Values.{Engine}
use cere_worker.Core.ToolRuntime.Execute.{
  ToolRuntime, ToolDefinition, ExecuteParams, execute, detection_of, get_history, args_of,
}
use cere_worker.Core.ToolRuntime.LoopLaws.{detect-critical}
use cere_worker.Core.ToolRuntime.Output.{IsRefused}
use cere_worker.Core.ToolRuntime.Brake.{
  name_of, CanBrake, IsPlainCall, streak, Halts, critical-Halts, execute_step, Progress,
}

-- `n` calls one after the other, each with the runtime and the world that the one before left.
unfoldable pub execute_times :
    {W : Type 0} → Engine → ExecuteParams W → ℕ → ToolRuntime → W → ToolRuntime × W
execute_times engine params zero rt w = (rt, w)
execute_times engine params (suc n) rt w =
    let (rt', w', _) = execute engine params rt w in execute_times engine params n rt' w'

module _ (engine : Engine) {W : Type 0} (params : ExecuteParams W) (key : Text)
    (tool : ToolDefinition W) (plain : IsPlainCall engine params tool) where
  streak-Halts :
      (rt : ToolRuntime) (w : W)
      → CanBrake engine params key rt.config
      → rt.config.loop_detection.critical_threshold ≤ streak engine params key rt + 1
      → Halts engine params rt w
  unfolding detection_of
  streak-Halts rt w can h =
      let (found, e, level, _) =
        detect-critical engine (get_history key rt.history_by_scope) (name_of engine params)
          (args_of engine params) rt.config.loop_detection can.enabled can.repeats h in
      critical-Halts engine params key tool plain rt w found can e level

  execute_times-halted :
      (n : ℕ) (rt : ToolRuntime) (w : W)
      → Halts engine params rt w
      → execute_times engine params n rt w ≡ (rt, w)
  unfolding execute_times
  execute_times-halted zero rt w h = refl
  execute_times-halted (suc n) rt w h =
      ap₂ (execute_times engine params n) h.runtime h.world ∙ execute_times-halted n rt w h

  longer :
      (k : ℕ) (rt rt' : ToolRuntime)
      → CanBrake engine params key rt.config
      → Progress engine params key tool plain rt rt'
      → k ≤ streak engine params key rt
      → streak engine params key rt + 1 < rt.config.loop_detection.critical_threshold
      → suc k ≤ streak engine params key rt'
  longer k rt rt' can progress h early = omega (arith, progress.longer, can.room)

  Halts-after :
      (n k : ℕ) (rt : ToolRuntime) (w : W)
      → CanBrake engine params key rt.config
      → Halts engine params rt w ⊎ (k ≤ streak engine params key rt)
      → rt.config.loop_detection.critical_threshold ≤ n + k + 1
      → let (rt', w') = execute_times engine params n rt w in Halts engine params rt' w'
  unfolding execute_times
  Halts-after zero k rt w can (inl h) enough = h
  Halts-after zero k rt w can (inr h) enough = streak-Halts rt w can (omega arith)
  Halts-after (suc n) k rt w can (inl h) enough = rw (execute_times-halted (suc n) rt w h) h
  Halts-after (suc n) k rt w can (inr h) enough =
      elim (dec_lt (streak engine params key rt + 1) rt.config.loop_detection.critical_threshold) [
        | no late ↦
            let halted = streak-Halts rt w can (omega arith) in
            rw (execute_times-halted (suc n) rt w halted) halted
        | yes early ↦ elim (execute_step engine params key tool plain rt w can) [
          | inl halted ↦ rw (execute_times-halted (suc n) rt w halted) halted
          | inr progress ↦
              let (rt', w', _) = execute engine params rt w in
              Halts-after n (suc k) rt' w' (rw progress.config can)
                (inr (longer k rt rt' can progress h early)) (rw progress.config (omega arith))
        ]
      ]

  -- The brake: after as many calls as the critical threshold less one, every further call of the
  -- same kind is refused, and leaves the runtime and the world as they were. The call names a known
  -- tool with its required parameters and is not aborted; the detection of repeats is on, the scope
  -- is not empty, and the history of a scope holds at least as many entries as the threshold less
  -- one. What the scope held before does not matter.
  pub execute_times-IsRefused :
      (n : ℕ) (rt : ToolRuntime) (w : W)
      → CanBrake engine params key rt.config
      → rt.config.loop_detection.critical_threshold ≤ n + 1
      → let (rt', w') = execute_times engine params n rt w in
        IsRefused engine params rt' w' (execute engine params rt' w')
  execute_times-IsRefused n rt w can enough =
      Halts-after n 0 rt w can (inr (omega arith)) (omega arith)
