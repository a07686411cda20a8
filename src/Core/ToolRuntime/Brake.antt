-- ===== src/Core/ToolRuntime/Brake.antt =====
-- The loop brake: one call made again and again in one scope is refused for good.
use cere_worker.Prelude.{
  ℕ, suc, ◌+◌, ◌≤◌, ◌<◌, ◌≡◌, ◌≢◌, refl, ap, ◌∙◌, Text, text_eq_refl, truthy, true, Option, none,
  some, List, [], ◌∷◌, ◌⊎◌, inl, inr, arith, min,
}
use cere_worker.Core.ToolRuntime.Values.{
  Value, Engine, get_missing_required_parameters, hash_tool_call,
}
use cere_worker.Core.ToolRuntime.Streaks.{ToolHistoryEntry, get_repeat_streak}
use cere_worker.Core.ToolRuntime.Loops.{
  ToolRuntimeEngine, legacy, enhanced, LoopDetectionOutcome, LoopLevel, warning, critical,
  ToolRuntimeConfig,
}
use cere_worker.Core.ToolRuntime.Results.{ToolResult}
use cere_worker.Core.ToolRuntime.Execute.{
  ToolRuntime, ToolDefinition, ExecuteParams, go, quiet, AbortSignal, Histories, check_call,
  check_as, after_detection, detection_of, run_tool, run_under, raw_of, finish, finish_as,
  finish_raw, run_checked, run_resolved, execute, resolve_tool, normalize_tool_name, get_history,
  set_history, record_tool_outcome, scope_of, args_of, context_of, ToolExecutionContext,
}
use cere_worker.Core.ToolRuntime.StreakLaws.{get_repeat_streak-snoc, get_repeat_streak-slice_last}
use cere_worker.Core.ToolRuntime.ExecuteLaws.{capacity}
use cere_worker.Core.ToolRuntime.Output.{IsRefused}

get_history-set_self :
    (key : Text) (h : List ToolHistoryEntry) (m : Histories)
    → get_history key (set_history key h m) ≡ h
unfolding get_history set_history
get_history-set_self key h [] = rw (text_eq_refl key)
get_history-set_self key h ((k, v) ∷ m) =
    ground (arith, text_eq_refl key, get_history-set_self key h m)

module _ (engine : Engine) {W : Type 0} (params : ExecuteParams W) where
  abbrev pub name_of : Text
  name_of = normalize_tool_name params.tool_call.name

  -- The runtime brakes repeats in a scope, and keeps a history that is long enough to see them.
  pub record CanBrake (key : Text) (config : ToolRuntimeConfig) : Type 0 where
    pub is_enhanced : config.engine ≡ enhanced
    pub enabled : config.loop_detection.enabled ≡ true
    pub repeats : config.loop_detection.detectors.generic_repeat ≡ true
    pub room : config.loop_detection.critical_threshold ≤ capacity config + 1
    pub some_room : 0 < capacity config
    pub scope : truthy (scope_of engine params) ≡ some key

  -- The call names a known tool, has its required parameters, and never ends in an AbortError.
  pub record IsPlainCall (tool : ToolDefinition W) : Type 0 where
    pub known : resolve_tool params.tools name_of ≡ some tool
    pub complete : get_missing_required_parameters tool.parameters (args_of engine params) ≡ []
    pub signal : params.abort_signal ≡ quiet
    pub settles :
        (w : W) (c : ToolExecutionContext)
        → raw_of engine params (tool.execute (args_of engine params) c w).1 ≢ none

  abbrev pub streak : Text → ToolRuntime → ℕ
  streak key rt =
      get_repeat_streak (get_history key rt.history_by_scope)
        (hash_tool_call engine name_of (args_of engine params))

  -- The runtime and the world stay as they are.
  abbrev pub Halts : ToolRuntime → W → Type 0
  Halts rt w = IsRefused engine params rt w (execute engine params rt w)

  module _ (key : Text) (tool : ToolDefinition W) (plain : IsPlainCall tool) where
    check_as-plain :
        (e : ToolRuntimeEngine) (rt : ToolRuntime)
        → e ≡ enhanced
        → truthy (scope_of engine params) ≡ some key
        → check_as engine params e rt name_of tool
          ≡ after_detection engine params (detection_of engine params rt name_of (some key))
    check_as-plain legacy rt h k = cc
    check_as-plain enhanced rt h k = rw (plain.complete, k)

    execute-plain :
        (rt : ToolRuntime) (w : W)
        → CanBrake key rt.config
        → execute engine params rt w
          ≡ run_checked engine params rt name_of tool w
              (after_detection engine params (detection_of engine params rt name_of (some key)))
    unfolding execute check_call
    execute-plain rt w can =
        ap (run_resolved engine params rt name_of w) plain.known
        ∙ ap (run_checked engine params rt name_of tool w)
            (check_as-plain rt.config.engine rt can.is_enhanced can.scope)

    -- A call that is found critical is refused.
    pub critical-Halts :
        (rt : ToolRuntime) (w : W) (found : LoopDetectionOutcome)
        → CanBrake key rt.config
        → detection_of engine params rt name_of (some key) ≡ some found
        → found.level ≡ critical
        → Halts rt w
    critical-Halts rt w found can e level =
        rw (execute-plain rt w can, e, level)
          (record { runtime = refl; world = refl; execution = (_, refl, refl) })

    record-streak :
        (rt : ToolRuntime) (result : ToolResult)
        → CanBrake key rt.config
        → streak key (record_tool_outcome engine key name_of (args_of engine params) result rt)
          ≡ min (capacity rt.config) (suc (streak key rt))
    unfolding record_tool_outcome
    record-streak rt result can =
        ap (λ h. get_repeat_streak h (hash_tool_call engine name_of (args_of engine params)))
          (get_history-set_self key _ rt.history_by_scope)
        ∙ get_repeat_streak-slice_last (capacity rt.config) _ _ can.some_room
        ∙ ap (min (capacity rt.config))
            (get_repeat_streak-snoc (get_history key rt.history_by_scope) _ _ refl)

    -- What a call that is let through leaves.
    pub record Progress (rt rt' : ToolRuntime) : Type 0 where
      pub config : rt'.config ≡ rt.config
      pub longer : streak key rt' ≡ min (capacity rt.config) (suc (streak key rt))

    record-Progress :
        (rt : ToolRuntime) (result : ToolResult)
        → CanBrake key rt.config
        → Progress rt (record_tool_outcome engine key name_of (args_of engine params) result rt)
    unfolding record_tool_outcome
    record-Progress rt result can = record { config = refl; longer = record-streak rt result can }

    finish-Progress :
        (rt : ToolRuntime) (warnings : List Text) (raw : Value)
        → CanBrake key rt.config
        → Progress rt (finish engine params rt name_of warnings raw).0
    unfolding finish
    finish-Progress rt warnings raw can = by_engine rt.config.engine can.is_enhanced _
      where
        by_engine :
            (e : ToolRuntimeEngine)
            → e ≡ enhanced
            → (result : ToolResult) → Progress rt (finish_as engine params e rt name_of result).0
        by_engine legacy h result = cc
        by_engine enhanced h result = rw can.scope (record-Progress rt _ can)

    run_tool-settles :
        (rt : ToolRuntime) (w : W)
        → (v : Value) × ((run_tool engine params rt name_of tool w).1 ≡ some v)
    unfolding run_tool
    run_tool-settles rt w = by_signal params.abort_signal plain.signal
      where
        settled : (o : Option Value) → o ≢ none → (v : Value) × (o ≡ some v)
        settled none h = absurd (h refl)
        settled (some v) h = (v, refl)

        by_signal :
            (signal : AbortSignal)
            → signal ≡ quiet
            → (v : Value) × ((run_under engine params signal rt name_of tool w).1 ≡ some v)
        by_signal quiet h =
            settled _
              (plain.settles w (context_of engine params rt name_of (scope_of engine params)))
        by_signal _ h = cc

    go-Progress :
        (rt : ToolRuntime) (w : W) (warnings : List Text)
        → CanBrake key rt.config
        → Progress rt (run_checked engine params rt name_of tool w (go warnings)).0
    go-Progress rt w warnings can =
        let (v, e) = run_tool-settles rt w in ran (run_tool engine params rt name_of tool w) e
      where
        ran :
            (r : W × Option Value) {v : Value}
            → r.1 ≡ some v
            → Progress rt (finish_raw engine params rt name_of warnings r).0
        ran (w', none) h = cc
        ran (w', some raw) h = finish-Progress rt warnings raw can

    -- Each call is refused, or lets the streak grow.
    pub execute_step :
        (rt : ToolRuntime) (w : W)
        → CanBrake key rt.config
        → Halts rt w ⊎ Progress rt (execute engine params rt w).0
    execute_step rt w can = by_detection (detection_of engine params rt name_of (some key)) refl
      where
        by_detection :
            (o : Option LoopDetectionOutcome)
            → detection_of engine params rt name_of (some key) ≡ o
            → Halts rt w ⊎ Progress rt (execute engine params rt w).0
        by_detection none e = inr (rw (execute-plain rt w can, e) (go-Progress rt w [] can))
        by_detection (some found) e = by_level found.level refl
          where
            by_level :
                (level : LoopLevel)
                → found.level ≡ level
                → Halts rt w ⊎ Progress rt (execute engine params rt w).0
            by_level critical h = inl (critical-Halts rt w found can e h)
            by_level warning h =
                inr (rw (execute-plain rt w can, e, h) (go-Progress rt w (found.message ∷ []) can))
