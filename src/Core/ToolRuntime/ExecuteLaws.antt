-- ===== src/Core/ToolRuntime/ExecuteLaws.antt =====
-- What `execute` keeps and what it promises.
use cere_worker.Prelude.{
  ℕ, ◌≤◌, ◌<◌, Text, text_eq, truthy, Option, none, some, List, [], ◌∷◌, length, max, All,
  Bool-cases, inl, inr, length-slice_last,
}
use cere_worker.Core.ToolRuntime.Values.{Value, Fields, Engine}
use cere_worker.Core.ToolRuntime.Streaks.{ToolHistoryEntry}
use cere_worker.Core.ToolRuntime.Loops.{ToolRuntimeEngine, legacy, enhanced, ToolRuntimeConfig}
use cere_worker.Core.ToolRuntime.Results.{ToolResult}
use cere_worker.Core.ToolRuntime.Execute.{
  ToolRuntime, ToolDefinition, ExecuteParams, Histories, set_history, record_tool_outcome, Check,
  stop, go, finish, finish_as, finish_raw, run_checked, run_resolved, execute, resolve_tool,
  normalize_tool_name, record_in, scope_of,
}

-- How many entries a scope may hold.
abbrev pub capacity : ToolRuntimeConfig → ℕ
capacity config =
    max config.loop_detection.history_size config.loop_detection.global_circuit_breaker_threshold

pub record IsBounded (rt : ToolRuntime) : Type 0 where
  pub room : 0 < capacity rt.config
  pub bounded : All (λ p. length p.1 ≤ capacity rt.config) rt.history_by_scope

All-set_history :
    (P : Text × List ToolHistoryEntry → Type 0) (key : Text) (h : List ToolHistoryEntry)
    (m : Histories)
    → ((k : Text) → P (k, h))
    → All P m
    → All P (set_history key h m)
unfolding set_history
All-set_history P key h [] p a = (p key, tt)
All-set_history P key h ((k, v) ∷ m) p (q, a) = elim (Bool-cases (text_eq k key)) [
  | inl e ↦ rw e (p k, a)
  | inr e ↦ rw e (q, All-set_history P key h m p a)
]

module _ (engine : Engine) where
  record-IsBounded :
      (scope tool_name : Text) (args : Fields) (result : ToolResult) (rt : ToolRuntime)
      → IsBounded rt
      → IsBounded (record_tool_outcome engine scope tool_name args result rt)
  unfolding record_tool_outcome
  record-IsBounded scope tool_name args result rt b = record {
    room = b.room;
    bounded =
        All-set_history (λ p. length p.1 ≤ capacity rt.config) scope _ rt.history_by_scope
          (λ k. length-slice_last (capacity rt.config) _ b.room) b.bounded;
  }

  module _ {W : Type 0} (params : ExecuteParams W) where
    record_in-IsBounded :
        (rt : ToolRuntime) (tool_name : Text) (scope : Option Text) (result : ToolResult)
        → IsBounded rt
        → IsBounded (record_in engine params rt tool_name scope result)
    record_in-IsBounded rt tool_name none result b = b
    record_in-IsBounded rt tool_name (some scope) result b =
        record-IsBounded scope tool_name _ result rt b

    finish-IsBounded :
        (rt : ToolRuntime) (tool_name : Text) (warnings : List Text) (raw : Value)
        → IsBounded rt
        → IsBounded (finish engine params rt tool_name warnings raw).0
    unfolding finish
    finish-IsBounded rt tool_name warnings raw b = by_engine rt.config.engine _
      where
        by_engine :
            (e : ToolRuntimeEngine) (result : ToolResult)
            → IsBounded (finish_as engine params e rt tool_name result).0
        by_engine legacy result = b
        by_engine enhanced result =
            record_in-IsBounded rt tool_name (truthy (scope_of engine params)) _ b

    -- A call keeps every scope's history within the larger of the two sizes of the configuration,
    -- if that is not 0.
    pub execute-IsBounded :
        (rt : ToolRuntime) (w : W) → IsBounded rt → IsBounded (execute engine params rt w).0
    unfolding execute
    execute-IsBounded rt w b =
        resolved_case (resolve_tool params.tools (normalize_tool_name params.tool_call.name))
      where
        ran :
            (tool_name : Text) (warnings : List Text) (r : W × Option Value)
            → IsBounded (finish_raw engine params rt tool_name warnings r).0
        ran tool_name warnings (w', none) = b
        ran tool_name warnings (w', some raw) = finish-IsBounded rt tool_name warnings raw b

        checked :
            (tool_name : Text) (tool : ToolDefinition W) (c : Check engine params)
            → IsBounded (run_checked engine params rt tool_name tool w c).0
        checked tool_name tool (stop result) = b
        checked tool_name tool (go warnings) = ran tool_name warnings _

        resolved_case :
            (o : Option (ToolDefinition W))
            → IsBounded
                (run_resolved engine params rt (normalize_tool_name params.tool_call.name) w o).0
        resolved_case none = b
        resolved_case (some tool) = checked _ tool _
