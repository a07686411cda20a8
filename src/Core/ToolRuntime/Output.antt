-- ===== src/Core/ToolRuntime/Output.antt =====
-- How long the output of a call can be.
use cere_worker.Prelude.{
  ℕ, ◌-◌, ◌≤◌, ◌≡◌, refl, Text, truthy, true, Option, none, some, List, [], ◌∷◌, ◌⊎◌, inl, inr,
  arith, leb, leb→le, length, take, Bool-cases, length-append, length-take,
}
use cere_worker.Core.ToolRuntime.Values.{Value, Engine, get_missing_required_parameters}
use cere_worker.Core.ToolRuntime.Loops.{ToolRuntimeEngine, legacy, enhanced}
use cere_worker.Core.ToolRuntime.Results.{ToolResult, suffix, truncate_tool_result}
use cere_worker.Core.ToolRuntime.Loops.{LoopDetectionOutcome}
use cere_worker.Core.ToolRuntime.Execute.{
  ToolRuntime, ToolDefinition, ExecuteParams, ToolRuntimeExecution, Execution, resolved, Check,
  stop, go, check_call, check_as, check_missing, after_detection, finish, finish_as, finish_raw,
  run_checked, run_resolved, execute, resolve_tool, normalize_tool_name, detection_of, scope_of,
  args_of, reply,
}

truncate-length :
    (result : ToolResult) (n : ℕ)
    → length suffix ≤ n
    → length (truncate_tool_result result n).output ≤ n
unfolding truncate_tool_result
truncate-length result n h = elim (Bool-cases (leb (length result.output) n)) [
  | inl short ↦ rw short (leb→le (length result.output) n short)
  | inr long ↦ rw long (
      omega (
        arith,
        length-append (take (n - length suffix) result.output) suffix,
        length-take (n - length suffix) result.output,
      ))
]

module _ (engine : Engine) {W : Type 0} (params : ExecuteParams W) (rt : ToolRuntime) (w : W) where
  -- The call did not reach the tool, and its result says that it failed.
  pub record IsRefused (r : ToolRuntime × W × Execution) : Type 0 where
    pub runtime : r.0 ≡ rt
    pub world : r.1 ≡ w
    pub execution : (x : ToolRuntimeExecution) × (r.2 ≡ resolved x) × (x.result.is_error ≡ true)

  abbrev pub Fits : Execution → Type 0
  Fits e =
      (x : ToolRuntimeExecution)
      → e ≡ resolved x
      → length x.result.output ≤ rt.config.max_result_chars

  missing_stop :
      (names : List Text) (c : Check engine params)
      → ((result : ToolResult) → c ≡ stop result → result.is_error ≡ true)
      → (result : ToolResult) → check_missing engine params names c ≡ stop result
      → result.is_error ≡ true
  missing_stop [] c h result e = h result e
  missing_stop (name ∷ names) c h result e = ground arith

  detection_stop :
      (o : Option LoopDetectionOutcome) (result : ToolResult)
      → after_detection engine params o ≡ stop result
      → result.is_error ≡ true
  detection_stop none result e = cc
  detection_stop (some found) result e = ground arith

  check_stop :
      (e : ToolRuntimeEngine) (tool_name : Text) (tool : ToolDefinition W) (result : ToolResult)
      → check_as engine params e rt tool_name tool ≡ stop result
      → result.is_error ≡ true
  check_stop legacy tool_name tool result h = cc
  check_stop enhanced tool_name tool result h =
      missing_stop (get_missing_required_parameters tool.parameters (args_of engine params)) _
        (detection_stop (detection_of engine params rt tool_name (truthy (scope_of engine params))))
        result h

  refused :
      (tool_name : Text) (result : ToolResult)
      → result.is_error ≡ true
      → IsRefused (rt, w, reply engine params tool_name result)
  refused tool_name result h = record {
    runtime = refl;
    world = refl;
    execution = (record { tool_name = tool_name; result = result }, refl, h);
  }

  module _ (enhanced_engine : rt.config.engine ≡ enhanced)
      (room : length suffix ≤ rt.config.max_result_chars) where
    finish-Fits :
        (tool_name : Text) (warnings : List Text) (raw : Value)
        → Fits (finish engine params rt tool_name warnings raw).1
    unfolding finish
    finish-Fits tool_name warnings raw = by_engine rt.config.engine enhanced_engine _
      where
        by_engine :
            (e : ToolRuntimeEngine)
            → e ≡ enhanced
            → (result : ToolResult) → Fits (finish_as engine params e rt tool_name result).1
        by_engine legacy h result x same = cc
        by_engine enhanced h result x same =
            let short = truncate-length result rt.config.max_result_chars room in
            let eq : truncate_tool_result result rt.config.max_result_chars ≡ x.result = cc in
            rw (← eq) short

    -- In the enhanced engine, where the limit has room for the note on truncation: either the call
    -- is refused, an error that leaves the runtime and the world as they were, or the output of what
    -- it resolves to is at most as long as `maxResultChars`, warnings included.
    pub execute-output :
        IsRefused (execute engine params rt w) ⊎ Fits (execute engine params rt w).2
    unfolding execute check_call
    execute-output =
        resolved_case (resolve_tool params.tools (normalize_tool_name params.tool_call.name))
      where
        name : Text
        name = normalize_tool_name params.tool_call.name

        ran :
            (warnings : List Text) (r : W × Option Value)
            → Fits (finish_raw engine params rt name warnings r).2
        ran warnings (w', none) = λ x e. cc
        ran warnings (w', some raw) = finish-Fits name warnings raw

        checked :
            (tool : ToolDefinition W) (c : Check engine params)
            → ((result : ToolResult) → c ≡ stop result → result.is_error ≡ true)
            → let r = run_checked engine params rt name tool w c in IsRefused r ⊎ Fits r.2
        checked tool (stop result) h = inl (refused name result (h result refl))
        checked tool (go warnings) h = inr (ran warnings _)

        resolved_case :
            (o : Option (ToolDefinition W))
            → let r = run_resolved engine params rt name w o in IsRefused r ⊎ Fits r.2
        resolved_case none = inl (refused name _ refl)
        resolved_case (some tool) =
            checked tool (check_as engine params rt.config.engine rt name tool)
              (check_stop rt.config.engine name tool)
