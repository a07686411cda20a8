-- ===== src/Core/ToolRuntime/Execute.antt =====
-- `ToolRuntime.execute`. A tool acts on a world `W` that the runtime does not look into; the history
-- of each scope is the state of the runtime.
use cere_worker.Prelude.{
  ℕ, Text, codes, text_eq, show, trim, or_else, truthy, true, Option, none, some, List, [], ◌∷◌,
  ◌++◌, if◌then◌else◌, slice_last, max,
}
use cere_worker.Core.ToolRuntime.Values.{
  Value, str, num, obj, bool, Fields, end, field, Engine, get_missing_required_parameters,
  format_missing_parameter_error, hash_tool_call, digest_stable, null,
}
use cere_worker.Core.ToolRuntime.Streaks.{ToolHistoryEntry}
use cere_worker.Core.ToolRuntime.Loops.{
  ToolRuntimeEngine, legacy, enhanced, ToolLoopDetectorKind, generic_repeat, known_poll_no_progress,
  global_circuit_breaker, ping_pong, LoopLevel, warning, critical, ToolRuntimeConfig,
  LoopDetectionOutcome, detect_loop_before_call,
}
use cere_worker.Core.ToolRuntime.Results.{
  ToolResult, plain_object, or_empty, text_result, normalize_tool_execution_result, append_warnings,
  truncate_tool_result,
}

pub record ToolCall : Type 0 where
  pub id : Text
  pub name : Text
  pub args : Value

pub record Ingress : Type 0 where
  pub channel_id : Option Text
  pub route_to : Option Text
  pub sender_id : Option Text
  pub sender_name : Option Text
  pub session_id : Option Text
  pub thread_id : Option Text
  pub reply_to_id : Option Text
  pub timestamp : Option ℕ

-- How the abort signal stands: not given or not raised, raised before the tool is called, or raised
-- while it runs, which `raceWithAbort` turns into a rejection.
pub data AbortSignal : Type 0 where
  quiet aborted_before aborted_during : AbortSignal

pub record ToolExecutionContext : Type 0 where
  pub call_id : Text
  pub tool_name : Text
  pub conversation_id : Option Text
  pub session_key : Option Text
  pub scope_key : Option Text
  pub turn_id : Option Text
  pub attempt : Option ℕ
  pub ingress : Option Ingress
  pub runtime_engine : ToolRuntimeEngine
  pub abort_signal : AbortSignal

-- What the promise of a tool comes to: a value, an AbortError, or another error with its message.
pub data ToolOutcome : Type 0 where
  returned : Value → ToolOutcome
  abort_error : ToolOutcome
  failed : Text → ToolOutcome

pub record ToolDefinition (W : Type 0) : Type 0 where
  pub parameters : Value
  pub execute : Fields → ToolExecutionContext → W → W × ToolOutcome

pub record ExecuteParams (W : Type 0) : Type 0 where
  pub tool_call : ToolCall
  pub tools : List (Text × ToolDefinition W)
  pub conversation_id : Option Text
  pub session_key : Option Text
  pub scope_key : Option Text
  pub turn_id : Option Text
  pub attempt : Option ℕ
  pub ingress : Option Ingress
  pub abort_signal : AbortSignal

pub record ToolRuntimeExecution : Type 0 where
  pub tool_name : Text
  pub result : ToolResult

-- `execute` resolves, or throws the AbortError on.
pub data Execution : Type 0 where
  resolved : ToolRuntimeExecution → Execution
  aborted : Execution

abbrev pub Histories : Type 0
Histories = List (Text × List ToolHistoryEntry)

pub record ToolRuntime : Type 0 where
  pub config : ToolRuntimeConfig
  pub history_by_scope : Histories

-- `Map.get(key) ?? []` and `Map.set(key, value)`.
unfoldable pub get_history : Text → Histories → List ToolHistoryEntry
unfolding text_eq
get_history key [] = []
get_history key ((k, h) ∷ m) = if text_eq k key then h else get_history key m

unfoldable pub set_history : Text → List ToolHistoryEntry → Histories → Histories
unfolding text_eq
set_history key value [] = (key, value) ∷ []
set_history key value ((k, h) ∷ m) =
    if text_eq k key then (k, value) ∷ m else (k, h) ∷ set_history key value m

unfoldable pub resolve_tool :
    {W : Type 0} → List (Text × ToolDefinition W) → Text → Option (ToolDefinition W)
unfolding text_eq
resolve_tool [] name = none
resolve_tool ((k, tool) ∷ tools) name =
    if text_eq k name then some tool else resolve_tool tools name

unfoldable pub normalize_tool_name : Text → Text
unfolding trim
normalize_tool_name name = trim name

abbrev pub level_text : LoopLevel → Text
level_text warning = codes "warning"
level_text critical = codes "critical"

abbrev pub detector_text : ToolLoopDetectorKind → Text
detector_text generic_repeat = codes "generic_repeat"
detector_text known_poll_no_progress = codes "known_poll_no_progress"
detector_text global_circuit_breaker = codes "global_circuit_breaker"
detector_text ping_pong = codes "ping_pong"

abbrev pub or_name : Text → Text → Text
or_name [] name = name
or_name (c ∷ s) name = c ∷ s

abbrev pub error_result : Text → Text → Option Fields → Option (List Text) → ToolResult
error_result call_id output metadata warnings = record (text_result call_id output metadata) {
  is_error = true;
  warnings = warnings;
}

module _ (engine : Engine) where
  -- `hashToolOutcome`
  unfoldable pub hash_tool_outcome : ToolResult → Text
  unfolding digest_stable
  hash_tool_outcome result = digest_stable engine (
      obj (
        field (codes "output") (str result.output) (
          field (codes "isError") (bool result.is_error) (
            field (codes "details") (elim result.details [ none ↦ null | some fs ↦ obj fs ]) end))))

  unfoldable pub record_tool_outcome : Text → Text → Fields → ToolResult → ToolRuntime → ToolRuntime
  unfolding get_history set_history hash_tool_outcome hash_tool_call digest_stable
  record_tool_outcome scope_key tool_name args result rt =
      let history = get_history scope_key rt.history_by_scope in
      let next : List ToolHistoryEntry =
        history
        ++ record {
          signature = hash_tool_call engine tool_name args;
          tool_name = tool_name;
          args_hash = digest_stable engine (obj args);
          result_hash = some (hash_tool_outcome result);
        }
          ∷ [] in
      let detection = rt.config.loop_detection in
      let max_size = max detection.history_size detection.global_circuit_breaker_threshold in
      record rt {
        history_by_scope = set_history scope_key (slice_last max_size next) rt.history_by_scope;
      }

  module _ {W : Type 0} (params : ExecuteParams W) where
    open params use {tool_call}

    abbrev pub context_of : ToolRuntime → Text → Option Text → ToolExecutionContext
    context_of rt tool_name scope = record {
      call_id = tool_call.id;
      tool_name = tool_name;
      conversation_id = params.conversation_id;
      session_key = params.session_key;
      scope_key = scope;
      turn_id = params.turn_id;
      attempt = params.attempt;
      ingress = params.ingress;
      runtime_engine = rt.config.engine;
      abort_signal = params.abort_signal;
    }

    abbrev pub scope_of : Option Text
    scope_of = or_else params.scope_key (or_else params.conversation_id params.session_key)

    abbrev pub args_of : Fields
    args_of = or_empty (plain_object tool_call.args)

    abbrev pub reply : Text → ToolResult → Execution
    reply tool_name result = resolved (record { tool_name = tool_name; result = result })

    -- The steps before the call, of the enhanced engine: the reply that stops it, or the warnings.
    pub data Check : Type 0 where
      stop : ToolResult → Check
      go : List Text → Check

    abbrev pub after_detection : Option LoopDetectionOutcome → Check
    after_detection none = go []
    after_detection (some found) = elim found.level [
      | warning ↦ go (found.message ∷ [])
      | critical ↦ stop (
          error_result tool_call.id found.message
            (some (
              field (codes "loopDetection")
                (obj (
                  field (codes "detector") (str (detector_text found.detector)) (
                    field (codes "count") (num (show found.count))
                      (field (codes "level") (str (level_text found.level)) end))))
                end))
            (some (found.message ∷ [])))
    ]

    unfoldable pub detection_of : ToolRuntime → Text → Option Text → Option LoopDetectionOutcome
    detection_of rt tool_name none = none
    detection_of rt tool_name (some scope) =
        detect_loop_before_call engine (get_history scope rt.history_by_scope) tool_name args_of
          rt.config.loop_detection

    abbrev pub check_missing : List Text → Check → Check
    check_missing [] next = next
    check_missing (name ∷ names) next =
        stop (error_result tool_call.id (format_missing_parameter_error (name ∷ names)) none none)

    abbrev pub check_as : ToolRuntimeEngine → ToolRuntime → Text → ToolDefinition W → Check
    check_as legacy rt tool_name tool = go []
    check_as enhanced rt tool_name tool =
        check_missing (get_missing_required_parameters tool.parameters args_of)
          (after_detection (detection_of rt tool_name (truthy scope_of)))

    unfoldable pub check_call : ToolRuntime → Text → ToolDefinition W → Check
    check_call rt tool_name tool = check_as rt.config.engine rt tool_name tool

    -- The raw result, or `none` where an AbortError is thrown on.
    abbrev pub raw_of : ToolOutcome → Option Value
    raw_of (returned v) = some v
    raw_of abort_error = none
    raw_of (failed message) = some (
        obj (
          field (codes "output") (str message) (
            field (codes "isError") (bool true)
              (field (codes "metadata") (obj (field (codes "runtimeError") (bool true) end)) end))))

    -- The `try` block: the world after it, and the raw result.
    abbrev pub run_under :
        AbortSignal → ToolRuntime → Text → ToolDefinition W → W → W × Option Value
    run_under aborted_before rt tool_name tool w = (w, none)
    run_under aborted_during rt tool_name tool w =
        ((tool.execute args_of (context_of rt tool_name scope_of) w).0, none)
    run_under quiet rt tool_name tool w =
        let (w', out) = tool.execute args_of (context_of rt tool_name scope_of) w in
        (w', raw_of out)

    -- The `try` block: the world after it, and the raw result.
    unfoldable pub run_tool : ToolRuntime → Text → ToolDefinition W → W → W × Option Value
    run_tool rt tool_name tool w = run_under params.abort_signal rt tool_name tool w

    abbrev pub with_warnings : List Text → ToolResult → ToolResult
    with_warnings [] result = result
    with_warnings (x ∷ xs) result = append_warnings result (x ∷ xs)

    abbrev pub record_in : ToolRuntime → Text → Option Text → ToolResult → ToolRuntime
    record_in rt tool_name none result = rt
    record_in rt tool_name (some scope) result =
        record_tool_outcome scope tool_name args_of result rt

    abbrev pub finish_as :
        ToolRuntimeEngine → ToolRuntime → Text → ToolResult → ToolRuntime × Execution
    finish_as legacy rt tool_name result = (rt, reply tool_name result)
    finish_as enhanced rt tool_name result =
        let short = truncate_tool_result result rt.config.max_result_chars in
        (record_in rt tool_name (truthy scope_of) short, reply tool_name short)

    -- The steps after the call.
    unfoldable pub finish : ToolRuntime → Text → List Text → Value → ToolRuntime × Execution
    finish rt tool_name warnings raw = finish_as rt.config.engine rt tool_name (
        with_warnings warnings
          (normalize_tool_execution_result engine tool_call.id tool_name tool_call.name raw))

    abbrev pub finish_raw :
        ToolRuntime → Text → List Text → W × Option Value → ToolRuntime × W × Execution
    finish_raw rt tool_name warnings (w, none) = (rt, w, aborted)
    finish_raw rt tool_name warnings (w, some raw) =
        let (rt', e) = finish rt tool_name warnings raw in (rt', w, e)

    abbrev pub run_checked :
        ToolRuntime → Text → ToolDefinition W → W → Check → ToolRuntime × W × Execution
    run_checked rt tool_name tool w (stop result) = (rt, w, reply tool_name result)
    run_checked rt tool_name tool w (go warnings) =
        finish_raw rt tool_name warnings (run_tool rt tool_name tool w)

    abbrev pub unknown_tool : Text → ToolResult
    unknown_tool tool_name =
        error_result tool_call.id (codes "Unknown tool: " ++ or_name tool_name tool_call.name)
          (some (field (codes "requestedToolName") (str tool_call.name) end)) none

    abbrev pub run_resolved :
        ToolRuntime → Text → W → Option (ToolDefinition W) → ToolRuntime × W × Execution
    run_resolved rt tool_name w none = (rt, w, reply tool_name (unknown_tool tool_name))
    run_resolved rt tool_name w (some tool) =
        run_checked rt tool_name tool w (check_call rt tool_name tool)

    unfoldable pub execute : ToolRuntime → W → ToolRuntime × W × Execution
    execute rt w =
        let tool_name = normalize_tool_name tool_call.name in
        run_resolved rt tool_name w (resolve_tool params.tools tool_name)
