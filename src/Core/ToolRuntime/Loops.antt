-- ===== src/Core/ToolRuntime/Loops.antt =====
-- The configuration, and `detectLoopBeforeCall`.
use cere_worker.Prelude.{
  ℕ, zero, suc, ◌+◌, Text, codes, text_eq, show, leb, Bool, true, false, ◌&&◌, Option, none, some,
  List, [], ◌∷◌, ◌++◌, if◌then◌else◌, any, length, slice_last, drop,
}
use cere_worker.Core.ToolRuntime.Values.{Fields, Engine, hash_tool_call, digest_stable, obj}
use cere_worker.Core.ToolRuntime.Streaks.{
  ToolHistoryEntry, get_repeat_streak, get_no_progress_streak, get_ping_pong_streak,
}

pub data ToolRuntimeEngine : Type 0 where
  legacy enhanced : ToolRuntimeEngine

pub data ToolLoopDetectorKind : Type 0 where
  generic_repeat known_poll_no_progress global_circuit_breaker ping_pong : ToolLoopDetectorKind

pub data LoopLevel : Type 0 where
  warning critical : LoopLevel

pub record Detectors : Type 0 where
  pub generic_repeat : Bool
  pub known_poll_no_progress : Bool
  pub ping_pong : Bool

pub record ToolLoopDetectionConfig : Type 0 where
  pub enabled : Bool
  pub history_size : ℕ
  pub warning_threshold : ℕ
  pub critical_threshold : ℕ
  pub global_circuit_breaker_threshold : ℕ
  pub detectors : Detectors

pub record ToolRuntimeConfig : Type 0 where
  pub engine : ToolRuntimeEngine
  pub max_result_chars : ℕ
  pub loop_detection : ToolLoopDetectionConfig

pub record LoopDetectionOutcome : Type 0 where
  pub level : LoopLevel
  pub detector : ToolLoopDetectorKind
  pub count : ℕ
  pub message : Text

abbrev pub known_poll_tools : List Text
known_poll_tools = codes "query_agents" ∷ codes "browserWait" ∷ []

abbrev pub default_loop_detection : ToolLoopDetectionConfig
default_loop_detection = record {
  enabled = false;
  history_size = 30;
  warning_threshold = 10;
  critical_threshold = 20;
  global_circuit_breaker_threshold = 30;
  detectors = record { generic_repeat = true; known_poll_no_progress = true; ping_pong = true };
}

abbrev pub default_tool_runtime_config : ToolRuntimeConfig
default_tool_runtime_config = record {
  engine = enhanced;
  max_result_chars = 20000;
  loop_detection = default_loop_detection;
}

-- `slice(-(threshold - 1))`: for a threshold of 0 that is `slice(1)`.
abbrev pub recent_of : ℕ → List ToolHistoryEntry → List ToolHistoryEntry
recent_of zero history = drop 1 history
recent_of (suc n) history = slice_last n history

-- The entries of a `Set` of texts, each once.
unfoldable pub add_to_set : Text → List Text → List Text
unfolding any text_eq
add_to_set s set = if any (λ x. text_eq x s) set then set else set ++ s ∷ []

unfoldable pub distinct_signatures : List Text → List ToolHistoryEntry → List Text
unfolding add_to_set
distinct_signatures set [] = set
distinct_signatures set (e ∷ es) = distinct_signatures (add_to_set e.signature set) es

abbrev pub outcome : LoopLevel → ToolLoopDetectorKind → ℕ → Text → LoopDetectionOutcome
outcome level detector count message = record {
  level = level;
  detector = detector;
  count = count;
  message = message;
}

unfoldable pub check_repeat : ToolLoopDetectionConfig → Text → ℕ → Option LoopDetectionOutcome
unfolding show
check_repeat config tool_name n =
    if leb config.critical_threshold n
    then some (
        outcome critical generic_repeat n (
          codes "Critical tool loop detected for "
          ++ tool_name
          ++ codes " ("
          ++ show n
          ++ codes " repeated calls). Stop retrying and report the failure."))
    else if leb config.warning_threshold n
    then some (
        outcome warning generic_repeat n (
          codes "Repeated tool calls detected for "
          ++ tool_name
          ++ codes " ("
          ++ show n
          ++ codes " calls). Try a different approach."))
    else none

unfoldable pub check_poll : ToolLoopDetectionConfig → Text → ℕ → Option LoopDetectionOutcome
unfolding show
check_poll config tool_name n =
    if leb config.critical_threshold n
    then some (
        outcome critical known_poll_no_progress n (
          codes "Polling loop detected for "
          ++ tool_name
          ++ codes " with no progress ("
          ++ show n
          ++ codes " identical outcomes)."))
    else if leb config.warning_threshold n
    then some (
        outcome warning known_poll_no_progress n (
          codes "Repeated polling for "
          ++ tool_name
          ++ codes " is returning the same result ("
          ++ show n
          ++ codes " times)."))
    else none

unfoldable pub check_ping_pong : ToolLoopDetectionConfig → Text → ℕ → Option LoopDetectionOutcome
unfolding show
check_ping_pong config tool_name n =
    if leb config.critical_threshold n
    then some (
        outcome critical ping_pong n (
          codes "Critical ping-pong loop detected involving "
          ++ tool_name
          ++ codes " ("
          ++ show n
          ++ codes " alternating calls)."))
    else if leb config.warning_threshold n
    then some (
        outcome warning ping_pong n (
          codes "Alternating tool-call pattern detected around "
          ++ tool_name
          ++ codes " ("
          ++ show n
          ++ codes " turns)."))
    else none

unfoldable pub check_breaker :
    ToolLoopDetectionConfig → Text → List ToolHistoryEntry → Option LoopDetectionOutcome
unfolding show distinct_signatures add_to_set
check_breaker config signature history =
    let recent = recent_of config.global_circuit_breaker_threshold history in
    let calls = length recent + 1 in
    if leb config.global_circuit_breaker_threshold calls
      && leb (length (add_to_set signature (distinct_signatures [] recent))) 2
    then some (
        outcome critical global_circuit_breaker calls (
          codes "Global tool loop circuit breaker tripped after "
          ++ show calls
          ++ codes " calls with no meaningful variation."))
    else none

-- A detector that is off finds nothing, and the next one is asked.
abbrev pub when : Bool → Option LoopDetectionOutcome → Option LoopDetectionOutcome
when true found = found
when false found = none

abbrev pub or_next :
    Option LoopDetectionOutcome → Option LoopDetectionOutcome → Option LoopDetectionOutcome
or_next (some found) next = some found
or_next none next = next

unfoldable pub is_known_poll : Text → Bool
unfolding any text_eq
is_known_poll tool_name = any (λ t. text_eq t tool_name) known_poll_tools

-- The detectors in their order, over the signature and the digest of the call.
unfoldable pub detect :
    ToolLoopDetectionConfig
    → List ToolHistoryEntry
    → Text
    → Text
    → Text
    → Option LoopDetectionOutcome
detect config history tool_name signature args_hash =
    or_next
      (when config.detectors.generic_repeat
        (check_repeat config tool_name (get_repeat_streak history signature + 1)))
      (or_next
        (when (config.detectors.known_poll_no_progress && is_known_poll tool_name)
          (check_poll config tool_name (get_no_progress_streak history tool_name args_hash)))
        (or_next
          (when config.detectors.ping_pong
            (check_ping_pong config tool_name (get_ping_pong_streak history signature + 1)))
          (check_breaker config signature history)))

unfoldable pub detect_loop_before_call :
    Engine
    → List ToolHistoryEntry
    → Text
    → Fields
    → ToolLoopDetectionConfig
    → Option LoopDetectionOutcome
unfolding detect
detect_loop_before_call engine history tool_name args config =
    if config.enabled
    then detect config history tool_name (hash_tool_call engine tool_name args)
        (digest_stable engine (obj args))
    else none
