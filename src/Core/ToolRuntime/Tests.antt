-- ===== src/Core/ToolRuntime/Tests.antt =====
-- Runs of the tool runtime, and its theorems at a concrete tool.
use mathlib.Core.List.{reverse}
use cere_worker.Prelude.{
  ℕ, ◌+◌, ◌≡◌, ◌⊎◌, refl, Text, codes, true, false, none, some, [], ◌∷◌, arith, length,
}
use cere_worker.Core.ToolRuntime.Values.{
  str, bool, obj, Fields, end, field, Engine, get_missing_required_parameters,
}
use cere_worker.Core.ToolRuntime.Streaks.{ToolHistoryEntry, get_no_progress_streak}
use cere_worker.Core.ToolRuntime.Loops.{
  ToolRuntimeConfig, default_loop_detection, default_tool_runtime_config,
}
use cere_worker.Core.ToolRuntime.Results.{suffix}
use cere_worker.Core.ToolRuntime.Execute.{
  ToolRuntime, ToolDefinition, ExecuteParams, returned, quiet, execute, resolve_tool,
  normalize_tool_name,
}
use cere_worker.Core.ToolRuntime.StreakLaws.{get_no_progress_streak_exact, leading, hashes_of}
use cere_worker.Core.ToolRuntime.ExecuteLaws.{IsBounded, execute-IsBounded}
use cere_worker.Core.ToolRuntime.Output.{IsRefused, Fits, execute-output}
use cere_worker.Core.ToolRuntime.Brake.{CanBrake, IsPlainCall}
use cere_worker.Core.ToolRuntime.Halting.{execute_times, execute_times-IsRefused}

abbrev engine : Engine
engine = record {
  json = λ v. codes "v";
  json_pretty = λ v. codes "v";
  to_string = λ v. codes "v";
  goes_behind = λ a b. false;
  sha256_hex = λ t. t;
}

-- A tool that counts its calls in the world.
abbrev counter : ToolDefinition ℕ
counter = record {
  parameters = obj (field (codes "query") (obj (field (codes "required") (bool true) end)) end);
  execute = λ args c w. (w + 1, returned (str (codes "done")));
}

abbrev args : Fields
args = field (codes "query") (str (codes "x")) end

abbrev params : ExecuteParams ℕ
params = record {
  tool_call = record { id = codes "1"; name = codes " search "; args = obj args };
  tools = (codes "search", counter) ∷ [];
  conversation_id = some (codes "c");
  session_key = none;
  scope_key = none;
  turn_id = none;
  attempt = none;
  ingress = none;
  abort_signal = quiet;
}

abbrev config : ToolRuntimeConfig
config = record default_tool_runtime_config {
  loop_detection = record default_loop_detection {
    enabled = true;
    warning_threshold = 2;
    critical_threshold = 3;
  };
}

abbrev runtime : ToolRuntime
runtime = record { config = config; history_by_scope = [] }

suffix-length : length suffix ≡ 56
suffix-length = refl

runtime-CanBrake : CanBrake engine params (codes "c") config
runtime-CanBrake = record {
  is_enhanced = refl;
  enabled = refl;
  repeats = refl;
  room = omega arith;
  some_room = omega arith;
  scope = refl;
}

params-IsPlainCall : IsPlainCall engine params counter
unfolding resolve_tool normalize_tool_name get_missing_required_parameters
params-IsPlainCall = record { known = refl; complete = refl; signal = refl; settles = λ w c e. cc }

execute_times-IsRefused_example :
    let (rt, w) = execute_times engine params 2 runtime 0 in
    IsRefused engine params rt w (execute engine params rt w)
execute_times-IsRefused_example =
    execute_times-IsRefused engine params (codes "c") counter params-IsPlainCall 2 runtime 0
      runtime-CanBrake (omega arith)

execute-IsBounded_example : IsBounded (execute engine params runtime 0).0
execute-IsBounded_example =
    execute-IsBounded engine params runtime 0 (record { room = omega arith; bounded = tt })

execute-output_example :
    IsRefused engine params runtime 0 (execute engine params runtime 0)
    ⊎ Fits engine params runtime 0 (execute engine params runtime 0).2
execute-output_example = execute-output engine params runtime 0 refl (omega arith)

abbrev entry : Text → ToolHistoryEntry
entry signature = record {
  signature = signature;
  tool_name = codes "t";
  args_hash = codes "a";
  result_hash = some (codes "r");
}

get_no_progress_streak_exact_example :
    get_no_progress_streak (entry (codes "x") ∷ entry (codes "y") ∷ []) (codes "t") (codes "a")
    ≡ leading
        (hashes_of (codes "t") (codes "a") (reverse (entry (codes "x") ∷ entry (codes "y") ∷ [])))
get_no_progress_streak_exact_example =
    get_no_progress_streak_exact (entry (codes "x") ∷ entry (codes "y") ∷ []) (codes "t")
      (codes "a")

abbrev same_call : ToolHistoryEntry
same_call = record {
  signature = codes "search:{v:v}";
  tool_name = codes "search";
  args_hash = codes "{v:v}";
  result_hash = none;
}
