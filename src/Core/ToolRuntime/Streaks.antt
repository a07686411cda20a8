-- ===== src/Core/ToolRuntime/Streaks.antt =====
-- The history of a scope, and the streaks that are counted from its end. A loop from the last index
-- down is a recursion on the reversed history.
use mathlib.Core.List.{reverse}
use cere_worker.Prelude.{
  ℕ, suc, ◌+◌, Text, text_eq, Bool, ◌&&◌, Option, none, some, List, [], ◌∷◌, if◌then◌else◌, truthy,
}

pub record ToolHistoryEntry : Type 0 where
  pub signature : Text
  pub tool_name : Text
  pub args_hash : Text
  pub result_hash : Option Text

unfoldable pub repeat_from : Text → List ToolHistoryEntry → ℕ
unfolding text_eq
repeat_from signature [] = 0
repeat_from signature (e ∷ es) =
    if text_eq e.signature signature then suc (repeat_from signature es) else 0

unfoldable pub get_repeat_streak : List ToolHistoryEntry → Text → ℕ
unfolding repeat_from
get_repeat_streak history signature = repeat_from signature (reverse history)

-- One round of the polling streak for an entry of another call: `continue`.
abbrev pub is_poll : Text → Text → ToolHistoryEntry → Bool
is_poll tool_name args_hash e = text_eq e.tool_name tool_name && text_eq e.args_hash args_hash

-- The loop with `expectedResultHash` and `count`; a hash that is absent or empty is passed over.
unfoldable pub no_progress_from : Text → Text → Option Text → ℕ → List ToolHistoryEntry → ℕ
unfolding text_eq
no_progress_from tool_name args_hash expected count [] = count
no_progress_from tool_name args_hash expected count (e ∷ es) =
    let skip = no_progress_from tool_name args_hash expected count es in
    let start = λ (h : Text). no_progress_from tool_name args_hash (some h) 1 es in
    let more = no_progress_from tool_name args_hash expected (count + 1) es in
    if is_poll tool_name args_hash e
    then elim (truthy e.result_hash) [
      | none ↦ skip
      | some hash ↦ elim (truthy expected) [
        | none ↦ start hash
        | some wanted ↦ if text_eq hash wanted then more else count
      ]
    ]
    else skip

unfoldable pub get_no_progress_streak : List ToolHistoryEntry → Text → Text → ℕ
unfolding no_progress_from
get_no_progress_streak history tool_name args_hash =
    no_progress_from tool_name args_hash none 0 (reverse history)

-- `expected` alternates between `last` and `current`.
unfoldable pub ping_pong_from : Text → Text → Text → List ToolHistoryEntry → ℕ
unfolding text_eq
ping_pong_from last current expected [] = 0
ping_pong_from last current expected (e ∷ es) =
    if text_eq e.signature expected
    then suc (ping_pong_from last current (if text_eq expected last then current else last) es)
    else 0

abbrev pub ping_pong_of : Text → List ToolHistoryEntry → ℕ
ping_pong_of current [] = 0
ping_pong_of current (last ∷ es) =
    if text_eq last.signature current
    then 0
    else ping_pong_from last.signature current last.signature (last ∷ es)

unfoldable pub get_ping_pong_streak : List ToolHistoryEntry → Text → ℕ
unfolding ping_pong_from text_eq
get_ping_pong_streak history current_signature = ping_pong_of current_signature (reverse history)
