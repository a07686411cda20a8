-- ===== src/Core/ToolRuntime/Results.antt =====
-- What a tool returns, brought into the form of a `ToolResult`.
use cere_worker.Prelude.{
  ℕ, ◌-◌, Text, codes, text_eq, show, trim, join, leb, ltb, Bool, true, false, ◌||◌, Option, none,
  some, List, [], ◌∷◌, ◌++◌, if◌then◌else◌, length, take,
}
use cere_worker.Core.ToolRuntime.Values.{
  Value, undefined, null, num, str, arr, obj, Fields, end, field, elements, get_field, is_true,
  strings_of, Engine,
}

-- A flag that is absent is false.
pub record ToolResult : Type 0 where
  pub call_id : Text
  pub output : Text
  pub is_error : Bool
  pub details : Option Fields
  pub metadata : Option Fields
  pub truncated : Bool
  pub synthetic : Bool
  pub warnings : Option (List Text)

unfoldable pub text_entries : List Value → List Text
unfolding get_field
text_entries [] = []
text_entries (str s ∷ vs) = s ∷ text_entries vs
text_entries (obj fs ∷ vs) = elim (get_field (codes "text") fs) [
  | str s ↦ s ∷ text_entries vs
  | _ ↦ text_entries vs
]
text_entries (_ ∷ vs) = text_entries vs

-- The text of `content`, where that is an array.
unfoldable pub content_text : Value → Text
unfolding text_entries elements join trim
content_text (arr vs) = trim (join (codes "\n") (text_entries (elements vs)))
content_text _ = []

abbrev pub plain_object : Value → Option Fields
plain_object (obj fs) = some fs
plain_object _ = none

abbrev pub string_array : Value → Option (List Text)
string_array (arr vs) = some (strings_of (elements vs))
string_array _ = none

abbrev pub is_text : Text → Value → Bool
is_text s (str t) = text_eq t s
is_text s _ = false

-- `original !== name ? { requestedToolName: original } : undefined`
abbrev pub requested_or_none : Text → Text → Option Fields
requested_or_none original_tool_name tool_name =
    if text_eq original_tool_name tool_name
    then none
    else some (field (codes "requestedToolName") (str original_tool_name) end)

abbrev pub or_empty : Option Fields → Fields
or_empty none = end
or_empty (some fs) = fs

unfoldable pub remove_field : Text → Fields → Fields
unfolding text_eq
remove_field key end = end
remove_field key (field k v fs) =
    if text_eq k key then remove_field key fs else field k v (remove_field key fs)

unfoldable pub has_key : Text → Fields → Bool
unfolding text_eq
has_key key end = false
has_key key (field k v fs) = text_eq k key || has_key key fs

-- `{ ...fields, [key]: value }`
unfoldable pub set_field : Text → Value → Fields → Fields
unfolding text_eq
set_field key value end = field key value end
set_field key value (field k v fs) =
    if text_eq k key then field k value fs else field k v (set_field key value fs)

-- `{ requestedToolName: original, ...metadata }`: a key that `metadata` has again keeps the first
-- place and takes the later value.
abbrev pub spread_metadata : Text → Text → Fields → Fields
spread_metadata original_tool_name tool_name metadata =
    if text_eq original_tool_name tool_name
    then metadata
    else let key = codes "requestedToolName" in
      if has_key key metadata
      then field key (get_field key metadata) (remove_field key metadata)
      else field key (str original_tool_name) metadata

abbrev pub text_result : Text → Text → Option Fields → ToolResult
text_result call_id output metadata = record {
  call_id = call_id;
  output = output;
  is_error = false;
  details = none;
  metadata = metadata;
  truncated = false;
  synthetic = false;
  warnings = none;
}

module _ (engine : Engine) where
  open engine use {json_pretty, to_string}

  abbrev pub details_output : Fields → Value → Text
  details_output result (obj details) = json_pretty (obj details)
  details_output result _ = json_pretty (obj result)

  abbrev pub content_output : Fields → Text → Text
  content_output result (c ∷ text) = c ∷ text
  content_output result [] = details_output result (get_field (codes "details") result)

  abbrev pub output_of : Fields → Value → Text
  output_of result (str output) = output
  output_of result _ = content_output result (content_text (get_field (codes "content") result))

  unfoldable pub resolve_result_output : Fields → Text
  unfolding content_text get_field
  resolve_result_output result = output_of result (get_field (codes "output") result)

  module _ (call_id tool_name original_tool_name : Text) where
    unfoldable pub object_result : Fields → ToolResult
    unfolding resolve_result_output get_field has_key remove_field text_eq strings_of elements
    object_result raw = record {
      call_id = call_id;
      output = resolve_result_output raw;
      is_error =
          is_true (get_field (codes "isError") raw)
          || is_text (codes "error") (get_field (codes "status") raw);
      details = plain_object (get_field (codes "details") raw);
      metadata = some (
          spread_metadata original_tool_name tool_name
            (or_empty (plain_object (get_field (codes "metadata") raw))));
      truncated = is_true (get_field (codes "truncated") raw);
      synthetic = is_true (get_field (codes "synthetic") raw);
      warnings = string_array (get_field (codes "warnings") raw);
    }

    unfoldable pub normalize_tool_execution_result : Value → ToolResult
    unfolding object_result text_eq
    normalize_tool_execution_result (str output) =
        text_result call_id output (requested_or_none original_tool_name tool_name)
    normalize_tool_execution_result (obj raw) = object_result raw
    normalize_tool_execution_result undefined =
        text_result call_id (codes "(no output)") (requested_or_none original_tool_name tool_name)
    normalize_tool_execution_result null =
        text_result call_id (codes "(no output)") (requested_or_none original_tool_name tool_name)
    normalize_tool_execution_result raw =
        text_result call_id (to_string raw) (requested_or_none original_tool_name tool_name)

-- The `reduce` of `appendWarnings`.
unfoldable pub append_lines : Text → List Text → Text
unfolding trim
append_lines output [] = output
append_lines output (w ∷ ws) =
    append_lines
      ((if ltb 0 (length (trim output)) then output ++ codes "\n" else output)
        ++ codes "[CereWorker runtime warning: "
        ++ w
        ++ codes "]")
      ws

abbrev pub or_no_warnings : Option (List Text) → List Text
or_no_warnings none = []
or_no_warnings (some ws) = ws

unfoldable pub append_warnings : ToolResult → List Text → ToolResult
unfolding append_lines
append_warnings result ws = record result {
  output = append_lines result.output ws;
  warnings = some (or_no_warnings result.warnings ++ ws);
}

abbrev pub suffix : Text
suffix = codes "\n\n[Tool result truncated during persistence and replay.]"

unfoldable pub truncate_tool_result : ToolResult → ℕ → ToolResult
unfolding set_field show
truncate_tool_result result max_result_chars =
    if leb (length result.output) max_result_chars then result else record result {
      output = take (max_result_chars - length suffix) result.output ++ suffix;
      truncated = true;
      details = some (
          set_field (codes "originalOutputChars") (num (show (length result.output)))
            (or_empty result.details));
    }
