-- ===== src/Core/Orchestrator/ToolProgress.antt =====
-- packages/core/src/orchestrator.ts: what the result of a tool adds to the progress of a turn.
use cere_worker.Prelude.{
  ℕ, Text, codes, text_eq, if◌then◌else◌, Bool, true, false, not, ◌&&◌, Option, none, some, or_else,
  truthy, List, [], ◌∷◌, ◌++◌, any, find?,
}
use cere_worker.Core.ToolRuntime.Results.{ToolResult}
use cere_worker.Core.Orchestrator.{
  BrowserTabSnapshot, BrowserStateSnapshot, from_tool, ProgressEntry, tool_boundary,
  TurnContinuityState,
}
use cere_worker.Core.Orchestrator.Texts.{truncate_resume_text, format_tool_output_preview}
use cere_worker.Core.Orchestrator.Continuity.{
  BoundaryInput, record_boundary, record_progress_entry, push_entry,
}

-- The properties of `metadata.resume` that the code reads, which have these types.
pub record BrowserResumeMetadata : Type 0 where
  pub action : Option Text
  pub summary : Option Text
  pub url : Option Text
  pub tab_id : Option Text
  pub active_tab_id : Option Text
  pub tabs : Option (List BrowserTabSnapshot)
  pub state_changing : Option Bool
  pub delta_url : Option Text
  pub delta_active_tab_id : Option Text
  pub delta_tabs : Option (List BrowserTabSnapshot)

abbrev pub read_only_tool_names : List Text
read_only_tool_names =
    codes "browserGetText"
    ∷ codes "browserGetUrl"
    ∷ codes "browserListTabs"
    ∷ codes "browserWait"
    ∷ codes "browserEval"
    ∷ codes "readFile"
    ∷ codes "listDirectory"
    ∷ codes "searchFiles"
    ∷ codes "glob"
    ∷ codes "memory_read"
    ∷ codes "webSearch"
    ∷ codes "httpFetch"
    ∷ []

unfoldable pub is_likely_state_changing_tool : Text → Bool
unfolding any text_eq
is_likely_state_changing_tool name = not (any (λ n. text_eq n name) read_only_tool_names)

abbrev pub or_default {ℓ} : {A : Type ℓ} → Option A → A → A
or_default none b = b
or_default (some a) b = a

abbrev pub plain_entry : Text → ToolResult → Text → Option ProgressEntry
plain_entry tool_name result [] = none
plain_entry tool_name result (c ∷ preview) = some (record {
  source = from_tool;
  action = tool_name;
  summary = tool_name ++ codes ": " ++ c ∷ preview;
  tool_name = some tool_name;
  url = none;
  tab_id = none;
  state_changing = is_likely_state_changing_tool tool_name;
  is_error = result.is_error;
  checkpoint_status = none;
})

abbrev pub resumed_entry : Text → ToolResult → BrowserResumeMetadata → Text → ProgressEntry
resumed_entry tool_name result resume summary = record {
  source = from_tool;
  action = or_default resume.action tool_name;
  summary = truncate_resume_text summary 220;
  tool_name = some tool_name;
  url = resume.url;
  tab_id = or_else resume.tab_id resume.active_tab_id;
  state_changing = or_default resume.state_changing (is_likely_state_changing_tool tool_name);
  is_error = result.is_error;
  checkpoint_status = none;
}

abbrev pub summary_of : Option BrowserResumeMetadata → Option (BrowserResumeMetadata × Text)
summary_of none = none
summary_of (some resume) = elim (truthy resume.summary) [
  | none ↦ none
  | some summary ↦ some (resume, summary)
]

unfoldable pub create_progress_entry :
    Text → ToolResult → Option BrowserResumeMetadata → Option ProgressEntry
unfolding format_tool_output_preview is_likely_state_changing_tool truncate_resume_text
create_progress_entry tool_name result resume = elim (summary_of resume) [
  | some (resume', summary) ↦ some (resumed_entry tool_name result resume' summary)
  | none ↦ plain_entry tool_name result (format_tool_output_preview result.output)
]

abbrev pub some_tabs : Option (List BrowserTabSnapshot) → Option (List BrowserTabSnapshot)
some_tabs (some (tab ∷ tabs)) = some (tab ∷ tabs)
some_tabs _ = none

-- The tab that is active gives the page.
abbrev pub at_active_tab : Option BrowserTabSnapshot → BrowserStateSnapshot → BrowserStateSnapshot
at_active_tab none state = state
at_active_tab (some tab) state = record state {
  active_tab_id = some tab.id;
  current_url = some tab.url;
}

abbrev pub with_tabs :
    Option (List BrowserTabSnapshot) → BrowserStateSnapshot → BrowserStateSnapshot
with_tabs none state = state
with_tabs (some tabs) state =
    at_active_tab (find? (λ t. t.active) tabs) (record state { tabs = some tabs })

-- `if (value) ...`, where an empty text counts as absent.
abbrev pub set_if : Option Text → Option Text → Option Text
set_if value old = or_else (truthy value) old

abbrev pub changed_tab : BrowserResumeMetadata → Option Text
changed_tab resume = if or_default resume.state_changing false then resume.tab_id else none

unfoldable pub update_browser_state :
    BrowserStateSnapshot → Option BrowserResumeMetadata → BrowserStateSnapshot
unfolding find?
update_browser_state state none = state
update_browser_state state (some resume) =
    with_tabs (some_tabs (or_else (some_tabs resume.tabs) resume.delta_tabs)) (record state {
      current_url = set_if (or_else resume.url resume.delta_url) state.current_url;
      active_tab_id =
          or_else (truthy (or_else resume.active_tab_id resume.delta_active_tab_id))
            (set_if (changed_tab resume) state.active_tab_id);
    })

abbrev pub tool_input : ProgressEntry → BoundaryInput
tool_input entry = record {
  kind = tool_boundary;
  action = entry.action;
  summary = entry.summary;
  state_changing = true;
  url = entry.url;
  tab_id = entry.tab_id;
  evidence = none;
  checkpoint_status = none;
}

abbrev pub record_entry :
    Text
    → ℕ
    → Option BrowserResumeMetadata
    → TurnContinuityState
    → Option ProgressEntry
    → TurnContinuityState
record_entry id now resume continuity none = continuity
record_entry id now resume continuity (some entry) =
    let noted = record_progress_entry continuity entry in
    let seen = record noted { browser_state = update_browser_state noted.browser_state resume } in
    if entry.state_changing && not entry.is_error
    then record_boundary id now seen (tool_input entry)
    else seen

unfoldable pub record_attempt_tool_progress :
    Text
    → ℕ
    → Text
    → ToolResult
    → Option BrowserResumeMetadata
    → TurnContinuityState
    → TurnContinuityState
unfolding create_progress_entry push_entry update_browser_state record_boundary
record_attempt_tool_progress id now tool_name result resume continuity =
    record_entry id now resume continuity (create_progress_entry tool_name result resume)
