-- ===== src/Core/SubAgents/Recovery.antt =====
-- packages/core/src/sub-agent-manager.ts: `report_progress`, `persistAllRunning` and
-- `recoverFromDisk`. A session file is as `saveSessionMeta` writes it; one that cannot be read or
-- parsed is not among the files that are listed.
use cere_worker.Prelude.{
  ℕ, ◌+◌, ◌*◌, Text, ltb, ◌==◌, if◌then◌else◌, Bool, false, not, ◌&&◌, ◌||◌, Option, none, some,
  List, [], ◌∷◌, ◌++◌, any, find?, text_eq,
}
use cere_worker.Core.SubAgents.{
  pending, timed_out, SessionMeta, SubAgentInstance, Manager, is_active, is_active_agent, has_id,
  put_agent, put_session, save_session_meta, store, run_agent,
}

abbrev pub with_progress : Text → Option ℕ → ℕ → SubAgentInstance → SubAgentInstance
with_progress note percent now agent = record agent {
  meta = record agent.meta {
    progress_note = some note;
    progress_percent = percent;
    last_progress_at = some now;
    last_activity_at = now;
  };
}

abbrev pub progress_found : Text → Option ℕ → ℕ → Manager → Option SubAgentInstance → Manager
progress_found note percent now m none = m
progress_found note percent now m (some agent) = store (with_progress note percent now agent) m

-- The tool `report_progress` of the agent.
unfoldable pub report_progress : Text → Text → Option ℕ → ℕ → Manager → Manager
unfolding find? put_agent put_session
report_progress id note percent now m =
    progress_found note percent now m (find? (has_id id) m.agents)

unfoldable pub persist_each : List SubAgentInstance → Manager → Manager
unfolding put_session
persist_each [] m = m
persist_each (agent ∷ agents) m =
    persist_each agents (if is_active_agent agent then save_session_meta agent m else m)

unfoldable pub persist_all_running : Manager → Manager
unfolding persist_each
persist_all_running m = persist_each m.agents m

-- `meta.lastProgressAt && now - meta.lastProgressAt < 5 * 60_000`; a time of 0 is falsy.
abbrev pub has_recent_progress : ℕ → Option ℕ → Bool
has_recent_progress now none = false
has_recent_progress now (some at) = not (at == 0) && ltb now (at + 5 * 60000)

abbrev pub is_expired : ℕ → SessionMeta → Bool
is_expired now meta =
    ltb 0 meta.deadline_at
    && ltb meta.deadline_at now
    && not (has_recent_progress now meta.last_progress_at)

abbrev pub recovered_instance : SessionMeta → ℕ → ℕ → ℕ → SubAgentInstance
recovered_instance meta now controller stored = record {
  meta = record meta { status = pending; last_activity_at = now; result = none; error = none };
  controller = controller;
  aborted = false;
  stored_messages = stored;
}

-- A directory of an agent: its session file, and the number of messages in its conversation if it
-- has a database.
pub record AgentDir : Type 0 where
  pub session : SessionMeta
  pub messages : Option ℕ

abbrev pub resume_dir : SessionMeta → Option ℕ → ℕ → Manager × List Text → Manager × List Text
resume_dir meta none now (m, recovered) = (m, recovered)
resume_dir meta (some stored) now (m, recovered) =
    let agent = recovered_instance meta now m.next_controller stored in
    (
      run_agent agent
          (record m { agents = put_agent agent m.agents; next_controller = m.next_controller + 1 }),
      recovered ++ meta.id ∷ [],
    )

-- One turn of the loop of `recoverFromDisk`.
unfoldable pub recover_dir : ℕ → AgentDir → Manager × List Text → Manager × List Text
unfolding any run_agent put_agent put_session text_eq
recover_dir now dir (m, recovered) =
    let meta = dir.session in
    if not (is_active meta.status) || any (has_id meta.id) m.agents
    then (m, recovered)
    else if is_expired now meta
    then (
      record m { sessions = put_session (record meta { status = timed_out }) m.sessions },
      recovered,
    )
    else resume_dir meta dir.messages now (m, recovered)

unfoldable pub recover_dirs : ℕ → List AgentDir → Manager × List Text → Manager × List Text
unfolding recover_dir
recover_dirs now [] done = done
recover_dirs now (dir ∷ dirs) done = recover_dirs now dirs (recover_dir now dir done)

unfoldable pub recover_from_disk : ℕ → List AgentDir → Manager → Manager × List Text
unfolding recover_dirs
recover_from_disk now dirs m = recover_dirs now dirs (m, [])
