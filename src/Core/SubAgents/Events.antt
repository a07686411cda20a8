-- ===== src/Core/SubAgents/Events.antt =====
-- packages/core/src/sub-agent-manager.ts: any sequence of calls of the manager and of events in
-- the runs of its agents.
use cere_worker.Prelude.{ℕ, Text, Option, List, [], ◌∷◌}
use cere_worker.Core.SubAgents.{Manager, SpawnOptions, spawn, cancel, timeout, retry, ping, prune}
use cere_worker.Core.SubAgents.Runs.{
  on_chunk, on_tool_call, on_tool_result, on_finish, on_error, settle,
}
use cere_worker.Core.SubAgents.Recovery.{
  report_progress, persist_all_running, AgentDir, recover_from_disk,
}
use cere_worker.Core.SubAgents.Attended.{IsAttended}

pub data Event : Type 0 where
  spawning : Text → Text → Text → SpawnOptions → ℕ → Event
  cancelling : Text → Event
  timing_out : Text → Event
  retrying : Text → Text → ℕ → Event
  pinging : Text → ℕ → Event
  pruning : ℕ → ℕ → Event
  chunk : ℕ → ℕ → Event
  tool_call : ℕ → ℕ → Event
  tool_result : ℕ → Event
  finished : ℕ → Text → Event
  failing : ℕ → Text → Event
  settling : ℕ → Event
  progress : Text → Text → Option ℕ → ℕ → Event
  persisting : Event
  recovering : ℕ → List AgentDir → Event

unfoldable pub perform : Manager → Event → Manager
unfolding spawn cancel timeout retry ping prune on_chunk on_tool_call on_tool_result on_finish
    on_error settle report_progress persist_all_running recover_from_disk
perform m (spawning id conversation_id task opts now) = (spawn id conversation_id task opts now m).0
perform m (cancelling id) = cancel id m
perform m (timing_out id) = timeout id m
perform m (retrying id conversation_id now) = (retry id conversation_id now m).0
perform m (pinging id now) = ping id now m
perform m (pruning max_age now) = prune max_age now m
perform m (chunk controller now) = on_chunk controller now m
perform m (tool_call controller now) = on_tool_call controller now m
perform m (tool_result controller) = on_tool_result controller m
perform m (finished controller content) = on_finish controller content m
perform m (failing controller message) = on_error controller message m
perform m (settling controller) = settle controller m
perform m (progress id note percent now) = report_progress id note percent now m
perform m persisting = persist_all_running m
perform m (recovering now dirs) = (recover_from_disk now dirs m).0

unfoldable pub perform_all : Manager → List Event → Manager
unfolding perform
perform_all m [] = m
perform_all m (e ∷ es) = perform_all (perform m e) es

abbrev pub AllAttended : Manager → Type 0
AllAttended m = IsAttended m.runs m.agents
