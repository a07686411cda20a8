-- ===== src/Core/SubAgents/Runs.antt =====
-- packages/core/src/sub-agent-manager.ts: what happens in a run of an agent (`runAgent`) after its
-- first `await`, an event for each callback of the stream. A run is named by the controller that it
-- started with; its callbacks act on the agent's object, which a retry shares. An agent that `prune`
-- has dropped takes part in nothing any more.
use cere_worker.Prelude.{
  ℕ, ◌+◌, Text, ◌==◌, if◌then◌else◌, Bool, true, false, Option, none, some, List, [], ◌∷◌, map,
  find?,
}
use cere_worker.Core.SubAgents.{
  completed, failed, timed_out, SubAgentInstance, Promise, open_promise, resolved, rejected, Run,
  Manager, is_cancelled, has_id, set_status, put_agent, put_session, update_agent, store,
  reject_open,
}

abbrev pub of_controller : ℕ → Run → Bool
of_controller controller r = r.controller == controller

-- A change of the agent's object by a callback of a run.
abbrev pub change_found : (SubAgentInstance → SubAgentInstance) → Manager → Option Run → Manager
change_found change m none = m
change_found change m (some r) = record m { agents = update_agent r.agent_id change m.agents }

abbrev pub with_activity : ℕ → SubAgentInstance → SubAgentInstance
with_activity now agent = record agent { meta = record agent.meta { last_activity_at = now } }

abbrev pub with_tool_call : ℕ → SubAgentInstance → SubAgentInstance
with_tool_call now agent = record agent {
  meta = record agent.meta {
    last_activity_at = now;
    tool_calls_count = agent.meta.tool_calls_count + 1;
  };
}

abbrev pub with_message : SubAgentInstance → SubAgentInstance
with_message agent = record agent {
  meta = record agent.meta { messages_count = agent.meta.messages_count + 1 };
  stored_messages = agent.stored_messages + 1;
}

-- `throwIfAborted` reads the controller that the object has by then.
abbrev pub with_tool_result : SubAgentInstance → SubAgentInstance
with_tool_result agent = if agent.aborted then agent else with_message agent

abbrev pub with_result : Text → SubAgentInstance → SubAgentInstance
with_result content agent =
    let told = with_message agent in
    record told { meta = record told.meta { result = some content } }

unfoldable pub on_chunk : ℕ → ℕ → Manager → Manager
unfolding find? update_agent
on_chunk controller now m =
    change_found (with_activity now) m (find? (of_controller controller) m.runs)

-- The call of a tool starts.
unfoldable pub on_tool_call : ℕ → ℕ → Manager → Manager
unfolding find? update_agent
on_tool_call controller now m =
    change_found (with_tool_call now) m (find? (of_controller controller) m.runs)

-- The tool has given its result.
unfoldable pub on_tool_result : ℕ → Manager → Manager
unfolding find? update_agent
on_tool_result controller m =
    change_found with_tool_result m (find? (of_controller controller) m.runs)

abbrev pub resolve_open : Promise → Promise
resolve_open open_promise = resolved
resolve_open p = p

abbrev pub settle_promise : ℕ → (Promise → Promise) → Run → Run
settle_promise controller change r =
    if of_controller controller r then record r { promise = change r.promise } else r

unfoldable pub on_finish : ℕ → Text → Manager → Manager
unfolding find? update_agent
on_finish controller content m =
    let told = change_found (with_result content) m (find? (of_controller controller) m.runs) in
    record told { runs = map (settle_promise controller resolve_open) told.runs }

unfoldable pub on_error : ℕ → Text → Manager → Manager
on_error controller message m = record m {
  runs = map (settle_promise controller (reject_open message)) m.runs;
}

-- `runAgent` after its `await`: the end of the `try`, or the `catch`.
abbrev pub after_run : Promise → SubAgentInstance → SubAgentInstance
after_run open_promise agent = agent
after_run resolved agent = set_status completed agent
after_run (rejected message) agent =
    if agent.aborted
    then if is_cancelled agent.meta.status then agent else set_status timed_out agent
    else record agent { meta = record agent.meta { status = failed; error = some message } }

abbrev pub is_open : Promise → Bool
is_open open_promise = true
is_open _ = false

abbrev pub save_found : Promise → Manager → Option SubAgentInstance → Manager
save_found p m none = m
save_found p m (some agent) = store (after_run p agent) m

-- The promise of a run is followed up: the run is over.
unfoldable pub remove_run : ℕ → List Run → List Run
remove_run controller [] = []
remove_run controller (r ∷ runs) =
    if of_controller controller r then runs else r ∷ remove_run controller runs

abbrev pub settle_found : ℕ → Manager → Option Run → Manager
settle_found controller m none = m
settle_found controller m (some r) =
    if is_open r.promise
    then m
    else save_found r.promise (record m { runs = remove_run controller m.runs })
        (find? (has_id r.agent_id) m.agents)

-- A run whose promise is settled goes on to its end.
unfoldable pub settle : ℕ → Manager → Manager
unfolding find? remove_run put_agent put_session
settle controller m = settle_found controller m (find? (of_controller controller) m.runs)
