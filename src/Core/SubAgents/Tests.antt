-- ===== src/Core/SubAgents/Tests.antt =====
-- packages/core/src/sub-agent-manager.ts on concrete runs of a manager of one agent.
use cere_worker.Prelude.{
  ℕ, ◌≤◌, ◌<◌, ◌⊎◌, inr, Text, codes, true, Option, none, some, List, [], ◌∷◌, ◌≡◌, refl, find?,
  count_if, arith,
}
use cere_worker.Core.SubAgents.{
  failed, timed_out, cancelled, SubAgentInstance, Run, Manager, SpawnOptions, agent_id,
  max_concurrent_reached, is_active_agent, open_promise, new_instance, set_status, spawn, cancel,
  timeout, retry, get_agent,
}
use cere_worker.Core.SubAgents.Runs.{settle}
use cere_worker.Core.SubAgents.Tools.{
  shared, is_skipped, get_tool, create_agent_tools, create_agent_tools-no_shared,
}
use cere_worker.Core.SubAgents.Limits.{spawn-limit}
use cere_worker.Core.SubAgents.Stopping.{settle-stop}
use cere_worker.Core.SubAgents.Attended.{distinct_ids}
use cere_worker.Core.SubAgents.Events.{
  Event, spawning, cancelling, retrying, settling, perform_all, AllAttended,
}
use cere_worker.Core.SubAgents.Invariant.{perform_all-AllAttended}

abbrev no_agents : Manager
no_agents = record {
  agents = [];
  runs = [];
  sessions = [];
  next_controller = 0;
  max_concurrent = 1;
}

abbrev plain : SpawnOptions
plain = record { timeout_ms = none; label = none; cleanup = none; parent_session_key = none }

unfoldable one_agent : Manager
unfolding spawn
one_agent = (spawn (codes "a") (codes "c") (codes "look") plain 7 no_agents).0

spawn-limit_example :
    let after = spawn (codes "b") (codes "d") (codes "more") plain 8 one_agent in
    (count_if is_active_agent after.0.agents ≤ after.0.max_concurrent)
    × ((count_if is_active_agent one_agent.agents ≡ one_agent.max_concurrent)
          × (after ≡ (one_agent, max_concurrent_reached))
        ⊎ (count_if is_active_agent one_agent.agents < one_agent.max_concurrent)
          × (after.1 ≡ agent_id (codes "b")))
unfolding one_agent spawn count_if
spawn-limit_example =
    spawn-limit (codes "b") (codes "d") (codes "more") plain 8 one_agent (omega arith)

abbrev the_agent : Option SubAgentInstance → SubAgentInstance
the_agent none = record {
  meta = (new_instance [] [] [] plain 0 0).meta;
  controller = 9;
  aborted = true;
  stored_messages = 9;
}
the_agent (some agent) = agent

abbrev its_run : Run
its_run = record { agent_id = codes "a"; controller = 0; promise = open_promise }

abbrev agent_a : SubAgentInstance
agent_a = the_agent (get_agent (codes "a") one_agent)

settle-stop_example :
    (get_agent (codes "a") (settle agent_a.controller (cancel (codes "a") one_agent))
      ≡ some (record (set_status cancelled agent_a) { aborted = true }))
    × (get_agent (codes "a") (settle agent_a.controller (timeout (codes "a") one_agent))
        ≡ some (record (set_status timed_out agent_a) { aborted = true }))
unfolding one_agent spawn get_agent find?
settle-stop_example = settle-stop (codes "a") agent_a its_run one_agent refl refl refl refl refl

abbrev shared_tools : List (Text × ℕ)
shared_tools = (codes "shell", 1) ∷ (codes "memory_read", 2) ∷ (codes "spawn_agent", 3) ∷ []

create_agent_tools-no_shared_example :
    ¬ (get_tool (codes "memory_read") (create_agent_tools shared_tools) ≡ some (shared 2))
unfolding is_skipped
create_agent_tools-no_shared_example =
    create_agent_tools-no_shared shared_tools (codes "memory_read") 2
      (inr (inr (inr (codes "read", refl))))

-- A retry asks nothing of the limit: with one agent allowed, the retry of a cancelled agent while
-- another one runs gives two that run.
abbrev over_limit : Manager
over_limit =
    let stopped = cancel (codes "a") one_agent in
    let other = (spawn (codes "b") (codes "d") (codes "more") plain 8 stopped).0 in
    (retry (codes "a") (codes "e") 9 other).0

retry-over_limit :
    (count_if is_active_agent over_limit.agents ≡ 2) × (over_limit.max_concurrent ≡ 1)
unfolding one_agent spawn cancel retry count_if
retry-over_limit = (refl, refl)

-- The run that a cancel has aborted comes to its end after the retry: it finds the new controller,
-- which is not aborted, and marks the agent as failed while the new run is on its way.
abbrev late_end : Manager
late_end = settle 0 (retry (codes "a") (codes "e") 9 (cancel (codes "a") one_agent)).0

settle-after_retry :
    ((the_agent (get_agent (codes "a") late_end)).meta.status ≡ failed)
    × (late_end.runs ≡ record { agent_id = codes "a"; controller = 1; promise = open_promise } ∷ [])
unfolding one_agent spawn cancel retry settle get_agent find?
settle-after_retry = (refl, refl)

abbrev life : List Event
life =
    spawning (codes "a") (codes "c") (codes "look") plain 7
    ∷ cancelling (codes "a")
    ∷ retrying (codes "a") (codes "e") 9
    ∷ settling 0
    ∷ []

perform_all-AllAttended_example : AllAttended (perform_all no_agents life)
unfolding distinct_ids
perform_all-AllAttended_example =
    perform_all-AllAttended no_agents life (record { each = tt; distinct = refl })
