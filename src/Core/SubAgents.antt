-- ===== src/Core/SubAgents.antt =====
-- packages/core/src/sub-agent-manager.ts: the life of the sub-agents. A run of an agent is
-- asynchronous: the manager keeps the runs whose promise has not been followed up, and the calls of
-- the class and what the stream of a run does are events, in any order. A conversation is known by
-- the number of its messages; the writes of session files succeed. The status `timeout` is named
-- `timed_out`, and a state that is handed out is the instance itself.
pub mod Runs
pub mod Recovery
pub mod Tools
pub mod Attended
pub mod Kept
pub mod Events
pub mod Invariant
pub mod Limits
pub mod Stopping
pub mod Pruning
mod Tests
use cere_worker.Prelude.{
  ℕ, zero, suc, ◌+◌, ◌-◌, ◌*◌, ◌≤◌, ◌<◌, Text, codes, text_eq, leb, ltb, ◌==◌, if◌then◌else◌, Bool,
  true, false, not, ◌&&◌, ◌||◌, Option, none, some, List, [], ◌∷◌, ◌++◌, map, length, filter, any,
  find?, count_if,
}

pub data SubAgentStatus : Type 0 where
  pending running completed failed timed_out cancelled : SubAgentStatus

pub data SubAgentCleanup : Type 0 where
  delete keep : SubAgentCleanup

-- What `saveSessionMeta` writes. A deadline of 0 is no deadline.
pub record SessionMeta : Type 0 where
  pub id : Text
  pub session_key : Text
  pub parent_session_key : Text
  pub task : Text
  pub label : Option Text
  pub status : SubAgentStatus
  pub cleanup : SubAgentCleanup
  pub spawned_at : ℕ
  pub last_activity_at : ℕ
  pub timeout_ms : ℕ
  pub deadline_at : ℕ
  pub conversation_id : Text
  pub result : Option Text
  pub error : Option Text
  pub messages_count : ℕ
  pub tool_calls_count : ℕ
  pub retry_count : ℕ
  pub progress_note : Option Text
  pub progress_percent : Option ℕ
  pub last_progress_at : Option ℕ

-- `controller` names the AbortController that the instance refers to, and `aborted` says whether
-- its signal is raised; `stored_messages` counts the messages of the current conversation.
pub record SubAgentInstance : Type 0 where
  pub meta : SessionMeta
  pub controller : ℕ
  pub aborted : Bool
  pub stored_messages : ℕ

pub data Promise : Type 0 where
  open_promise resolved : Promise
  rejected : Text → Promise

-- One call of `runAgent` that is still waiting: the agent, the controller that it listens to, and
-- the promise.
pub record Run : Type 0 where
  pub agent_id : Text
  pub controller : ℕ
  pub promise : Promise

pub record Manager : Type 0 where
  pub agents : List SubAgentInstance
  pub runs : List Run
  pub sessions : List SessionMeta
  pub next_controller : ℕ
  pub max_concurrent : ℕ

abbrev pub is_active : SubAgentStatus → Bool
is_active pending = true
is_active running = true
is_active _ = false

abbrev pub is_cancelled : SubAgentStatus → Bool
is_cancelled cancelled = true
is_cancelled _ = false

abbrev pub has_id : Text → SubAgentInstance → Bool
has_id id agent = text_eq agent.meta.id id

abbrev pub is_active_agent : SubAgentInstance → Bool
is_active_agent agent = is_active agent.meta.status

abbrev pub set_status : SubAgentStatus → SubAgentInstance → SubAgentInstance
set_status status agent = record agent { meta = record agent.meta { status = status } }

-- `Map.set`: an entry of the same key keeps its place.
unfoldable pub put_agent : SubAgentInstance → List SubAgentInstance → List SubAgentInstance
unfolding text_eq
put_agent agent [] = agent ∷ []
put_agent agent (x ∷ xs) = if has_id agent.meta.id x then agent ∷ xs else x ∷ put_agent agent xs

-- A change of the object that the map holds under `id`.
unfoldable pub update_agent :
    Text → (SubAgentInstance → SubAgentInstance) → List SubAgentInstance → List SubAgentInstance
unfolding text_eq
update_agent id change [] = []
update_agent id change (x ∷ xs) =
    if has_id id x then change x ∷ xs else x ∷ update_agent id change xs

-- The session file of an agent is written anew.
unfoldable pub put_session : SessionMeta → List SessionMeta → List SessionMeta
unfolding text_eq
put_session meta [] = meta ∷ []
put_session meta (x ∷ xs) = if text_eq x.id meta.id then meta ∷ xs else x ∷ put_session meta xs

abbrev pub save_session_meta : SubAgentInstance → Manager → Manager
save_session_meta agent m = record m { sessions = put_session agent.meta m.sessions }

-- An agent is stored in the map and saved.
abbrev pub store : SubAgentInstance → Manager → Manager
store agent m = save_session_meta agent (record m { agents = put_agent agent m.agents })

-- The part of `runAgent` before its first `await`.
unfoldable pub run_agent : SubAgentInstance → Manager → Manager
unfolding put_agent put_session
run_agent agent m =
    let started = set_status running agent in
    let m1 = store started m in
    let more : ℕ = if ltb 0 agent.stored_messages then 1 else 2 in
    let told = record started {
      meta = record started.meta { messages_count = started.meta.messages_count + more };
      stored_messages = started.stored_messages + more;
    } in
    record m1 {
      agents = put_agent told m1.agents;
      runs =
          m1.runs
          ++ record {
            agent_id = agent.meta.id;
            controller = agent.controller;
            promise = if agent.aborted then rejected (codes "Agent aborted") else open_promise;
          }
            ∷ [];
    }

pub record SpawnOptions : Type 0 where
  pub timeout_ms : Option ℕ
  pub label : Option Text
  pub cleanup : Option SubAgentCleanup
  pub parent_session_key : Option Text

abbrev pub value_or {ℓ} : {A : Type ℓ} → Option A → A → A
value_or none d = d
value_or (some a) d = a

pub data Reply : Type 0 where
  agent_id : Text → Reply
  max_concurrent_reached not_found still_running : Reply

abbrev pub default_timeout_ms : ℕ
default_timeout_ms = 5 * 60000

abbrev pub new_instance : Text → Text → Text → SpawnOptions → ℕ → ℕ → SubAgentInstance
new_instance id conversation_id task opts now controller =
    let timeout = value_or opts.timeout_ms default_timeout_ms in
    record {
      meta = record {
        id = id;
        session_key = codes "agent:main:subagent:" ++ id;
        parent_session_key = value_or opts.parent_session_key (codes "agent:main");
        task = task;
        label = opts.label;
        status = pending;
        cleanup = value_or opts.cleanup delete;
        spawned_at = now;
        last_activity_at = now;
        timeout_ms = timeout;
        deadline_at = if ltb 0 timeout then now + timeout else 0;
        conversation_id = conversation_id;
        result = none;
        error = none;
        messages_count = 0;
        tool_calls_count = 0;
        retry_count = 0;
        progress_note = none;
        progress_percent = none;
        last_progress_at = none;
      };
      controller = controller;
      aborted = false;
      stored_messages = 0;
    }

-- `id` and `conversation_id` are what `nanoid` gives, `now` the clock.
unfoldable pub spawn : Text → Text → Text → SpawnOptions → ℕ → Manager → Manager × Reply
unfolding count_if run_agent
spawn id conversation_id task opts now m =
    if leb m.max_concurrent (count_if is_active_agent m.agents)
    then (m, max_concurrent_reached)
    else let agent = new_instance id conversation_id task opts now m.next_controller in
      (
        run_agent agent (store agent (record m { next_controller = m.next_controller + 1 })),
        agent_id id,
      )

-- The abort listener of a run rejects its promise, if that is open.
abbrev pub reject_open : Text → Promise → Promise
reject_open message open_promise = rejected message
reject_open message p = p

abbrev pub abort_run : ℕ → Run → Run
abort_run controller r =
    if r.controller == controller
    then record r { promise = reject_open (codes "Agent aborted") r.promise }
    else r

-- `cancel` and `timeout` differ in the status alone.
abbrev pub stop_found : SubAgentStatus → Manager → Option SubAgentInstance → Manager
stop_found status m none = m
stop_found status m (some agent) =
    if is_active_agent agent
    then (let stopped = record (set_status status agent) { aborted = true } in
        store stopped (record m { runs = map (abort_run agent.controller) m.runs }))
    else m

unfoldable pub cancel : Text → Manager → Manager
unfolding find? put_agent put_session
cancel id m = stop_found cancelled m (find? (has_id id) m.agents)

unfoldable pub timeout : Text → Manager → Manager
unfolding find? put_agent put_session
timeout id m = stop_found timed_out m (find? (has_id id) m.agents)

abbrev pub renewed : Text → ℕ → ℕ → SubAgentInstance → SubAgentInstance
renewed conversation_id now controller agent = record {
  meta = record agent.meta {
    status = pending;
    retry_count = agent.meta.retry_count + 1;
    last_activity_at = now;
    result = none;
    error = none;
    conversation_id = conversation_id;
    messages_count = 0;
    tool_calls_count = 0;
  };
  controller = controller;
  aborted = false;
  stored_messages = 0;
}

abbrev pub retry_found : Text → Text → ℕ → Manager → Option SubAgentInstance → Manager × Reply
retry_found id conversation_id now m none = (m, not_found)
retry_found id conversation_id now m (some agent) =
    if is_active_agent agent
    then (m, still_running)
    else let again = renewed conversation_id now m.next_controller agent in
      (
        run_agent again (store again (record m { next_controller = m.next_controller + 1 })),
        agent_id id,
      )

unfoldable pub retry : Text → Text → ℕ → Manager → Manager × Reply
unfolding find? run_agent
retry id conversation_id now m = retry_found id conversation_id now m (find? (has_id id) m.agents)

abbrev pub is_running : SubAgentStatus → Bool
is_running running = true
is_running _ = false

abbrev pub pinged : ℕ → SubAgentInstance → SubAgentInstance
pinged now agent =
    if is_running agent.meta.status
    then record agent {
      meta = record agent.meta {
        last_activity_at = now;
        messages_count = agent.meta.messages_count + 1;
      };
      stored_messages = agent.stored_messages + 1;
    }
    else agent

unfoldable pub ping : Text → ℕ → Manager → Manager
unfolding update_agent
ping id now m = record m { agents = update_agent id (pinged now) m.agents }

-- `prune` goes on to the next entry where one of its two tests holds; the directory of an entry with
-- the cleanup `delete` is removed.
abbrev pub is_kept : ℕ → ℕ → SubAgentInstance → Bool
is_kept now max_age_ms agent =
    is_active_agent agent || ltb (now - agent.meta.last_activity_at) max_age_ms

abbrev pub is_deleted : SubAgentCleanup → Bool
is_deleted delete = true
is_deleted keep = false

abbrev pub loses_dir : ℕ → ℕ → List SubAgentInstance → SessionMeta → Bool
loses_dir now max_age_ms agents meta =
    any (λ a. has_id meta.id a && not (is_kept now max_age_ms a) && is_deleted a.meta.cleanup)
      agents

unfoldable pub prune : ℕ → ℕ → Manager → Manager
unfolding filter any text_eq
prune max_age_ms now m = record m {
  agents = filter (is_kept now max_age_ms) m.agents;
  sessions = filter (λ s. not (loses_dir now max_age_ms m.agents s)) m.sessions;
}

pub record SubAgentSummary : Type 0 where
  pub total : ℕ
  pub running : ℕ
  pub completed : ℕ
  pub failed : ℕ

abbrev pub is_completed : SubAgentStatus → Bool
is_completed completed = true
is_completed _ = false

abbrev pub is_failed : SubAgentStatus → Bool
is_failed failed = true
is_failed timed_out = true
is_failed cancelled = true
is_failed _ = false

unfoldable pub get_summary : Manager → SubAgentSummary
unfolding count_if
get_summary m = record {
  total = length m.agents;
  running = count_if is_active_agent m.agents;
  completed = count_if (λ a. is_completed a.meta.status) m.agents;
  failed = count_if (λ a. is_failed a.meta.status) m.agents;
}

unfoldable pub get_agent : Text → Manager → Option SubAgentInstance
unfolding find? text_eq
get_agent id m = find? (has_id id) m.agents
