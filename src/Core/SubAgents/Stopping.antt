-- ===== src/Core/SubAgents/Stopping.antt =====
-- packages/core/src/sub-agent-manager.ts: `cancel` and `timeout` against the run that they stop.
use cere_worker.Prelude.{
  ℕ, ◌==◌, Text, codes, text_eq, text_eq_refl, text_eq_iff, true, some, List, [], ◌∷◌, ◌≡◌, map,
  find?, find?-sat, arith, Bool-cases, inl, inr,
}
use cere_worker.Core.SubAgents.{
  SubAgentStatus, timed_out, cancelled, SubAgentInstance, Manager, Run, open_promise, rejected,
  is_active_agent, is_cancelled, has_id, set_status, put_agent, abort_run, cancel, timeout,
  get_agent, stop_found,
}
use cere_worker.Core.SubAgents.Runs.{of_controller, settle, after_run}

-- `Map.get` after `Map.set`.
pub find?-put_agent :
    (a : SubAgentInstance) (xs : List SubAgentInstance)
    → text_eq a.meta.id a.meta.id ≡ true
    → find? (has_id a.meta.id) (put_agent a xs) ≡ some a
unfolding find? put_agent
find?-put_agent a [] self = rw self
find?-put_agent a (x ∷ xs) self = ground (arith, self, find?-put_agent a xs self)

-- The run that a stop has aborted is found as one whose promise is rejected.
find?-abort_run :
    (controller : ℕ) (runs : List Run) (r : Run)
    → find? (of_controller controller) runs ≡ some r
    → find? (of_controller controller) (map (abort_run controller) runs)
      ≡ some (abort_run controller r)
unfolding find?
find?-abort_run controller [] r e = cc
find?-abort_run controller (x ∷ xs) r e = elim (Bool-cases (x.controller == controller)) [
  | inl t ↦ let same : x ≡ r = ground arith in rw (← same) (rw (t, t))
  | inr t ↦ rw (t, t) (find?-abort_run controller xs r (rw t at e))
]

-- What `settle` does for an agent that is in the map, once a stop has aborted its run.
settle-stopped :
    (status : SubAgentStatus) (agent : SubAgentInstance) (r : Run) (m : Manager)
    → r.agent_id ≡ agent.meta.id
    → is_active_agent agent ≡ true
    → find? (of_controller agent.controller) m.runs ≡ some r
    → r.promise ≡ open_promise
    → let stopped = record (set_status status agent) { aborted = true } in
      get_agent agent.meta.id (settle agent.controller (stop_found status m (some agent)))
      ≡ some (after_run (rejected (codes "Agent aborted")) stopped)
unfolding settle get_agent
settle-stopped status agent r m to_id active found opened =
    let mine = find?-sat (of_controller agent.controller) m.runs found in
    let stopped = record (set_status status agent) { aborted = true } in
    let self = text_eq_refl agent.meta.id in
    let later = find?-abort_run agent.controller m.runs r found in
    let there = find?-put_agent stopped m.agents self in
    rw (active, later, mine, opened, to_id, there)
      (elim (Bool-cases (is_cancelled status)) [
        | inl c ↦ rw c (find?-put_agent stopped (put_agent stopped m.agents) self)
        | inr c ↦
            rw c (find?-put_agent (set_status timed_out stopped) (put_agent stopped m.agents) self)
      ])

-- An agent of the map is active, and the run that it refers to is still open. Where it is
-- cancelled, and its run then comes to its end, the agent is found cancelled, with its signal raised
-- and nothing else changed; where it is timed out, the same holds with the status of a timeout.
pub settle-stop :
    (id : Text) (agent : SubAgentInstance) (r : Run) (m : Manager)
    → get_agent id m ≡ some agent
    → is_active_agent agent ≡ true
    → find? (of_controller agent.controller) m.runs ≡ some r
    → r.agent_id ≡ agent.meta.id
    → r.promise ≡ open_promise
    → (get_agent id (settle agent.controller (cancel id m))
        ≡ some (record (set_status cancelled agent) { aborted = true }))
      × (get_agent id (settle agent.controller (timeout id m))
          ≡ some (record (set_status timed_out agent) { aborted = true }))
unfolding get_agent cancel timeout
settle-stop id agent r m there active found to_id opened =
    let same = (text_eq_iff agent.meta.id id).0 (find?-sat (has_id id) m.agents there) in
    let stopped =
      λ (status : SubAgentStatus). settle-stopped status agent r m to_id active found opened in
    rw (there, ← same) (stopped cancelled, stopped timed_out)
