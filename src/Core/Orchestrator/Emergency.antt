-- ===== src/Core/Orchestrator/Emergency.antt =====
-- packages/core/src/orchestrator.ts: `emergencyStop`, which stops the turn and the sub-agents of
-- packages/core/src/sub-agent-manager.ts.
use cere_worker.Prelude.{
  Text, text_eq, text_eq_iff, text_eq_refl, true, false, not, ◌||◌, Option, none, some, List, [],
  ◌∷◌, ◌≡◌, refl, sym, map, filter, any, any-mem, find?, find?-sat, find?-none, count_if, All, Memᴰ,
  mem-filter, map-mem, Bool-cases, Option-cases, inl, inr, arith,
}
use cere_worker.Core.SubAgents.{
  SubAgentInstance, Manager, is_active_agent, has_id, put_agent, cancel, cancelled, set_status,
}
use cere_worker.Core.SubAgents.Attended.{
  distinct_ids, distinct_ids-put_agent, All-put_agent, All-others,
}
use cere_worker.Core.Orchestrator.Turn.{Running}
use cere_worker.Core.Orchestrator.Turn.Events.{on_emergency_stop}

-- `forEach((a) => this.subAgentManager.cancel(a.id))`
unfoldable pub cancel_all : List Text → Manager → Manager
cancel_all [] m = m
cancel_all (id ∷ ids) m = cancel_all ids (cancel id m)

-- The ids of the agents that are running or pending.
abbrev pub active_ids : List SubAgentInstance → List Text
active_ids agents = map (λ a. a.meta.id) (filter is_active_agent agents)

unfoldable pub stop_agents : Manager → Manager
unfolding cancel_all filter
stop_agents m = cancel_all (active_ids m.agents) m

abbrev pub stop_manager : Option Manager → Option Manager
stop_manager none = none
stop_manager (some m) = some (stop_agents m)

-- The turn is the one that is on its way.
abbrev pub emergency_stop :
    {St : Type 0} → Running St × Option Manager → Running St × Option Manager
emergency_stop (r, manager) = (on_emergency_stop r, stop_manager manager)

-- An agent that is active has one of these ids.
abbrev Listed : List Text → SubAgentInstance → Type 0
Listed ids a = (not (is_active_agent a) || any (λ i. text_eq i a.meta.id) ids) ≡ true

put_agent-found :
    (i : Text) (a : SubAgentInstance) (xs : List SubAgentInstance)
    → find? (has_id i) xs ≡ some a
    → put_agent a xs ≡ xs
unfolding find? put_agent
put_agent-found i a [] e = cc
put_agent-found i a (x ∷ xs) e = elim (Bool-cases (has_id i x)) [
  | inl t ↦ let same : x ≡ a = ground (arith, t, e) in rw (same, text_eq_refl a.meta.id) refl
  | inr t ↦
      let later : find? (has_id i) xs ≡ some a = rw t at e in
      let named : a.meta.id ≡ i = (text_eq_iff a.meta.id i).0 (find?-sat (has_id i) xs later) in
      rw (named, t, put_agent-found i a xs later) refl
]

Listed-other :
    (i : Text) (ids : List Text) (x : SubAgentInstance)
    → has_id i x ≡ false
    → Listed (i ∷ ids) x
    → Listed ids x
unfolding any
Listed-other i ids x other h =
    let apart : text_eq i x.meta.id ≡ false = elim (Bool-cases (text_eq i x.meta.id)) [
      | inl t ↦
          let turned : text_eq x.meta.id i ≡ true =
            (text_eq_iff x.meta.id i).1 (sym ((text_eq_iff i x.meta.id).0 t)) in
          ground (arith, turned, other)
      | inr t ↦ t
    ] in
    ground (arith, apart, h)

record Stops (ids : List Text) (m : Manager) : Type 0 where
  pub listed : All (Listed ids) m.agents
  pub distinct : distinct_ids m.agents ≡ true

cancel-Stops :
    (i : Text) (ids : List Text) (m : Manager) → Stops (i ∷ ids) m → Stops ids (cancel i m)
unfolding cancel
cancel-Stops i ids m h = elim (Option-cases (find? (has_id i) m.agents)) [
  | inl e ↦
      let nobody = find?-none (has_id i) m.agents e in
      rw e (record {
        listed =
            All-others i m.agents (λ x. λ other. λ l. Listed-other i ids x other l) nobody h.listed;
        distinct = h.distinct;
      })
  | inr (a, e) ↦
      let named : a.meta.id ≡ i = (text_eq_iff a.meta.id i).0 (find?-sat (has_id i) m.agents e) in
      let others =
        λ (x : SubAgentInstance) (other : has_id a.meta.id x ≡ false) (l : Listed (i ∷ ids) x).
          Listed-other i ids x (rw named at other) l in
      rw e (elim (Bool-cases (is_active_agent a)) [
        | inl t ↦
            let stopped = record (set_status cancelled a) { aborted = true } in
            rw t (record {
              listed = All-put_agent stopped m.agents h.distinct others refl h.listed;
              distinct = distinct_ids-put_agent stopped m.agents h.distinct;
            })
        | inr t ↦
            let idle : Listed ids a = rw t refl in
            let kept : All (Listed ids) (put_agent a m.agents) =
              All-put_agent a m.agents h.distinct others idle h.listed in
            rw t (record {
              listed = rw (put_agent-found i a m.agents e) at kept;
              distinct = h.distinct;
            })
      ])
]

cancel_all-Stops : (ids : List Text) (m : Manager) → Stops ids m → Stops [] (cancel_all ids m)
unfolding cancel_all
cancel_all-Stops [] m h = h
cancel_all-Stops (i ∷ ids) m h = cancel_all-Stops ids (cancel i m) (cancel-Stops i ids m h)

All-of_mem :
    (P : SubAgentInstance → Type 0) (xs : List SubAgentInstance)
    → ((x : SubAgentInstance) → Memᴰ x xs → P x)
    → All P xs
All-of_mem P [] h = tt
All-of_mem P (x ∷ xs) h = (h x (Memᴰ.head refl), All-of_mem P xs (λ y. λ m. h y (Memᴰ.tail m)))

active_ids-Listed : (agents : List SubAgentInstance) → All (Listed (active_ids agents)) agents
active_ids-Listed agents = All-of_mem (Listed (active_ids agents)) agents (λ x. λ m.
    elim (Bool-cases (is_active_agent x)) [
      | inl t ↦
          let there =
            map-mem (λ (a : SubAgentInstance). a.meta.id) _ x
              (mem-filter is_active_agent agents x m t) in
          let named =
            any-mem (λ i. text_eq i x.meta.id) (active_ids agents) x.meta.id there
              (text_eq_refl x.meta.id) in
          rw (named, t) refl
      | inr t ↦ rw t refl
    ])

none_active :
    (agents : List SubAgentInstance) → All (Listed []) agents → count_if is_active_agent agents ≡ 0
unfolding count_if any
none_active [] h = refl
none_active (a ∷ rest) (l, h) = ground (arith, l, none_active rest h)

-- If the keys of the map of agents are distinct, then after an emergency stop no sub-agent is running
-- or pending, and the turn that was on its way has its signal raised and is no longer the current one.
pub emergency_stop-none_active :
    {St : Type 0} (r : Running St) (m : Manager)
    → distinct_ids m.agents ≡ true
    → r.attempt.current ≡ true
    → let (r', manager) = emergency_stop (r, some m) in
      ((m' : Manager) × (manager ≡ some m') × (count_if is_active_agent m'.agents ≡ 0))
      × (r'.attempt.aborted ≡ true)
      × (r'.attempt.current ≡ false)
unfolding stop_agents
emergency_stop-none_active r m distinct current =
    let start : Stops (active_ids m.agents) m = record {
      listed = active_ids-Listed m.agents;
      distinct = distinct;
    } in
    let ended = cancel_all-Stops (active_ids m.agents) m start in
    (
      (stop_agents m, refl, none_active (stop_agents m).agents ended.listed),
      rw current (ground arith),
      refl,
    )
