-- ===== src/Core/SubAgents/Limits.antt =====
-- packages/core/src/sub-agent-manager.ts: the limit on running agents, and the counts of a summary.
use cere_worker.Prelude.{
  ℕ, suc, ◌+◌, ◌≤◌, ◌<◌, Text, text_eq, text_eq_refl, ◌⊎◌, leb, leb→le, Bool, true, false, List, [],
  ◌∷◌, ◌≡◌, refl, length, count_if, arith, Bool-cases, inl, inr,
}
use cere_worker.Core.SubAgents.{
  SubAgentStatus, pending, running, completed, failed, timed_out, cancelled, SubAgentInstance,
  Manager, SpawnOptions, run_agent, new_instance, agent_id, max_concurrent_reached, is_active,
  is_active_agent, is_completed, is_failed, put_agent, spawn, get_summary,
}

pub put_agent-put_agent :
    (a b : SubAgentInstance) (xs : List SubAgentInstance)
    → a.meta.id ≡ b.meta.id
    → text_eq b.meta.id b.meta.id ≡ true
    → put_agent a (put_agent b xs) ≡ put_agent a xs
unfolding put_agent
put_agent-put_agent a b [] same self = rw (same, self)
put_agent-put_agent a b (x ∷ xs) same self =
    ground (arith, same, self, put_agent-put_agent a b xs same self)

pub count_if-put_agent :
    (p : SubAgentInstance → Bool) (a : SubAgentInstance) (xs : List SubAgentInstance)
    → count_if p (put_agent a xs) ≤ suc (count_if p xs)
unfolding put_agent count_if
count_if-put_agent p a [] = ground arith
count_if-put_agent p a (x ∷ xs) = ground (arith, count_if-put_agent p a xs)

-- A fresh agent, stored and started, is one more entry of the map at most.
count_if-spawned :
    (p : SubAgentInstance → Bool) (a b c : SubAgentInstance) (xs : List SubAgentInstance)
    → a.meta.id ≡ b.meta.id
    → b.meta.id ≡ c.meta.id
    → count_if p (put_agent a (put_agent b (put_agent c xs))) ≤ suc (count_if p xs)
count_if-spawned p a b c xs ab bc =
    let inner = put_agent-put_agent b c xs bc (text_eq_refl c.meta.id) in
    let outer = put_agent-put_agent a b xs ab (text_eq_refl b.meta.id) in
    rw (inner, outer) (count_if-put_agent p a xs)

-- Where at most `max_concurrent` agents are pending or running, no more than that are after a
-- `spawn`; and a `spawn` is refused, with nothing changed, exactly where the limit is reached.
pub spawn-limit :
    (id conversation_id task : Text) (opts : SpawnOptions) (now : ℕ) (m : Manager)
    → count_if is_active_agent m.agents ≤ m.max_concurrent
    → let after = spawn id conversation_id task opts now m in
      (count_if is_active_agent after.0.agents ≤ after.0.max_concurrent)
      × ((count_if is_active_agent m.agents ≡ m.max_concurrent)
            × (after ≡ (m, max_concurrent_reached))
          ⊎ (count_if is_active_agent m.agents < m.max_concurrent) × (after.1 ≡ agent_id id))
unfolding spawn run_agent
spawn-limit id conversation_id task opts now m h =
    elim (Bool-cases (leb m.max_concurrent (count_if is_active_agent m.agents))) [
      | inl full ↦
          let reached = leb→le m.max_concurrent (count_if is_active_agent m.agents) full in
          rw full (h, inl (omega arith, refl))
      | inr free ↦
          let below : count_if is_active_agent m.agents < m.max_concurrent = ground (arith, free) in
          rw free (
            omega (
              arith,
              count_if-spawned is_active_agent _ _
                  (new_instance id conversation_id task opts now m.next_controller) m.agents refl
                  refl,
            ),
            inr (below, refl),
          )
    ]

-- A status is one of the three that a summary counts.
one_count :
    (s : SubAgentStatus)
    → ((is_active s ≡ true) × (is_completed s ≡ false) × (is_failed s ≡ false))
      ⊎ ((is_active s ≡ false) × (is_completed s ≡ true) × (is_failed s ≡ false))
      ⊎ ((is_active s ≡ false) × (is_completed s ≡ false) × (is_failed s ≡ true))
one_count pending = inl (refl, refl, refl)
one_count running = inl (refl, refl, refl)
one_count completed = inr (inl (refl, refl, refl))
one_count failed = inr (inr (refl, refl, refl))
one_count timed_out = inr (inr (refl, refl, refl))
one_count cancelled = inr (inr (refl, refl, refl))

summary_lem :
    (xs : List SubAgentInstance)
    → count_if is_active_agent xs
        + count_if (λ a. is_completed a.meta.status) xs
        + count_if (λ a. is_failed a.meta.status) xs
      ≡ length xs
unfolding count_if
summary_lem [] = refl
summary_lem (x ∷ xs) = elim (one_count x.meta.status) [
  | inl e ↦ rw (e.0, e.1, e.2) (omega (arith, summary_lem xs))
  | inr (inl e) ↦ rw (e.0, e.1, e.2) (omega (arith, summary_lem xs))
  | inr (inr e) ↦ rw (e.0, e.1, e.2) (omega (arith, summary_lem xs))
]

-- The three counts of a summary add up to its total: every agent is counted once.
pub get_summary-total :
    (m : Manager)
    → (get_summary m).running + (get_summary m).completed + (get_summary m).failed
      ≡ (get_summary m).total
unfolding get_summary
get_summary-total m = summary_lem m.agents
