-- ===== src/Core/SubAgents/Pruning.antt =====
-- packages/core/src/sub-agent-manager.ts: what `prune` drops.
use cere_worker.Prelude.{ℕ, ◌≤◌, ◌≡◌, filter, filter-filter, arith}
use cere_worker.Core.SubAgents.{Manager, is_active_agent, is_kept, prune}

-- Pruning, with any age, leaves the agents that are pending or running as they are and in their
-- order; and pruning once more at the same time with an age that is no smaller drops no agent.
pub prune-keeps_active :
    (m : Manager) (max_age later_age now : ℕ)
    → max_age ≤ later_age
    → (filter is_active_agent (prune max_age now m).agents ≡ filter is_active_agent m.agents)
      × ((prune later_age now (prune max_age now m)).agents ≡ (prune max_age now m).agents)
unfolding prune
prune-keeps_active m max_age later_age now h = (
  filter-filter is_active_agent (is_kept now max_age) is_active_agent (λ a. ground arith) m.agents,
  filter-filter (is_kept now later_age) (is_kept now max_age) (is_kept now max_age)
      (λ a. ground (arith, h)) m.agents,
)
