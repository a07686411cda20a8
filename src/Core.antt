-- ===== src/Core.antt =====
-- packages/core/src: the stores and controllers of the agent.
pub mod Pairing
pub mod ToolRuntime
pub mod SubAgents
pub mod PlanStore
pub mod Conversation
pub mod Orchestrator
pub mod TaskRunner
pub mod Proactive
pub mod TextStore
