-- ===== src/Agents.antt =====
-- backend/core/s04_sub_agents and the types that it shares: the resolution of dependencies into
-- stages, and the two schedulers that run the stages.
pub mod Stages
pub mod Contract
pub mod Dag
pub mod ReadonlyGuard
pub mod Permissions
pub mod Waves
