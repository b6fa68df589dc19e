-- ===== src/Plan.antt =====
-- backend/core/s01_agent_loop/plan_*.py: the Plan & Execute mode.
pub mod Phase
