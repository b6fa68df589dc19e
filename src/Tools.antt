-- ===== src/Tools.antt =====
-- backend/core/s02_tools: the registry of tools, the gate that signs and verifies calls, and the
-- executor. backend/core/s01_agent_loop/tool_batching.py stands with them.
pub mod Registry
pub mod Gate
pub mod Executor
pub mod Batching
