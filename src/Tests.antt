-- ===== src/Tests.antt =====
-- Runs of the definitions on small inputs, and the theorems at such inputs.
mod CronTests
mod HistoryTests
mod StageTests
mod PlanTests
mod GateTests
mod RegistryTests
mod AdapterTests
mod StoreTests
mod QueueTests
mod ExecutorTests
mod LoopTests
mod AgentTests
