-- ===== src/Loop.antt =====
-- The agent loop: what a turn does with the calls of the model, and the iterations of a run.
pub mod Failures
pub mod Recovery
pub mod Queue
pub mod Guard
pub mod Writeback
pub mod Review
pub mod Approval
pub mod Turn
pub mod Response
pub mod Run
