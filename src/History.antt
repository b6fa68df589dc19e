-- ===== src/History.antt =====
-- The conversation history: its repair before a request, and the place where it is cut.
pub mod Sanitize
pub mod Orphans
pub mod Checkpoints
pub mod Boundary
pub mod Summaries
pub mod Compressor
pub mod Level2
