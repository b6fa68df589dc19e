-- ===== src/Adapters.antt =====
-- backend/adapters: the circuit breaker and the adapter that falls back over several providers.
pub mod Breaker
pub mod Resilient
