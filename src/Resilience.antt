-- ===== src/Resilience.antt =====
-- packages/resilience: the circuit breaker.
pub mod Breaker
