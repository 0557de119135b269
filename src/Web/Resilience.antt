-- ===== src/Web/Resilience.antt =====
-- klauthed-web/src/resilience: the circuit breaker and the retry policy.
pub mod Breaker
pub mod Retry
