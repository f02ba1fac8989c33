-- ===== src/Resilience.antt =====
-- shared/resilience: the circuit breaker, the retry loop with its backoff, and the bulkhead.
pub mod Breaker
pub mod Retry
pub mod Bulkhead
