-- ===== src/Resilience.antt =====
-- The guards of tta/resilience.
pub mod Clock
pub mod CircuitBreaker
pub mod RateLimiter
pub mod AntiAbuse
