-- ===== src/Router.antt =====
-- internal/orchestrator: what guards the request path.
pub mod Breaker
pub mod Gate
pub mod ClientLimits
pub mod Capacity
