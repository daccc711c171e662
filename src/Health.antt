-- ===== src/Health.antt =====
-- src/core/health/index.ts: the persisted health of routes, its cooldowns and circuits.
pub mod Record
pub mod Store
mod Tests
