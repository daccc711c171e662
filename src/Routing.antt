-- ===== src/Routing.antt =====
-- src/core/routing/index.ts: how a failed request is classified, what is done next, and which
-- route of a pool is selected.
pub mod Failure
pub mod Chain
pub mod Request
pub mod Eligibility
pub mod Select
mod Tests
