-- ===== src/Recovery.antt =====
-- src/core/recovery: recovery after a run that broke off in its changes.
pub mod Classify
pub mod Decision
pub mod Orchestrate
pub mod Budget
mod Tests
