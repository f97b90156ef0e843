-- ===== src/Approvals.antt =====
-- The gate where an owner decides on a proposed mutation (src/nova_voice/companion/approvals.py).
pub mod Gate
pub mod Decisions
pub mod Runs
mod Tests
