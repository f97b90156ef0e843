-- ===== src/Plans.antt =====
-- Persisted plans: their records, leases and transactions (src/nova_voice/durable/models.py,
-- src/nova_voice/durable/store.py) and their runner (src/nova_voice/durable/runner.py).
pub mod Records
pub mod Lease
pub mod Attempts
pub mod Transactions
pub mod Commits
pub mod Runner
pub mod Waves
pub mod Preparation
mod Tests
