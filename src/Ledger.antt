-- ===== src/Ledger.antt =====
-- The ledger of companion jobs (src/nova_voice/companion/ledger.py).
pub mod Apply
pub mod Recovery
pub mod Race
mod Alone
mod Sweeping
mod Fallback
mod Tests
