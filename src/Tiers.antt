-- ===== src/Tiers.antt =====
-- The participation tier of a companion device (src/nova_voice/companion/tiers.py).
pub mod Defs
pub mod Streaks
mod Tests
