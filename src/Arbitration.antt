-- ===== src/Arbitration.antt =====
-- Which satellite may handle an utterance (src/nova_voice/audio/arbitration.py).
pub mod Defs
pub mod Exclusion
mod Tests
