-- ===== src/Sessions.antt =====
-- The goals that stay active in a room between turns (src/nova_voice/sessions.py).
pub mod Defs
pub mod Expiry
pub mod Ceiling
mod Tests
