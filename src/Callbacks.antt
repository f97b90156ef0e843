-- ===== src/Callbacks.antt =====
-- The tool calls that a reasoning job asks for (src/nova_voice/companion/callbacks.py).
pub mod Defs
pub mod Laws
mod Tests
