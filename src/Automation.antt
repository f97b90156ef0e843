-- ===== src/Automation.antt =====
-- Automations that the household's owner drafts, simulates, approves, activates and rolls back
-- (src/nova_voice/automation.py).
pub mod Defs
pub mod Lifecycle
mod Tests
