-- ===== src/Commitments.antt =====
-- Reminders of the household: their recurrence, their polling and what is done with them
-- (src/nova_voice/commitments.py).
pub mod Calendar
pub mod Recurrence
pub mod Defs
pub mod Overlaps
mod Tests
