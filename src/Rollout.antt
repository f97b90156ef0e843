-- ===== src/Rollout.antt =====
-- The staged release of a component (src/nova_voice/rollout.py, and its records of
-- src/nova_voice/durable/models.py).
pub mod Defs
pub mod Ladder
pub mod Control
mod Tests
