-- ===== src/Durable.antt =====
-- The durable store (src/nova_voice/durable/store.py).
pub mod Store
pub mod Laws
pub mod Audit
mod Tests
