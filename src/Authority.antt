-- ===== src/Authority.antt =====
-- Roles of the household and standing grants (src/nova_voice/authority.py, with the records of
-- src/nova_voice/durable/models.py).
pub mod Defs
pub mod Laws
