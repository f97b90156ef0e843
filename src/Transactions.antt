-- ===== src/Transactions.antt =====
-- Purchases that the household proposes, approves or covers by a standing budget, and their commits
-- through a transport (src/nova_voice/transactions.py).
pub mod Records
pub mod Manager
pub mod Endings
pub mod Pending
pub mod Warrants
pub mod Once
pub mod Tables
pub mod Money
pub mod Overlaps
mod Tests
