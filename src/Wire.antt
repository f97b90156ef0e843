-- ===== src/Wire.antt =====
-- The frames that a satellite and the service exchange, and the greeting that a satellite opens with
-- (src/nova_voice/satellites/protocol.py).
pub mod Bytes
pub mod Struct
pub mod Frames
pub mod Trips
pub mod Greeting
pub mod Admission
mod Tests
