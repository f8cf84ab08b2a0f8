-- ===== src/Governed.antt =====
-- novena_gateway/gateway/governed_commands.py: signed remote control of field devices.
pub mod Journal
pub mod Guard
pub mod Validate
pub mod Samples
mod Tests
pub mod Prerequisites
