-- ===== src/Common.antt =====
-- Package common: what the device side and the service side share.
pub mod Credentials
pub mod Sas
pub mod Message
pub mod AmqpMessage
mod Tests
