-- ===== src/Device.antt =====
-- Package iotdevice: the device side.
pub mod Transport
pub mod Session
pub mod Once
pub mod Mux
pub mod Options
pub mod Send
pub mod Connect
pub mod Background
pub mod Client
mod Tests
