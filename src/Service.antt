-- ===== src/Service.antt =====
-- Package iotservice: the back-end side.
pub mod Registry
pub mod Keys
pub mod Client
pub mod Send
pub mod Connect
pub mod Closing
pub mod EventHub
pub mod Feedback
pub mod Rest
pub mod Devices
mod Tests
