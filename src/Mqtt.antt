-- ===== src/Mqtt.antt =====
-- iotdevice/transport/mqtt/mqtt.go: the MQTT transport.
pub mod Topics
pub mod Transport
pub mod Requests
pub mod Token
pub mod Twins
pub mod Interface
mod Tests
