-- ===== src/Device/Mux.antt =====
-- iotdevice/mux.go: the three routers of what comes in from the hub. Each operation runs under the
-- mux's mutex and is one step here.
pub mod Handlers
pub mod Messages
pub mod States
pub mod Methods
