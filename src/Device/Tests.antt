-- ===== src/Device/Tests.antt =====
-- The theorems of Device at concrete inputs.
mod Muxes
mod Connections
mod Clients
