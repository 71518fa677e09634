-- ===== src/Server.antt =====
-- The transmit server: Src/TransmitServer.
pub mod Devices
pub mod Http
pub mod Messages
pub mod Registrar
pub mod PushCenter
pub mod Main
