-- ===== src/Common.antt =====
-- What the device and the server share: Src/Common.
pub mod Config
pub mod Log
