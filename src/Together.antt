-- ===== src/Together.antt =====
-- The device and the server together: a packet of CRegProxy at CRegMsgHandler, and its answer back.
pub mod Registration
pub mod Token
pub mod Admission
pub mod Identity
pub mod Relay
pub mod Phone
