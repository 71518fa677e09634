-- ===== src/Device.antt =====
-- The firmware of the device, Src/Device.
pub mod UserTable
pub mod TaskTable
pub mod OperationTable
pub mod World
pub mod Users
pub mod Tasks
pub mod Records
pub mod Door
pub mod Rpc
pub mod System
pub mod Proxy
pub mod Network
pub mod Boot
pub mod Main
