-- ===== src/Tests.antt =====
-- Runs of the models on concrete data: one for each theorem that has hypotheses.
pub mod Objects
pub mod Engine
mod Server
mod Users
mod Names
mod Tasks
mod Door
mod Rpc
mod System
mod Http
mod Proxy
mod Registrar
mod Network
mod Reset
mod Push
mod Phone
mod Startup
mod Boot
mod Device
mod Log
mod Requests
