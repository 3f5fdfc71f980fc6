-- ===== src/Tests.antt =====
-- Runs of the model at concrete inputs.
pub mod Json
pub mod Gate
pub mod Wire
pub mod Strip
pub mod Rows
pub mod Batch
pub mod Exchange
pub mod Hosts
pub mod Settings
pub mod Outbound
pub mod Simbrief
pub mod Weather
pub mod Proxy
pub mod Bridge
