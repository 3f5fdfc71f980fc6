-- ===== src/Sterile.antt =====
-- src/acars_bridge/services/sterile.py: when a print is held, the gate with its two queues, and what
-- holds of it.
pub mod Compute
pub mod Gate
pub mod Sound
pub mod Flush
pub mod Queue
pub mod Settle
pub mod Stale
