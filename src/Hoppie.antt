-- ===== src/Hoppie.antt =====
-- src/acars_bridge/hoppie: the wire protocol of Hoppie, read and written.
pub mod Types
pub mod Sanitize
pub mod AtisText
pub mod Cpdlc
pub mod Blocks
pub mod Parser
pub mod Requests
