-- ===== src/Models.antt =====
-- src/acars_bridge/models: what the database keeps.
pub mod Messages
pub mod Settings
