-- ===== src/Bridge.antt =====
-- The bridge process: src/acars_bridge/bridge.
pub mod Events
pub mod Runtime
