-- ===== src/Tap.antt =====
-- src/acars_bridge/tap: what is read from intercepted exchanges.
pub mod Extract
pub mod Hosts
pub mod Proxy
