-- ===== src/Services.antt =====
-- src/acars_bridge/services: what is done with the messages.
pub mod Fingerprint
pub mod PrintManager
pub mod WireSession
pub mod Ingestion
pub mod StationIdentity
pub mod Outbound
