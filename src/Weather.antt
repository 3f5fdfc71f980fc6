-- ===== src/Weather.antt =====
-- The weather of a destination: src/acars_bridge/weather.
pub mod AutoWx
pub mod Strips
