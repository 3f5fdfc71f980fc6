-- ===== src/Simbrief.antt =====
-- src/acars_bridge/simbrief: the flight plan that SimBrief gives and when its tickets print.
pub mod Plan
pub mod Watcher
