-- ===== src/Sim.antt =====
-- The simulator's side of the gate: the snapshot (`src/acars_bridge/simconnect/monitor.py`) and the
-- reading of the aircraft's electrical state, for MSFS and for X-Plane.
pub mod Snapshot
pub mod Power
