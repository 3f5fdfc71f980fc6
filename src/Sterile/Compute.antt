-- ===== src/Sterile/Compute.antt =====
-- `compute_sterile` and `compute_unpowered` of src/acars_bridge/services/sterile.py.
use acars_printer.Prelude.{
  Bool, true, false, Option, none, some, not, ◌&&◌, or_else, str_eq, if◌then◌else◌,
}
use acars_printer.Prelude.Int.{ℤ, pos, ltb_ℤ, leb_ℤ}
use acars_printer.Sim.Snapshot.{SimSnapshot, in_world}
use acars_printer.Sim.Power.{aircraft_is_powered}

pub record SterileThresholds : Type 0 where
  pub gs_kt : ℤ
  pub agl_ft : ℤ

abbrev pub default_thresholds : SterileThresholds
default_thresholds = record { gs_kt = pos 40000; agl_ft = pos 1500000 }

sterile_in : SimSnapshot → SterileThresholds → Bool
sterile_in s limits =
    if not s.connected
    then false
    else if not (in_world s)
    then false
    else if leb_ℤ limits.agl_ft (pos 0)
    then false
    else if s.on_ground && leb_ℤ limits.gs_kt s.ground_velocity_kt
    then true
    else if not s.on_ground && ltb_ℤ s.alt_agl_ft limits.agl_ft
    then true
    else false

unfoldable pub compute_sterile : Option SimSnapshot → Option SterileThresholds → Bool
unfolding sterile_in
compute_sterile none thresholds = false
compute_sterile (some s) thresholds = sterile_in s (or_else thresholds default_thresholds)

is_xplane : Option SimSnapshot → Bool
is_xplane none = false
is_xplane (some s) = s.connected && str_eq s.source "xplane"

-- `powered is None` is read by `unknown`.
held_without : Bool → Option Bool → Bool
held_without unknown none = unknown
held_without unknown (some powered) = not powered

unfoldable pub compute_unpowered : Option SimSnapshot → Bool → Bool
unfolding is_xplane held_without
compute_unpowered snapshot require_powered =
    if not require_powered
    then false
    else if is_xplane snapshot
    then held_without false (aircraft_is_powered snapshot)
    else held_without true (aircraft_is_powered snapshot)
