-- ===== src/Sim/Snapshot.antt =====
-- `SimSnapshot`, `snapshot_in_world` and `CompositeSimMonitor.snapshot` of
-- src/acars_bridge/simconnect/monitor.py. A float is its floor in thousandths: every comparison
-- that the code makes is with a multiple of a thousandth, so the floor decides it.
use acars_printer.Prelude.{
  ℕ, String, Bool, true, false, Option, none, some, not, List, str_eq, if◌then◌else◌, or_else,
}
use acars_printer.Prelude.Int.{ℤ}

pub record SimSnapshot : Type 0 where
  pub connected : Bool
  pub on_ground : Bool
  pub ground_velocity_kt : ℤ
  pub alt_agl_ft : ℤ
  pub latitude : Option ℤ
  pub longitude : Option ℤ
  pub zulu_year : Option ℕ
  pub zulu_month : Option ℕ
  pub zulu_day : Option ℕ
  pub zulu_seconds : Option ℤ
  pub source : String
  pub battery_on : Option Bool
  pub external_power_on : Option Bool
  pub apu_generator_on : Option Bool
  pub main_bus_voltage : Option ℤ
  pub electrical : Option (List (String × ℤ))
  pub main_door_open : Option Bool
  pub in_session : Option Bool
  pub detail : String

-- `x is True` on an optional flag.
abbrev pub is_true : Option Bool → Bool
is_true o = or_else o false

unfoldable pub in_world : SimSnapshot → Bool
in_world s =
    if not s.connected
    then false
    else if str_eq s.source "simconnect"
    then is_true s.in_session
    else true

unfoldable pub snapshot_in_world : Option SimSnapshot → Bool
unfolding in_world
snapshot_in_world none = false
snapshot_in_world (some s) = in_world s

-- `CompositeSimMonitor.snapshot`, given what the two monitors return.
is_connected : Option SimSnapshot → Bool
is_connected none = false
is_connected (some s) = s.connected

has_detail : Option SimSnapshot → Bool
has_detail none = false
has_detail (some s) = not (str_eq s.detail "")

unfoldable pub composite_snapshot : Option SimSnapshot → Option SimSnapshot → Option SimSnapshot
unfolding is_connected has_detail
composite_snapshot primary fallback =
    if is_connected primary
    then primary
    else if is_connected fallback
    then fallback
    else if has_detail fallback
    then fallback
    else primary
