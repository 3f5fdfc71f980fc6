-- ===== src/Weather/AutoWx.antt =====
-- `AutoWxService` of src/acars_bridge/weather/auto_wx.py: the weather of the destination, printed once
-- for a flight plan.
pub mod Marks
pub mod Once
use acars_printer.Prelude.{
  ℕ, zero, suc, ◌+◌, ◌*◌, Bool, true, false, Option, none, some, List, [], ◌∷◌, ◌++◌, length, any,
  not, ◌&&◌, ◌||◌, leb, ltb, if◌then◌else◌, or_else, is_some,
}
use acars_printer.Text.{Text, codes, is_empty, text_eq, one_of, strip, upper, starts_with, split_on}
use acars_printer.Hoppie.Types.{Result, ok, raise}
use acars_printer.Hoppie.Requests.{normalize_icao}
use acars_printer.Sim.Snapshot.{SimSnapshot}
use acars_printer.Printing.Format.{PrinterSettings, format}
use acars_printer.Models.Messages.{StoredMessage}
use acars_printer.Models.Settings.Store.{SettingsStore}
use acars_printer.Models.Settings.Switches.{wx_auto_enabled}
use acars_printer.Models.Settings.Numbers.{wx_auto_nm}
use acars_printer.Models.Settings.Kinds.{wx_auto_kinds}
use acars_printer.Models.Settings.Choices.{AtisSource, atis_source}
use acars_printer.Models.Settings.Printer.{as_printer_settings}
use acars_printer.Simbrief.Plan.{FlightPlan}
use acars_printer.Weather.Strips.{Skies, AutoWx, fetch_bodies, print_bodies}

unfoldable pub should_trigger_dest_wx : ℕ → ℕ → ℕ → Bool → Bool
should_trigger_dest_wx distance_to_dest distance_to_origin threshold on_ground =
    if ltb threshold distance_to_dest then false else not on_ground

module _ {C : Type 0} where
  lookup : Text → List (Text × C) → Option C
  lookup icao [] = none
  lookup icao ((k, coords) ∷ rows) =
      let rest = lookup icao rows in if text_eq k icao then some coords else rest

  cached : Text → Option C → AutoWx C → Option C × AutoWx C
  cached icao none a = (none, a)
  cached icao (some coords) a =
      (some coords, record a { coord_cache = (icao, coords) ∷ a.coord_cache })

  known : Skies C → Text → AutoWx C → Option C → Option C × AutoWx C
  unfolding cached
  known x icao a none = cached icao (x.airport_coords icao) a
  known x icao a (some coords) = (some coords, a)

  -- `_airport_coords`.
  unfoldable pub airport_coords : Skies C → Text → AutoWx C → Option C × AutoWx C
  unfolding lookup known
  airport_coords x icao a = known x icao a (lookup icao a.coord_cache)

  -- An exception leaves the plan unmarked.
  remembered : Text → Option ℕ × AutoWx C → Option ℕ × AutoWx C
  remembered ofp_id (none, a) = (none, a)
  remembered ofp_id (some zero, a) = (some zero, a)
  remembered ofp_id (some (suc n), a) =
      (some (suc n), record a { printed_ofp_ids = ofp_id ∷ a.printed_ofp_ids })

  -- With the places of both airports.
  unfoldable pub arrived :
      Skies C
      → SettingsStore
      → Bool
      → SimSnapshot
      → FlightPlan
      → Text
      → Option C
      → Option C
      → AutoWx C
      → Option ℕ × AutoWx C
  unfolding remembered
  arrived x s blocking snap plan dest none there a = (some 0, a)
  arrived x s blocking snap plan dest (some here) none a = (some 0, a)
  arrived x s blocking snap plan dest (some here) (some there) a =
      if should_trigger_dest_wx (x.distance snap here) (x.distance snap there) (wx_auto_nm s * 1000)
          snap.on_ground
        && not blocking
      then remembered (strip plan.ofp_id)
          (print_bodies x s plan (fetch_bodies x s dest (wx_auto_kinds s)) a)
      else (some 0, a)

  routed :
      Skies C
      → SettingsStore
      → Bool
      → SimSnapshot
      → FlightPlan
      → Result Text
      → Result Text
      → AutoWx C
      → Option ℕ × AutoWx C
  routed x s blocking snap plan (raise e) origin a = (some 0, a)
  routed x s blocking snap plan (ok dest) (raise e) a = (some 0, a)
  routed x s blocking snap plan (ok dest) (ok origin) a =
      let (here, a) = airport_coords x dest a in
      let (there, a) = airport_coords x origin a in arrived x s blocking snap plan dest here there a

  unfoldable pub is_ready : SettingsStore → SimSnapshot → FlightPlan → AutoWx C → Bool
  is_ready s snap plan a =
      let ofp_id = strip plan.ofp_id in
      wx_auto_enabled s
      && ltb 0 (length (wx_auto_kinds s))
      && snap.connected
      && is_some snap.latitude
      && is_some snap.longitude
      && not (is_empty ofp_id)
      && not (one_of a.printed_ofp_ids ofp_id)

  -- `consider`, with what the gate's `is_blocking` is; `none` for an exception, which goes through it.
  unfoldable pub consider :
      Skies C → SettingsStore → Bool → SimSnapshot → FlightPlan → AutoWx C → Option ℕ × AutoWx C
  unfolding is_ready routed
  consider x s blocking snap plan a =
      if is_ready s snap plan a
      then routed x s blocking snap plan (normalize_icao plan.dest_icao)
          (normalize_icao plan.origin_icao) a
      else (some 0, a)
