-- ===== src/Tests/Weather.antt =====
-- The weather of src/acars_bridge/weather/auto_wx.py at concrete snapshots.
use acars_printer.Prelude.{ℕ, ◌≤◌, true, false, none, some, [], ◌∷◌}
use acars_printer.Prelude.Int.{pos}
use acars_printer.Text.{codes}
use acars_printer.Models.Settings.Store.{SettingsStore}
use acars_printer.Sim.Snapshot.{SimSnapshot}
use acars_printer.Simbrief.Plan.{FlightPlan}
use acars_printer.Weather.Strips.{Skies, AutoWx}
use acars_printer.Weather.AutoWx.Once.{Sight, prints_of, left_of, prints_once}

abbrev pub flying : SimSnapshot
flying = record {
  connected = true;
  on_ground = false;
  ground_velocity_kt = pos 5000;
  alt_agl_ft = pos 5000;
  latitude = some (pos 50000);
  longitude = some (pos 50000);
  zulu_year = none;
  zulu_month = none;
  zulu_day = none;
  zulu_seconds = none;
  source = "";
  battery_on = none;
  external_power_on = none;
  apu_generator_on = none;
  main_bus_voltage = none;
  electrical = none;
  main_door_open = none;
  in_session = none;
  detail = "";
}

abbrev to_london : FlightPlan
to_london = record {
  ofp_id = codes "77";
  callsign = codes "DLH1";
  aircraft_name = codes "A320";
  aircraft_reg = codes "D-AILA";
  origin_icao = codes "EDDF";
  dest_icao = codes "EGLL";
  sched_out_utc = none;
}

-- Places are numbers, and the aircraft is 30 miles away from each.
abbrev pub clear_skies : Skies ℕ
clear_skies = record {
  distance = λ snap place. 30000;
  airport_coords = λ icao. some 1;
  ivao_atis = λ icao. none;
  vatsim_atis = λ icao. some (codes "ATIS A");
  metar = λ icao. some (codes "EGLL 010000Z");
  taf = λ icao. none;
  stamp = codes "01JAN";
  received_at = codes "2026-01-01";
  bitmap_columns = 32;
  print_raises = λ strip. false;
}

abbrev with_wx : SettingsStore
with_wx = record { rows = (codes "wx_auto_enabled", codes "1") ∷ [] }

abbrev pub nothing_printed : AutoWx ℕ
nothing_printed = record { printed_ofp_ids = []; coord_cache = []; strips = [] }

abbrev sight : Sight ℕ
sight = record {
  skies = clear_skies;
  settings = with_wx;
  blocking = false;
  snap = flying;
  plan = to_london;
}

prints_once_example : prints_of (codes "77") (sight ∷ sight ∷ []) nothing_printed ≤ 1
unfolding left_of
prints_once_example = prints_once (codes "77") (sight ∷ sight ∷ []) nothing_printed
