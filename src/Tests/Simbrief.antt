-- ===== src/Tests/Simbrief.antt =====
-- The watcher of src/acars_bridge/simbrief/watcher.py at concrete events.
use acars_printer.Prelude.{◌≡◌, refl, true, false, none, some, List, [], ◌∷◌, ◌++◌, arith}
use acars_printer.Prelude.Int.{pos}
use acars_printer.Text.{codes, text_eq, strip, is_space}
use acars_printer.Models.Settings.Store.{SettingsStore, get_key}
use acars_printer.Models.Settings.Names.{simbrief_user, simbrief_last_ofp_id}
use acars_printer.Models.Settings.Switches.{simbrief_enabled}
use acars_printer.Sterile.Gate.{new_gate}
use acars_printer.Simbrief.Plan.{FlightPlan}
use acars_printer.Simbrief.Watcher.{
  WatcherConfig, Watcher, polling, new_state, is_polling, has_passed,
}
use acars_printer.Simbrief.Watcher.Locks.{poll, locked_state}
use acars_printer.Simbrief.Watcher.Steps.{
  Moment, ticked, polled, asked, unlocked, tick_local, is_active, lock_expired,
}
use acars_printer.Simbrief.Watcher.Sound.{finals, locks, owed, is_consistent}
use acars_printer.Simbrief.Watcher.Account.{IsSound}
use acars_printer.Simbrief.Watcher.Ends.{lock_ends, failed_polls, failed_polls_settle}

-- Seconds for ticks, but the pauses in minutes.
abbrev pub config : WatcherConfig
config = record {
  poll_ticks = 60;
  final_before_offblock_seconds = 300;
  taxi_gs_min = pos 3000;
  taxi_gs_max = pos 40000;
  taxi_roll = 10;
  door_close = 2;
  airborne_debounce = 15;
  landing_debounce = 60;
  post_landing_grace = 600;
  max_lock = 28800;
  sobt_late_grace = 3600;
  first_backoff = 1;
  min_backoff = 1;
  max_backoff = 3;
}

abbrev pub flight : FlightPlan
flight = record {
  ofp_id = codes "1700000001";
  callsign = codes "DLH1";
  aircraft_name = codes "A320";
  aircraft_reg = codes "D-AILA";
  origin_icao = codes "EDDF";
  dest_icao = codes "EGLL";
  sched_out_utc = some 1000;
}

abbrev enabled_rows : SettingsStore
enabled_rows = record {
  rows =
      (codes "simbrief_enabled", codes "1")
      ∷ (codes "simbrief_user", codes "pilot")
      ∷ (codes "simbrief_last_ofp_id", codes "1700000001")
      ∷ [];
}

abbrev pub watching : Watcher
watching = record {
  state = new_state 0;
  settings = enabled_rows;
  gate = new_gate none false 8 1 3;
  pairing = record { url = none; emitted = false };
  bundles = [];
}

pub watching-IsSound : IsSound watching
unfolding finals locks owed is_polling is_consistent new_state
watching-IsSound = record { account = omega arith; consistent = refl }

abbrev moments : List Moment
moments =
    record { now = 0; now_utc = 500; event = polled (some flight) }
    ∷ record { now = 1; now_utc = 501; event = asked flight }
    ∷ record { now = 300; now_utc = 800; event = ticked none }
    ∷ record { now = 301; now_utc = 801; event = unlocked true }
    ∷ []

-- A watcher that holds a lock since the start.
abbrev holding : Watcher
holding = record watching { state = locked_state 0 flight (new_state 0) }

holding-is_active : is_active holding.settings ≡ true
unfolding is_active simbrief_enabled simbrief_user text_eq get_key strip is_space
holding-is_active = refl

holding-lock_expired : lock_expired config 28800 holding.state ≡ true
unfolding lock_expired locked_state has_passed
holding-lock_expired = refl

holding-last : simbrief_last_ofp_id holding.settings ≡ some flight.ofp_id
unfolding simbrief_last_ofp_id strip get_key text_eq is_space
holding-last = refl

lock_ends_example :
    ((tick_local config 28800 29000 none holding).state.phase ≡ polling)
    × ((tick_local config 28800 29000 none holding).bundles ≡ [])
    × ((poll config 28900 29100
          (some flight)
          (tick_local config 28800 29000 none holding)).state.phase
        ≡ polling)
    × ((poll config 28900 29100 (some flight) (tick_local config 28800 29000 none holding)).bundles
        ≡ [])
lock_ends_example =
    lock_ends config 28800 29000 28900 29100 none flight holding holding-is_active
      holding-lock_expired holding-last refl

failed_polls_settle_example :
    ((failed_polls config ((1 ∷ 2 ∷ 4 ∷ []) ++ 7 ∷ []) (new_state 0)).backoff ≡ 3)
    × ((failed_polls config ((1 ∷ 2 ∷ 4 ∷ []) ++ 7 ∷ []) (new_state 0)).next_poll_at ≡ 10)
failed_polls_settle_example =
    failed_polls_settle config (1 ∷ 2 ∷ 4 ∷ []) 7 (new_state 0) (omega arith) (omega arith)
