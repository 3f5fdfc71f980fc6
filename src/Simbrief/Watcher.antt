-- ===== src/Simbrief/Watcher.antt =====
-- `SimBriefWatcher` of src/acars_bridge/simbrief/watcher.py: its state, and the steps that the children
-- put together. The status line, the saved copy of the state and the texts of the tickets are not kept:
-- no decision reads them. The clock counts in ticks, the time of day in seconds. A speed is in thousandths
-- of a knot, as everywhere; the test `taxi_gs_min_kt < gs`, which is strict, takes a speed less than a
-- thousandth above the limit for the limit.
pub mod Final
pub mod Phases
pub mod Locks
pub mod Steps
pub mod Sound
pub mod Account
pub mod Runs
pub mod Ends
pub mod Gated
use acars_printer.Prelude.{
  ℕ, ◌+◌, Bool, true, false, Option, none, some, List, [], ◌∷◌, ◌++◌, not, ◌&&◌, ◌||◌, leb,
  if◌then◌else◌,
}
use acars_printer.Prelude.Int.{ℤ}
use acars_printer.Text.{Text, codes, one_of}
use acars_printer.Models.Settings.Store.{SettingsStore}
use acars_printer.Models.Settings.Kinds.{simbrief_ofp_tickets, simbrief_ofp_ticket_enabled}
use acars_printer.Models.Messages.{StoredMessage}
use acars_printer.Services.PrintManager.{Pairing}
use acars_printer.Sterile.Gate.{SterileGate, Event, run_or_defer_simbrief}
use acars_printer.Simbrief.Plan.{FlightPlan, is_fenix_aircraft}

pub data WatcherPhase : Type 0 where
  polling : WatcherPhase
  locked : WatcherPhase
  final_done : WatcherPhase
  airborne : WatcherPhase
  post_landing : WatcherPhase

pub record WatcherState : Type 0 where
  pub phase : WatcherPhase
  pub ofp_id : Option Text
  pub locked_at : Option ℕ
  pub final_printed : Bool
  pub lock_printed : Bool
  pub motion_seen : Bool
  pub missed_final_pending : Bool
  pub airborne_since : Option ℕ
  pub on_ground_since : Option ℕ
  pub post_landing_since : Option ℕ
  pub rolling_since : Option ℕ
  pub doors_seen_open : Bool
  pub doors_closed_since : Option ℕ
  pub plan : Option FlightPlan
  pub next_poll_at : ℕ
  pub backoff : ℕ

unfoldable pub new_state : ℕ → WatcherState
new_state next_poll_at = record {
  phase = polling;
  ofp_id = none;
  locked_at = none;
  final_printed = false;
  lock_printed = false;
  motion_seen = false;
  missed_final_pending = false;
  airborne_since = none;
  on_ground_since = none;
  post_landing_since = none;
  rolling_since = none;
  doors_seen_open = false;
  doors_closed_since = none;
  plan = none;
  next_poll_at = next_poll_at;
  backoff = 0;
}

pub record WatcherConfig : Type 0 where
  pub poll_ticks : ℕ
  pub final_before_offblock_seconds : ℕ
  pub taxi_gs_min : ℤ
  pub taxi_gs_max : ℤ
  pub taxi_roll : ℕ
  pub door_close : ℕ
  pub airborne_debounce : ℕ
  pub landing_debounce : ℕ
  pub post_landing_grace : ℕ
  pub max_lock : ℕ
  pub sobt_late_grace : ℕ
  pub first_backoff : ℕ
  pub min_backoff : ℕ
  pub max_backoff : ℕ

-- Why a bundle of tickets is printed.
pub data Label : Type 0 where
  on_lock : Label
  print_now_asked : Label
  final_trigger : Label
  missed_final : Label

-- The tickets that print together, by their types.
pub record Bundle : Type 0 where
  pub label : Label
  pub callsign : Text
  pub tickets : List Text

-- A job that the gate runs or holds: a stored message, that is printed or printed again, or tickets.
pub data HeldJob : Type 0 where
  acars_job : StoredMessage → Bool → HeldJob
  simbrief_job : Bundle → HeldJob

-- The watcher with what it writes: the settings, the gate, the state of the pairing code, and the bundles
-- that it gave to the gate, the newest first.
pub record Watcher : Type 0 where
  pub state : WatcherState
  pub settings : SettingsStore
  pub gate : SterileGate HeldJob
  pub pairing : Pairing
  pub bundles : List Bundle

unfoldable pub is_polling : WatcherPhase → Bool
is_polling polling = true
is_polling _ = false

unfoldable pub is_locked : WatcherPhase → Bool
is_locked locked = true
is_locked _ = false

unfoldable pub is_post_landing : WatcherPhase → Bool
is_post_landing post_landing = true
is_post_landing _ = false

abbrev pub callsign_of : Option FlightPlan → Text
callsign_of none = codes "OFP"
callsign_of (some plan) = plan.callsign

-- `_print_bundle`: the gate runs the job or keeps it.
unfoldable pub print_bundle : Label → List Text → Watcher → Watcher
print_bundle label tickets w =
    let bundle : Bundle = record {
      label = label;
      callsign = callsign_of w.state.plan;
      tickets = tickets;
    } in
    let (deferred, gate, events) = run_or_defer_simbrief (simbrief_job bundle) w.gate in
    record w { gate = gate; bundles = bundle ∷ w.bundles }

unfoldable pub skips_final_loadsheet : SettingsStore → FlightPlan → Bool
skips_final_loadsheet s plan =
    if is_fenix_aircraft plan
    then true
    else not (simbrief_ofp_ticket_enabled (codes "loadsheet_final") s)

-- `_print_final`.
unfoldable pub print_final : Label → FlightPlan → Watcher → Watcher
print_final label plan w =
    if is_fenix_aircraft plan
    then w
    else if not (simbrief_ofp_ticket_enabled (codes "loadsheet_final") w.settings)
    then w
    else print_bundle label (codes "loadsheet_final" ∷ []) w

-- `_bundle_fp_prelim`.
unfoldable pub bundle_fp_prelim : SettingsStore → FlightPlan → List Text
bundle_fp_prelim s plan =
    let enabled = simbrief_ofp_tickets s in
    (if one_of enabled (codes "flight_plan") then codes "flight_plan" ∷ [] else [])
    ++ ((if one_of enabled (codes "takeoff_data") then codes "takeoff_data" ∷ [] else [])
        ++ (if one_of enabled (codes "loadsheet_prelim") && not (is_fenix_aircraft plan)
            then codes "loadsheet_prelim" ∷ []
            else []))

-- Whether a duration has passed since a time.
unfoldable pub has_passed : ℕ → ℕ → ℕ → Bool
has_passed since duration now = leb (since + duration) now
