-- ===== src/Simbrief/Watcher/Steps.antt =====
-- `tick_local`, `needs_network_poll` and `tick`, and the runs of a watcher: any sequence of ticks, polls,
-- requests of the user, and changes of the settings and of the gate by other parts.
use acars_printer.Prelude.{
  ℕ, Bool, true, false, Option, none, some, List, [], ◌∷◌, not, ◌&&◌, ◌||◌, leb, if◌then◌else◌,
  is_some,
}
use acars_printer.Sim.Snapshot.{SimSnapshot, snapshot_in_world}
use acars_printer.Models.Settings.Store.{SettingsStore}
use acars_printer.Models.Settings.Switches.{simbrief_enabled}
use acars_printer.Models.Settings.Names.{simbrief_user}
use acars_printer.Sterile.Gate.{SterileGate}
use acars_printer.Simbrief.Plan.{FlightPlan, is_fenix_aircraft}
use acars_printer.Simbrief.Watcher.{
  WatcherPhase, polling, final_done, airborne, post_landing, WatcherState, WatcherConfig, Watcher,
  HeldJob, final_trigger, missed_final, is_polling, is_locked, is_post_landing, has_passed,
  print_final,
}
use acars_printer.Simbrief.Watcher.Final.{should_print_final}
use acars_printer.Simbrief.Watcher.Phases.{unlock, update_flight_phase}
use acars_printer.Simbrief.Watcher.Locks.{print_now, poll}

unfoldable pub world_of : Option SimSnapshot → Option SimSnapshot
world_of snapshot = if snapshot_in_world snapshot then snapshot else none

-- The settings let the watcher work.
unfoldable pub is_active : SettingsStore → Bool
is_active s = simbrief_enabled s && is_some (simbrief_user s)

unfoldable pub is_in_flight : WatcherPhase → Bool
is_in_flight polling = false
is_in_flight post_landing = false
is_in_flight _ = true

unfoldable pub is_too_long : WatcherConfig → ℕ → Option ℕ → Bool
is_too_long c now none = false
is_too_long c now (some since) = has_passed since c.max_lock now

-- A lock that is held for too long.
unfoldable pub lock_expired : WatcherConfig → ℕ → WatcherState → Bool
unfolding is_in_flight is_too_long
lock_expired c now st = is_in_flight st.phase && is_too_long c now st.locked_at

unfoldable pub missed_now : Watcher → Option FlightPlan → Watcher
missed_now w none = w
missed_now w (some plan) =
    if is_fenix_aircraft plan || w.gate.sterile
    then w
    else (let printed = print_final missed_final plan w in
        record printed {
          state = record printed.state { missed_final_pending = false; final_printed = true };
        })

-- The final that was missed prints after the landing.
unfoldable pub missed_step : Watcher → Watcher
unfolding missed_now
missed_step w =
    if is_post_landing w.state.phase && w.state.missed_final_pending
    then missed_now w w.state.plan
    else w

unfoldable pub final_of : FlightPlan → Watcher → Bool × WatcherState → Watcher
final_of plan w (false, st) = record w { state = st }
final_of plan w (true, st) =
    let printed = print_final final_trigger plan (record w { state = st }) in
    record printed { state = record printed.state { final_printed = true; phase = final_done } }

unfoldable pub final_now :
    WatcherConfig → ℕ → ℕ → Option SimSnapshot → Watcher → Option FlightPlan → Watcher
unfolding final_of
final_now c now now_utc world w none = w
final_now c now now_utc world w (some plan) =
    if is_fenix_aircraft plan && not w.state.final_printed
    then record w {
      state = record w.state {
        final_printed = true;
        missed_final_pending = false;
        phase = final_done;
      };
    }
    else final_of plan w (should_print_final c now now_utc world w)

unfoldable pub final_step : WatcherConfig → ℕ → ℕ → Option SimSnapshot → Watcher → Watcher
unfolding final_now final_of
final_step c now now_utc world w =
    if is_locked w.state.phase then final_now c now now_utc world w w.state.plan else w

unfoldable pub idle_step : WatcherConfig → ℕ → Option SimSnapshot → Watcher → Watcher
idle_step c now world w = if is_polling w.state.phase then w else update_flight_phase c now world w

-- `tick_local`.
unfoldable pub tick_local : WatcherConfig → ℕ → ℕ → Option SimSnapshot → Watcher → Watcher
unfolding world_of idle_step
tick_local c now now_utc snapshot w =
    let world = world_of snapshot in
    if not (is_active w.settings)
    then idle_step c now world w
    else if lock_expired c now w.state
    then unlock false now w
    else final_step c now now_utc world (missed_step (update_flight_phase c now world w))

unfoldable pub is_airborne : WatcherPhase → Bool
is_airborne airborne = true
is_airborne _ = false

unfoldable pub needs_network_poll : ℕ → Watcher → Bool
unfolding is_airborne
needs_network_poll now w =
    is_active w.settings && not (is_airborne w.state.phase) && leb w.state.next_poll_at now

-- `poll_network_if_due`, with what the server would answer.
unfoldable pub poll_network_if_due : WatcherConfig → ℕ → ℕ → Option FlightPlan → Watcher → Watcher
poll_network_if_due c now now_utc reply w =
    if needs_network_poll now w then poll c now now_utc reply w else w

-- What happens to a watcher, each thing at a time of the clock and of the day.
pub data Event : Type 0 where
  ticked : Option SimSnapshot → Event
  polled : Option FlightPlan → Event
  asked : FlightPlan → Event
  unlocked : Bool → Event
  configured : SettingsStore → Event
  regated : SterileGate HeldJob → Event

pub record Moment : Type 0 where
  pub now : ℕ
  pub now_utc : ℕ
  pub event : Event

unfoldable pub happen : WatcherConfig → ℕ → ℕ → Watcher → Event → Watcher
happen c now now_utc w (ticked snapshot) = tick_local c now now_utc snapshot w
happen c now now_utc w (polled reply) = poll_network_if_due c now now_utc reply w
happen c now now_utc w (asked plan) = print_now now plan w
happen c now now_utc w (unlocked manual) = unlock manual now w
happen c now now_utc w (configured settings) = record w { settings = settings }
happen c now now_utc w (regated gate) = record w { gate = gate }

unfoldable pub run : WatcherConfig → List Moment → Watcher → Watcher
unfolding happen
run c [] w = w
run c (m ∷ ms) w = run c ms (happen c m.now m.now_utc w m.event)
