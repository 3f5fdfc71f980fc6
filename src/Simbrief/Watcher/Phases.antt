-- ===== src/Simbrief/Watcher/Phases.antt =====
-- `unlock` and `_update_flight_phase`: the phases of a flight.
use acars_printer.Prelude.{
  ℕ, Bool, true, false, Option, none, some, not, ◌&&◌, if◌then◌else◌, or_else,
}
use acars_printer.Sim.Snapshot.{SimSnapshot}
use acars_printer.Models.Settings.Names.{set_simbrief_last_ofp_id}
use acars_printer.Services.PrintManager.{reset_pairing_qr}
use acars_printer.Simbrief.Watcher.{
  WatcherPhase, polling, locked, final_done, airborne, post_landing, WatcherState, WatcherConfig,
  Watcher, new_state, has_passed, is_polling,
}
use acars_printer.Simbrief.Watcher.Final.{in_taxi}

-- `unlock`: by hand, the same plan may lock again.
unfoldable pub unlock : Bool → ℕ → Watcher → Watcher
unlock manual now w =
    if manual
    then record w {
      state = new_state now;
      settings = set_simbrief_last_ofp_id none w.settings;
      pairing = reset_pairing_qr w.pairing;
    }
    else record w { state = new_state now }

-- What is seen of the motion on the ground.
unfoldable pub note_motion : WatcherConfig → SimSnapshot → WatcherState → WatcherState
note_motion c s st =
    if s.on_ground && in_taxi c s.ground_velocity_kt then record st { motion_seen = true } else st

-- The aircraft took off.
unfoldable pub took_off : WatcherState → WatcherState
took_off st =
    if st.final_printed
    then record st { phase = airborne }
    else record st { phase = airborne; missed_final_pending = true }

unfoldable pub in_air : WatcherConfig → ℕ → WatcherState → WatcherState
unfolding took_off
in_air c now st =
    let since = or_else st.airborne_since now in
    let seen = record st { airborne_since = some since; on_ground_since = none } in
    if has_passed since c.airborne_debounce now
    then elim st.phase [ locked ↦ took_off seen | final_done ↦ took_off seen | _ ↦ seen ]
    else seen

unfoldable pub landed : WatcherConfig → ℕ → WatcherState → WatcherState
landed c now st =
    let since = or_else st.on_ground_since now in
    let seen = record st { on_ground_since = some since } in
    if has_passed since c.landing_debounce now
    then record seen { phase = post_landing; post_landing_since = some now }
    else seen

-- `started = self.state.post_landing_since or now`, where a time is never zero.
unfoldable pub after_landing : WatcherConfig → ℕ → Watcher → Watcher
after_landing c now w =
    if has_passed (or_else w.state.post_landing_since now) c.post_landing_grace now
    then unlock false now w
    else w

unfoldable pub on_ground : WatcherConfig → ℕ → Watcher → WatcherPhase → Watcher
on_ground c now w airborne = record w { state = landed c now w.state }
on_ground c now w post_landing = after_landing c now w
on_ground c now w polling = w
on_ground c now w locked = w
on_ground c now w final_done = w

unfoldable pub phase_step : WatcherConfig → ℕ → SimSnapshot → Watcher → Watcher
unfolding on_ground
phase_step c now s w =
    if is_polling w.state.phase
    then w
    else if s.on_ground
    then on_ground c now w w.state.phase
    else record w { state = in_air c now w.state }

-- `_update_flight_phase`.
unfoldable pub update_flight_phase : WatcherConfig → ℕ → Option SimSnapshot → Watcher → Watcher
unfolding phase_step on_ground
update_flight_phase c now none w = w
update_flight_phase c now (some s) w =
    if not s.connected then w else phase_step c now s (record w { state = note_motion c s w.state })
