-- ===== src/Simbrief/Watcher/Gated.antt =====
-- What the watcher does to the gate: it gives jobs to it, and keeps the gate's invariant.
use acars_printer.Prelude.{
  ℕ, ◌+◌, Bool, true, false, Option, none, some, List, not, ◌&&◌, ◌||◌, if◌then◌else◌, is_some,
  or_else,
}
use acars_printer.Text.{Text, codes}
use acars_printer.Sim.Snapshot.{SimSnapshot}
use acars_printer.Models.Settings.Names.{simbrief_last_ofp_id, simbrief_user}
use acars_printer.Models.Settings.Kinds.{simbrief_ofp_ticket_enabled}
use acars_printer.Sterile.Sound.{IsSound, run_or_defer_simbrief-IsSound}
use acars_printer.Simbrief.Plan.{FlightPlan, is_fenix_aircraft}
use acars_printer.Simbrief.Watcher.{
  WatcherPhase, polling, locked, final_done, airborne, post_landing, WatcherState, WatcherConfig,
  Watcher, Label, print_bundle, print_final, is_polling, is_locked, is_post_landing, has_passed,
  final_trigger, missed_final,
}
use acars_printer.Simbrief.Watcher.Phases.{
  unlock, update_flight_phase, phase_step, on_ground, after_landing, note_motion,
}
use acars_printer.Simbrief.Watcher.Locks.{
  begin_lock, lock_onto, is_relock, print_now, remember, eligible, departed, same_id,
  poll_post_landing, poll_polling, poll_locked, poll_in, poll,
}
use acars_printer.Simbrief.Watcher.Steps.{
  world_of, is_active, lock_expired, missed_now, missed_step, final_of, final_now, final_step,
  idle_step, tick_local, needs_network_poll, poll_network_if_due,
}

abbrev pub GateSound : Watcher → Type 0
GateSound w = IsSound w.gate

if-GateSound :
    (b : Bool) (x y : Watcher) → GateSound x → GateSound y → GateSound (if b then x else y)
if-GateSound true x y h k = h
if-GateSound false x y h k = k

print_bundle-GateSound :
    (label : Label) (tickets : List Text) (w : Watcher)
    → GateSound w
    → GateSound (print_bundle label tickets w)
unfolding print_bundle
print_bundle-GateSound label tickets w h = run_or_defer_simbrief-IsSound _ h

print_final-GateSound :
    (label : Label) (plan : FlightPlan) (w : Watcher)
    → GateSound w
    → GateSound (print_final label plan w)
unfolding print_final
print_final-GateSound label plan w h = if-GateSound (is_fenix_aircraft plan) _ _ h (
    if-GateSound (not (simbrief_ofp_ticket_enabled (codes "loadsheet_final") w.settings)) _ _ h
      (print_bundle-GateSound label _ w h))

pub unlock-GateSound :
    (manual : Bool) (now : ℕ) (w : Watcher) → GateSound w → GateSound (unlock manual now w)
unfolding unlock
unlock-GateSound true now w h = h
unlock-GateSound false now w h = h

on_ground-GateSound :
    (c : WatcherConfig) (now : ℕ) (w : Watcher) (phase : WatcherPhase)
    → GateSound w
    → GateSound (on_ground c now w phase)
unfolding on_ground after_landing
on_ground-GateSound c now w airborne h = h
on_ground-GateSound c now w post_landing h =
    if-GateSound (has_passed (or_else w.state.post_landing_since now) c.post_landing_grace now) _ _
      (unlock-GateSound false now w h) h
on_ground-GateSound c now w polling h = h
on_ground-GateSound c now w locked h = h
on_ground-GateSound c now w final_done h = h

update_flight_phase-GateSound :
    (c : WatcherConfig) (now : ℕ) (world : Option SimSnapshot) (w : Watcher)
    → GateSound w
    → GateSound (update_flight_phase c now world w)
unfolding update_flight_phase phase_step
update_flight_phase-GateSound c now none w h = h
update_flight_phase-GateSound c now (some s) w h = if-GateSound (not s.connected) _ _ h (
    if-GateSound (is_polling (note_motion c s w.state).phase) _ _ h
      (if-GateSound s.on_ground _ _ (on_ground-GateSound c now _ _ h) h))

missed_now-GateSound :
    (w : Watcher) (plan : Option FlightPlan) → GateSound w → GateSound (missed_now w plan)
unfolding missed_now
missed_now-GateSound w none h = h
missed_now-GateSound w (some plan) h =
    if-GateSound (is_fenix_aircraft plan || w.gate.sterile) _ _ h
      (print_final-GateSound missed_final plan w h)

missed_step-GateSound : (w : Watcher) → GateSound w → GateSound (missed_step w)
unfolding missed_step
missed_step-GateSound w h =
    if-GateSound (is_post_landing w.state.phase && w.state.missed_final_pending) _ _
      (missed_now-GateSound w w.state.plan h) h

final_of-GateSound :
    (plan : FlightPlan) (w : Watcher) (r : Bool × WatcherState)
    → GateSound w
    → GateSound (final_of plan w r)
unfolding final_of
final_of-GateSound plan w (false, st) h = h
final_of-GateSound plan w (true, st) h =
    print_final-GateSound final_trigger plan (record w { state = st }) h

final_now-GateSound :
    (c : WatcherConfig) (now now_utc : ℕ) (world : Option SimSnapshot) (w : Watcher)
    (plan : Option FlightPlan)
    → GateSound w
    → GateSound (final_now c now now_utc world w plan)
unfolding final_now
final_now-GateSound c now now_utc world w none h = h
final_now-GateSound c now now_utc world w (some plan) h =
    if-GateSound (is_fenix_aircraft plan && not w.state.final_printed) _ _ h
      (final_of-GateSound plan w _ h)

final_step-GateSound :
    (c : WatcherConfig) (now now_utc : ℕ) (world : Option SimSnapshot) (w : Watcher)
    → GateSound w
    → GateSound (final_step c now now_utc world w)
unfolding final_step
final_step-GateSound c now now_utc world w h =
    if-GateSound (is_locked w.state.phase) _ _
      (final_now-GateSound c now now_utc world w w.state.plan h) h

pub tick_local-GateSound :
    (c : WatcherConfig) (now now_utc : ℕ) (snapshot : Option SimSnapshot) (w : Watcher)
    → GateSound w
    → GateSound (tick_local c now now_utc snapshot w)
unfolding tick_local idle_step
tick_local-GateSound c now now_utc snapshot w h =
    let moved = update_flight_phase-GateSound c now (world_of snapshot) w h in
    if-GateSound (not (is_active w.settings)) _ _
      (if-GateSound (is_polling w.state.phase) _ _ h moved)
      (if-GateSound (lock_expired c now w.state) _ _ (unlock-GateSound false now w h)
        (final_step-GateSound c now now_utc (world_of snapshot) _ (missed_step-GateSound _ moved)))

lock_onto-GateSound :
    (all_three : Bool) (now : ℕ) (plan : FlightPlan) (w : Watcher)
    → GateSound w
    → GateSound (lock_onto all_three now plan w)
unfolding lock_onto begin_lock
lock_onto-GateSound all_three now plan w h =
    if-GateSound (is_relock all_three plan w.state) _ _ h (print_bundle-GateSound _ _ _ h)

pub print_now-GateSound :
    (now : ℕ) (plan : FlightPlan) (w : Watcher) → GateSound w → GateSound (print_now now plan w)
unfolding print_now
print_now-GateSound now plan w h =
    if-GateSound (is_some (simbrief_user w.settings)) _ _ (lock_onto-GateSound true now plan w h) h

poll_in-GateSound :
    (c : WatcherConfig) (now now_utc : ℕ) (plan : FlightPlan) (w : Watcher) (phase : WatcherPhase)
    → GateSound w
    → GateSound (poll_in c now now_utc plan w phase)
unfolding poll_in poll_post_landing poll_polling poll_locked remember
poll_in-GateSound c now now_utc plan w polling h =
    if-GateSound (eligible c now_utc plan w) _ _ (lock_onto-GateSound false now plan w h)
      (if-GateSound (not (same_id (simbrief_last_ofp_id w.settings) plan)) _ _ h h)
poll_in-GateSound c now now_utc plan w post_landing h =
    if-GateSound (eligible c now_utc plan w) _ _
      (lock_onto-GateSound false now plan (unlock false now w) (unlock-GateSound false now w h))
      (if-GateSound
        (not (same_id (simbrief_last_ofp_id w.settings) plan)
          && departed c now_utc plan.sched_out_utc)
        _ _ h h)
poll_in-GateSound c now now_utc plan w locked h =
    if-GateSound _ _ _ (lock_onto-GateSound false now plan w h) h
poll_in-GateSound c now now_utc plan w final_done h =
    if-GateSound _ _ _ (lock_onto-GateSound false now plan w h) h
poll_in-GateSound c now now_utc plan w airborne h =
    if-GateSound _ _ _ (lock_onto-GateSound false now plan w h) h

poll-GateSound :
    (c : WatcherConfig) (now now_utc : ℕ) (reply : Option FlightPlan) (w : Watcher)
    → GateSound w
    → GateSound (poll c now now_utc reply w)
unfolding poll
poll-GateSound c now now_utc none w h = h
poll-GateSound c now now_utc (some plan) w h =
    poll_in-GateSound c now now_utc plan
      (record w { state = record w.state { backoff = 0; next_poll_at = now + c.poll_ticks } })
      w.state.phase h

pub poll_network_if_due-GateSound :
    (c : WatcherConfig) (now now_utc : ℕ) (reply : Option FlightPlan) (w : Watcher)
    → GateSound w
    → GateSound (poll_network_if_due c now now_utc reply w)
unfolding poll_network_if_due
poll_network_if_due-GateSound c now now_utc reply w h =
    if-GateSound (needs_network_poll now w) _ _ (poll-GateSound c now now_utc reply w h) h
