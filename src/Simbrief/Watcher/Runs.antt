-- ===== src/Simbrief/Watcher/Runs.antt =====
-- Every run of the watcher keeps the account: no more final loadsheets than locks.
use acars_printer.Prelude.{
  ℕ, ◌≤◌, ◌≡◌, refl, Bool, true, false, Option, none, some, not, ◌&&◌, if◌then◌else◌, arith,
  or_else, is_some,
}
use acars_printer.Sim.Snapshot.{SimSnapshot}
use acars_printer.Models.Settings.Names.{
  simbrief_user, simbrief_last_ofp_id, set_simbrief_last_ofp_id,
}
use acars_printer.Simbrief.Plan.{FlightPlan}
use acars_printer.Simbrief.Watcher.{
  WatcherPhase, polling, locked, final_done, airborne, post_landing, WatcherState, WatcherConfig,
  Watcher, Label, on_lock, print_now_asked, is_polling, has_passed, print_bundle,
  skips_final_loadsheet,
}
use acars_printer.Simbrief.Watcher.Phases.{
  unlock, note_motion, after_landing, on_ground as ground_step, phase_step, update_flight_phase,
}
use acars_printer.Simbrief.Watcher.Locks.{
  locked_state, after_bundle, begin_lock, lock_onto, print_now, failed_poll, poll, poll_in,
  poll_post_landing, poll_polling, poll_locked, remember, is_relock, eligible, same_id, departed,
}
use acars_printer.Simbrief.Watcher.Steps.{
  idle_step, is_active, lock_expired, needs_network_poll, tick_local, poll_network_if_due, Event,
  ticked, polled, asked, unlocked, configured, regated, happen, world_of,
}
use acars_printer.Simbrief.Watcher.Account.{
  IsSound, calm-IsSound, missed_step-IsSound, final_step-IsSound,
}
use acars_printer.Simbrief.Watcher.Sound.{
  is_final, finals, final_tickets-bundle_fp_prelim, locks, owed, is_consistent, SameMarks,
  SameMarks-IsCalm, new_state-IsCalm, note_motion-IsCalm, in_air-IsCalm, landed-IsCalm,
}

-- The steps that print nothing.
unlock-IsSound : (manual : Bool) (now : ℕ) (w : Watcher) → IsSound w → IsSound (unlock manual now w)
unfolding unlock
unlock-IsSound true now w h = calm-IsSound w _ refl (new_state-IsCalm now w.state) h
unlock-IsSound false now w h = calm-IsSound w _ refl (new_state-IsCalm now w.state) h

if-IsSound :
    (b : Bool) (x y : Watcher)
    → (b ≡ true → IsSound x)
    → (b ≡ false → IsSound y)
    → IsSound (if b then x else y)
if-IsSound true x y h k = h refl
if-IsSound false x y h k = k refl

ground_step-IsSound :
    (c : WatcherConfig) (now : ℕ) (w : Watcher) (phase : WatcherPhase)
    → is_polling w.state.phase ≡ false
    → IsSound w
    → IsSound (ground_step c now w phase)
unfolding ground_step after_landing
ground_step-IsSound c now w airborne p h = calm-IsSound w _ refl (landed-IsCalm c now w.state p) h
ground_step-IsSound c now w post_landing p h =
    if-IsSound (has_passed (or_else w.state.post_landing_since now) c.post_landing_grace now) _ _
      (λ e. unlock-IsSound false now w h) (λ e. h)
ground_step-IsSound c now w polling p h = h
ground_step-IsSound c now w locked p h = h
ground_step-IsSound c now w final_done p h = h

phase_step-IsSound :
    (c : WatcherConfig) (now : ℕ) (s : SimSnapshot) (w : Watcher)
    → IsSound w
    → IsSound (phase_step c now s w)
unfolding phase_step
phase_step-IsSound c now s w h =
    if-IsSound (is_polling w.state.phase) _ _ (λ e. h)
      λ p.
        if-IsSound s.on_ground _ _ (λ e. ground_step-IsSound c now w w.state.phase p h)
          λ e. calm-IsSound w _ refl (in_air-IsCalm c now w.state) h

update_flight_phase-IsSound :
    (c : WatcherConfig) (now : ℕ) (world : Option SimSnapshot) (w : Watcher)
    → IsSound w
    → IsSound (update_flight_phase c now world w)
unfolding update_flight_phase
update_flight_phase-IsSound c now none w h = h
update_flight_phase-IsSound c now (some s) w h =
    if-IsSound (not s.connected) _ _ (λ e. h)
      λ e.
        phase_step-IsSound c now s (record w { state = note_motion c s w.state })
          (calm-IsSound w _ refl (note_motion-IsCalm c s w.state) h)

tick_local-IsSound :
    (c : WatcherConfig) (now now_utc : ℕ) (snapshot : Option SimSnapshot) (w : Watcher)
    → IsSound w
    → IsSound (tick_local c now now_utc snapshot w)
unfolding tick_local idle_step
tick_local-IsSound c now now_utc snapshot w h =
    let moved = update_flight_phase-IsSound c now (world_of snapshot) w h in
    if-IsSound (not (is_active w.settings)) _ _
      (λ e. if-IsSound (is_polling w.state.phase) _ _ (λ p. h) (λ p. moved))
      λ e.
        if-IsSound (lock_expired c now w.state) _ _ (λ x. unlock-IsSound false now w h)
          λ x. final_step-IsSound c now now_utc (world_of snapshot) _ (missed_step-IsSound _ moved)

-- A lock adds one to the locks, and owes at most one final.
owed-below : (st : WatcherState) → owed st ≤ 1
unfolding owed
owed-below st = ground arith

after_bundle-consistent :
    (skips : Bool) (st : WatcherState)
    → st.missed_final_pending ≡ false
    → is_consistent (after_bundle skips st) ≡ true
unfolding after_bundle is_consistent
after_bundle-consistent true st h = rw h refl
after_bundle-consistent false st h = rw h refl

begin_lock-IsSound :
    (label : Label) (now : ℕ) (plan : FlightPlan) (w : Watcher)
    → is_final label ≡ false
    → IsSound w
    → IsSound (begin_lock label now plan w)
unfolding begin_lock print_bundle finals locks
begin_lock-IsSound label now plan w f h =
    let account = h.account in
    let settings = set_simbrief_last_ofp_id (some plan.ofp_id) w.settings in
    let after =
      after_bundle (skips_final_loadsheet settings plan) (locked_state now plan w.state) in
    let owing = owed-below after in
    let no_final = final_tickets-bundle_fp_prelim settings plan in
    record {
      account = rw (f, no_final) (omega arith);
      consistent = after_bundle-consistent _ _ (unfold locked_state in refl);
    }

label_is_lock :
    (all_three : Bool) → is_final (if all_three then print_now_asked else on_lock) ≡ false
unfolding is_final
label_is_lock true = refl
label_is_lock false = refl

lock_onto-IsSound :
    (all_three : Bool) (now : ℕ) (plan : FlightPlan) (w : Watcher)
    → IsSound w
    → IsSound (lock_onto all_three now plan w)
unfolding lock_onto
lock_onto-IsSound all_three now plan w h =
    let same : SameMarks w.state (record w.state { plan = some plan; ofp_id = some plan.ofp_id }) =
      record { phase_kept = refl; final_kept = refl; pending_kept = refl } in
    if-IsSound (is_relock all_three plan w.state) _ _
      (λ e. calm-IsSound w _ refl (SameMarks-IsCalm w.state _ same) h)
      λ e. begin_lock-IsSound _ now plan w (label_is_lock all_three) h

print_now-IsSound :
    (now : ℕ) (plan : FlightPlan) (w : Watcher) → IsSound w → IsSound (print_now now plan w)
unfolding print_now
print_now-IsSound now plan w h =
    if-IsSound (is_some (simbrief_user w.settings)) _ _ (λ e. lock_onto-IsSound true now plan w h)
      λ e. h

poll_in-IsSound :
    (c : WatcherConfig) (now now_utc : ℕ) (plan : FlightPlan) (w : Watcher) (phase : WatcherPhase)
    → IsSound w
    → IsSound (poll_in c now now_utc plan w phase)
unfolding poll_in poll_post_landing poll_polling poll_locked remember
poll_in-IsSound c now now_utc plan w polling h =
    if-IsSound (eligible c now_utc plan w) _ _ (λ e. lock_onto-IsSound false now plan w h)
      λ e.
        if-IsSound (not (same_id (simbrief_last_ofp_id w.settings) plan)) _ _
          (λ x. record { account = h.account; consistent = h.consistent }) λ x. h
poll_in-IsSound c now now_utc plan w post_landing h =
    if-IsSound (eligible c now_utc plan w) _ _
      (λ e. lock_onto-IsSound false now plan (unlock false now w) (unlock-IsSound false now w h))
      λ e.
        if-IsSound
          (not (same_id (simbrief_last_ofp_id w.settings) plan)
            && departed c now_utc plan.sched_out_utc)
          _ _ (λ x. record { account = h.account; consistent = h.consistent }) λ x. h
poll_in-IsSound c now now_utc plan w locked h =
    if-IsSound _ _ _ (λ e. lock_onto-IsSound false now plan w h) λ e. h
poll_in-IsSound c now now_utc plan w final_done h =
    if-IsSound _ _ _ (λ e. lock_onto-IsSound false now plan w h) λ e. h
poll_in-IsSound c now now_utc plan w airborne h =
    if-IsSound _ _ _ (λ e. lock_onto-IsSound false now plan w h) λ e. h

poll-IsSound :
    (c : WatcherConfig) (now now_utc : ℕ) (reply : Option FlightPlan) (w : Watcher)
    → IsSound w
    → IsSound (poll c now now_utc reply w)
unfolding poll failed_poll
poll-IsSound c now now_utc none w h =
    calm-IsSound w _ refl
      (SameMarks-IsCalm w.state _
        record { phase_kept = refl; final_kept = refl; pending_kept = refl })
      h
poll-IsSound c now now_utc (some plan) w h = poll_in-IsSound c now now_utc plan _ w.state.phase (
    calm-IsSound w _ refl
      (SameMarks-IsCalm w.state _
        record { phase_kept = refl; final_kept = refl; pending_kept = refl })
      h)

pub happen-IsSound :
    (c : WatcherConfig) (now now_utc : ℕ) (w : Watcher) (event : Event)
    → IsSound w
    → IsSound (happen c now now_utc w event)
unfolding happen poll_network_if_due
happen-IsSound c now now_utc w (ticked snapshot) h = tick_local-IsSound c now now_utc snapshot w h
happen-IsSound c now now_utc w (polled reply) h =
    if-IsSound (needs_network_poll now w) _ _ (λ e. poll-IsSound c now now_utc reply w h) λ e. h
happen-IsSound c now now_utc w (asked plan) h = print_now-IsSound now plan w h
happen-IsSound c now now_utc w (unlocked manual) h = unlock-IsSound manual now w h
happen-IsSound c now now_utc w (configured settings) h = record {
  account = h.account;
  consistent = h.consistent;
}
happen-IsSound c now now_utc w (regated gate) h = record {
  account = h.account;
  consistent = h.consistent;
}
