-- ===== src/Simbrief/Watcher/Locks.antt =====
-- `_lock_onto`, `print_now` and `_poll`: how a plan is locked. What the server answers is an argument,
-- `none` for a `SimBriefError`.
use acars_printer.Prelude.{
  ℕ, ◌+◌, ◌*◌, Bool, true, false, Option, none, some, not, ◌&&◌, ltb, min, max, ◌==◌, if◌then◌else◌,
  is_some,
}
use acars_printer.Text.{Text, codes, is_empty, text_eq}
use acars_printer.Models.Settings.Names.{
  simbrief_user, simbrief_last_ofp_id, set_simbrief_last_ofp_id,
}
use acars_printer.Simbrief.Plan.{FlightPlan, is_eligible_for_autoprint}
use acars_printer.Simbrief.Watcher.{
  WatcherPhase, polling, locked, final_done, post_landing, WatcherState, WatcherConfig, Watcher,
  Label, on_lock, print_now_asked, skips_final_loadsheet, print_bundle, bundle_fp_prelim, is_locked,
}
use acars_printer.Simbrief.Watcher.Phases.{unlock}

unfoldable pub same_id : Option Text → FlightPlan → Bool
same_id none plan = false
same_id (some id) plan = text_eq plan.ofp_id id

-- The state of a lock that begins now.
unfoldable pub locked_state : ℕ → FlightPlan → WatcherState → WatcherState
locked_state now plan st = record st {
  plan = some plan;
  ofp_id = some plan.ofp_id;
  phase = locked;
  locked_at = some now;
  final_printed = false;
  motion_seen = false;
  missed_final_pending = false;
  airborne_since = none;
  on_ground_since = none;
  post_landing_since = none;
  rolling_since = none;
  doors_seen_open = false;
  doors_closed_since = none;
}

-- After the tickets of a lock: there is no final to come when it is skipped.
unfoldable pub after_bundle : Bool → WatcherState → WatcherState
after_bundle skips st =
    if skips
    then record st { lock_printed = true; final_printed = true; phase = final_done }
    else record st { lock_printed = true }

unfoldable pub begin_lock : Label → ℕ → FlightPlan → Watcher → Watcher
begin_lock label now plan w =
    let fresh = record w {
      state = locked_state now plan w.state;
      settings = set_simbrief_last_ofp_id (some plan.ofp_id) w.settings;
    } in
    let printed = print_bundle label (bundle_fp_prelim fresh.settings plan) fresh in
    record printed {
      state = after_bundle (skips_final_loadsheet fresh.settings plan) printed.state;
    }

-- The plan that is locked already has its tickets.
unfoldable pub is_relock : Bool → FlightPlan → WatcherState → Bool
is_relock print_all_three plan st =
    not print_all_three && st.lock_printed && not (is_empty plan.ofp_id) && same_id st.ofp_id plan

unfoldable pub lock_onto : Bool → ℕ → FlightPlan → Watcher → Watcher
lock_onto print_all_three now plan w =
    if is_relock print_all_three plan w.state
    then record w { state = record w.state { plan = some plan; ofp_id = some plan.ofp_id } }
    else begin_lock (if print_all_three then print_now_asked else on_lock) now plan w

-- `print_now` with the plan that the server answers. Without a user it raises `SimBriefError`.
unfoldable pub print_now : ℕ → FlightPlan → Watcher → Watcher
print_now now plan w = if is_some (simbrief_user w.settings) then lock_onto true now plan w else w

-- The pause after one more error.
unfoldable pub next_backoff : WatcherConfig → ℕ → ℕ
next_backoff c backoff =
    min c.max_backoff (max c.min_backoff ((if backoff == 0 then c.first_backoff else backoff) * 2))

unfoldable pub failed_poll : WatcherConfig → ℕ → WatcherState → WatcherState
failed_poll c now st =
    let backoff = next_backoff c st.backoff in
    record st { backoff = backoff; next_poll_at = now + backoff }

unfoldable pub remember : FlightPlan → Watcher → Watcher
remember plan w = record w { settings = set_simbrief_last_ofp_id (some plan.ofp_id) w.settings }

-- A departure that is too long ago.
unfoldable pub departed : WatcherConfig → ℕ → Option ℕ → Bool
departed c now_utc none = false
departed c now_utc (some sched_out) = ltb (sched_out + c.sobt_late_grace) now_utc

unfoldable pub eligible : WatcherConfig → ℕ → FlightPlan → Watcher → Bool
eligible c now_utc plan w =
    is_eligible_for_autoprint plan now_utc (simbrief_last_ofp_id w.settings) c.sobt_late_grace

unfoldable pub poll_post_landing : WatcherConfig → ℕ → ℕ → FlightPlan → Watcher → Watcher
unfolding eligible departed remember
poll_post_landing c now now_utc plan w =
    if eligible c now_utc plan w
    then lock_onto false now plan (unlock false now w)
    else if not (same_id (simbrief_last_ofp_id w.settings) plan)
        && departed c now_utc plan.sched_out_utc
    then remember plan w
    else w

unfoldable pub poll_polling : WatcherConfig → ℕ → ℕ → FlightPlan → Watcher → Watcher
unfolding eligible remember
poll_polling c now now_utc plan w =
    if eligible c now_utc plan w
    then lock_onto false now plan w
    else if not (same_id (simbrief_last_ofp_id w.settings) plan)
    then remember plan w
    else w

unfoldable pub id_text : Option Text → Text
id_text none = codes ""
id_text (some id) = id

-- A new plan replaces the locked one before the aircraft moves and the final prints.
unfoldable pub poll_locked : ℕ → FlightPlan → Watcher → Watcher
unfolding id_text
poll_locked now plan w =
    if not (is_empty (id_text w.state.ofp_id))
      && not (same_id w.state.ofp_id plan)
      && is_locked w.state.phase
      && not w.state.motion_seen
      && not w.state.final_printed
    then lock_onto false now plan w
    else w

unfoldable pub poll_in : WatcherConfig → ℕ → ℕ → FlightPlan → Watcher → WatcherPhase → Watcher
unfolding poll_post_landing poll_polling poll_locked
poll_in c now now_utc plan w post_landing = poll_post_landing c now now_utc plan w
poll_in c now now_utc plan w polling = poll_polling c now now_utc plan w
poll_in c now now_utc plan w _ = poll_locked now plan w

-- `_poll`.
unfoldable pub poll : WatcherConfig → ℕ → ℕ → Option FlightPlan → Watcher → Watcher
unfolding poll_in poll_post_landing poll_polling poll_locked eligible departed remember id_text
poll c now now_utc none w = record w { state = failed_poll c now w.state }
poll c now now_utc (some plan) w =
    let w = record w {
      state = record w.state { backoff = 0; next_poll_at = now + c.poll_ticks };
    } in
    poll_in c now now_utc plan w w.state.phase
