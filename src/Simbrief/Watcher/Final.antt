-- ===== src/Simbrief/Watcher/Final.antt =====
-- `_should_print_final`: whether the final loadsheet prints now, with the marks that it leaves.
use acars_printer.Prelude.{
  ℕ, ◌+◌, Bool, true, false, Option, none, some, ◌&&◌, ◌||◌, leb, if◌then◌else◌,
}
use acars_printer.Prelude.Int.{ℤ, ltb_ℤ}
use acars_printer.Sim.Snapshot.{SimSnapshot, is_true}
use acars_printer.Simbrief.Plan.{FlightPlan}
use acars_printer.Simbrief.Watcher.{
  WatcherState, WatcherConfig, Watcher, has_passed, skips_final_loadsheet,
}

-- The snapshot of an aircraft on the ground.
unfoldable pub ground_of : Option SimSnapshot → Option SimSnapshot
ground_of none = none
ground_of (some s) = if s.connected && s.on_ground then some s else none

unfoldable pub door_of : Option SimSnapshot → Option Bool
door_of none = none
door_of (some s) = s.main_door_open

-- A speed between that of a stop and that of a take-off.
unfoldable pub in_taxi : WatcherConfig → ℤ → Bool
in_taxi c gs = ltb_ℤ c.taxi_gs_min gs && ltb_ℤ gs c.taxi_gs_max

unfoldable pub doors_closed : WatcherConfig → ℕ → WatcherState → Option ℕ → Bool × WatcherState
doors_closed c now st none = (false, record st { doors_closed_since = some now })
doors_closed c now st (some since) = (has_passed since c.door_close now, st)

-- The doors were open, are closed now and stayed so.
unfoldable pub door_step : WatcherConfig → ℕ → Option Bool → WatcherState → Bool × WatcherState
unfolding doors_closed
door_step c now none st = (false, record st { doors_closed_since = none })
door_step c now (some true) st =
    (false, record st { doors_seen_open = true; doors_closed_since = none })
door_step c now (some false) st =
    if st.doors_seen_open
    then doors_closed c now st st.doors_closed_since
    else (false, record st { doors_closed_since = none })

-- The time before the scheduled one.
unfoldable pub is_due : WatcherConfig → ℕ → Option ℕ → Bool
is_due c now_utc none = false
is_due c now_utc (some sched_out) = leb sched_out (now_utc + c.final_before_offblock_seconds)

unfoldable pub rolling_for : WatcherConfig → ℕ → WatcherState → Option ℕ → Bool × WatcherState
rolling_for c now st none = (false, record st { rolling_since = some now })
rolling_for c now st (some since) = (has_passed since c.taxi_roll now, st)

-- A roll on the ground that lasts.
unfoldable pub roll_step :
    WatcherConfig → ℕ → Option SimSnapshot → WatcherState → Bool × WatcherState
unfolding rolling_for
roll_step c now none st = (false, record st { rolling_since = none })
roll_step c now (some s) st =
    if in_taxi c s.ground_velocity_kt
    then rolling_for c now (record st { motion_seen = true }) st.rolling_since
    else (false, record st { rolling_since = none })

unfoldable pub after_door :
    WatcherConfig
    → ℕ
    → ℕ
    → Option SimSnapshot
    → FlightPlan
    → Bool × WatcherState
    → Bool × WatcherState
after_door c now now_utc ground plan (true, st) = (true, st)
after_door c now now_utc ground plan (false, st) =
    if is_true (door_of ground)
    then (false, record st { rolling_since = none })
    else if is_due c now_utc plan.sched_out_utc
    then (true, st)
    else roll_step c now ground st

unfoldable pub final_wanted :
    WatcherConfig → ℕ → ℕ → Option SimSnapshot → Watcher → Option FlightPlan → Bool × WatcherState
unfolding after_door
final_wanted c now now_utc snapshot w none = (false, w.state)
final_wanted c now now_utc snapshot w (some plan) =
    if w.state.final_printed || skips_final_loadsheet w.settings plan || w.gate.blocking
    then (false, w.state)
    else after_door c now now_utc (ground_of snapshot) plan
        (door_step c now (door_of (ground_of snapshot)) w.state)

unfoldable pub should_print_final :
    WatcherConfig → ℕ → ℕ → Option SimSnapshot → Watcher → Bool × WatcherState
unfolding final_wanted after_door
should_print_final c now now_utc snapshot w = final_wanted c now now_utc snapshot w w.state.plan
