-- ===== src/Bridge/Runtime.antt =====
-- `BridgeRuntime` of src/acars_bridge/bridge/runtime.py: the pulse that moves the gate, the SimBrief
-- watcher and the automatic weather, the polls of its worker, and the commands that print. The gate of
-- the session is that of the watcher. A job that the gate runs in place is named in the answer; the
-- print manager does it. The pool holds the polls that wait for the worker. A pulse, a poll and a command
-- are one step each: a switch between the threads within one is not modelled.
pub mod Acts
pub mod Watching
pub mod Sound
use acars_printer.Prelude.{
  ℕ, ◌+◌, ◌-◌, ◌==◌, Bool, true, false, Option, none, some, List, [], ◌∷◌, ◌++◌, not, ◌&&◌, ◌||◌,
  if◌then◌else◌, is_some,
}
use acars_printer.Text.{Text, codes, to_decimal}
use acars_printer.Sim.Snapshot.{SimSnapshot}
use acars_printer.Models.Messages.{
  StoredMessage, Database, get, clear_all, latest_successfully_printed,
}
use acars_printer.Models.Settings.Switches.{wx_auto_enabled, auto_print, set_auto_print}
use acars_printer.Models.Settings.Names.{simbrief_user}
use acars_printer.Sterile.Gate.{update_from_snapshot, run_or_defer_acars}
use acars_printer.Simbrief.Plan.{FlightPlan}
use acars_printer.Simbrief.Watcher.{WatcherConfig, Watcher, HeldJob, acars_job}
use acars_printer.Simbrief.Watcher.Phases.{unlock}
use acars_printer.Simbrief.Watcher.Locks.{print_now}
use acars_printer.Simbrief.Watcher.Steps.{tick_local, needs_network_poll, poll_network_if_due}
use acars_printer.Weather.Strips.{Skies, AutoWx}
use acars_printer.Weather.AutoWx.{consider}
use acars_printer.Bridge.Events.{
  BridgeEvent, status, toast, push_events, power_sterile_toasts, TapStatus, on_tap_update,
  on_new_messages, drain_events,
}

pub record Runtime (C : Type 0) : Type 0 where
  pub watcher : Watcher
  pub weather : AutoWx C
  pub database : Database
  pub events : List BridgeEvent
  pub seeded : Bool
  pub poll_pending : Bool
  pub pool : ℕ
  pub closed : Bool
  pub user_check_pending : Bool

-- What the runtime reads at one pulse: the clock, the time of day, the simulator, and what other servers
-- would say about the weather.
pub record Pulse (C : Type 0) : Type 0 where
  pub now : ℕ
  pub now_utc : ℕ
  pub snap : Option SimSnapshot
  pub skies : Skies C

-- The answer of a command: a job that was started stands for what it returned, and an error is without
-- the traceback that `handle` appends.
pub data Reply : Type 0 where
  done : Reply
  told : Text → Reply
  answered : Bool → Reply
  deferred : Reply
  printed : HeldJob → Reply
  failed : Text → Reply

-- What the SimBrief server answers to `print_now`: a plan, or the text of its error.
pub data Fetch : Type 0 where
  plan_of : FlightPlan → Fetch
  simbrief_error : Text → Fetch

is_connected : Option SimSnapshot → Bool
is_connected none = false
is_connected (some s) = s.connected

module _ {C : Type 0} where
  unfoldable pub emit : List BridgeEvent → Runtime C → Runtime C
  emit events r = record r { events = push_events r.events events }

  -- The gate takes the snapshot in, and what changed is told, but at the first pulse.
  unfoldable pub pulse_gate : Pulse C → Runtime C → Runtime C
  pulse_gate p r =
      let (gate, events) = update_from_snapshot p.snap p.now r.watcher.gate in
      let toasts = if r.seeded then power_sterile_toasts r.watcher.gate gate else [] in
      emit toasts (record r { watcher = record r.watcher { gate = gate }; seeded = true })

  -- `_schedule_simbrief_poll`.
  unfoldable pub schedule_simbrief_poll : ℕ → Runtime C → Runtime C
  schedule_simbrief_poll now r =
      if not (needs_network_poll now r.watcher)
      then r
      else if r.poll_pending || r.closed
      then r
      else record r { poll_pending = true; pool = r.pool + 1 }

  weather_of : Pulse C → Runtime C → Option FlightPlan → Option SimSnapshot → AutoWx C
  weather_of p r (some plan) (some snap) =
      if wx_auto_enabled r.watcher.settings
      then (consider p.skies r.watcher.settings r.watcher.gate.blocking snap plan r.weather).1
      else r.weather
  weather_of p r _ _ = r.weather

  pulse_weather : Pulse C → Runtime C → Runtime C
  unfolding weather_of
  pulse_weather p r = record r { weather = weather_of p r r.watcher.state.plan p.snap }

  pulse_watcher : WatcherConfig → Pulse C → Runtime C → Runtime C
  pulse_watcher c p r = record r { watcher = tick_local c p.now p.now_utc p.snap r.watcher }

  -- `_tick_unlocked`.
  unfoldable pub tick : WatcherConfig → Pulse C → Runtime C → Runtime C
  unfolding pulse_weather pulse_watcher
  tick c p r =
      emit (status ∷ [])
        (pulse_weather p (schedule_simbrief_poll p.now (pulse_watcher c p (pulse_gate p r))))

  -- The worker of `_schedule_simbrief_poll` takes a poll from the pool, with what the server would answer.
  unfoldable pub poll_work : WatcherConfig → ℕ → ℕ → Option FlightPlan → Runtime C → Runtime C
  poll_work c now now_utc reply r =
      if r.pool == 0
      then r
      else if r.closed
      then record r { poll_pending = false; pool = r.pool - 1 }
      else record r {
        watcher = poll_network_if_due c now now_utc reply r.watcher;
        poll_pending = false;
        pool = r.pool - 1;
      }

  fetched : ℕ → Fetch → Runtime C → Reply × Runtime C
  fetched now (simbrief_error what) r = (failed what, r)
  fetched now (plan_of plan) r =
      let message =
        codes "printed "
        ++ (plan.callsign ++ (b' ' ∷ plan.origin_icao ++ (b'-' ∷ plan.dest_icao))) in
      (
        told message,
        emit (status ∷ toast message false ∷ [])
            (record r { watcher = print_now now plan r.watcher }),
      )

  -- `cmd_simbrief_print`, with `print_now` of the watcher.
  unfoldable pub simbrief_print : ℕ → Option SimSnapshot → Fetch → Runtime C → Reply × Runtime C
  unfolding is_connected fetched
  simbrief_print now snap answer r =
      if not (is_connected snap)
      then (failed (codes "Simulator not connected — cannot print OFP."), r)
      else if not (is_some (simbrief_user r.watcher.settings))
      then (failed (codes "Enter your SimBrief username or pilot ID first."), r)
      else fetched now answer r

  -- `cmd_simbrief_unlock`.
  unfoldable pub simbrief_unlock : ℕ → Runtime C → Reply × Runtime C
  simbrief_unlock now r = (
    told (codes "OFP unlocked"),
    emit (status ∷ toast (codes "OFP unlocked") false ∷ [])
        (record r { watcher = unlock true now r.watcher }),
  )

  -- A stored message that is printed again, or held.
  reprint : StoredMessage → Runtime C → Reply × Runtime C
  reprint message r =
      let job = acars_job message true in
      let (held, gate, events) = run_or_defer_acars job r.watcher.gate in
      (
        if held then deferred else printed job,
        record r { watcher = record r.watcher { gate = gate } },
      )

  reprint_found : Text → Option StoredMessage → Runtime C → Reply × Runtime C
  unfolding reprint
  reprint_found error none r = (failed error, r)
  reprint_found error (some message) r = reprint message r

  -- `cmd_print_message`.
  unfoldable pub print_message : ℕ → Runtime C → Reply × Runtime C
  unfolding reprint_found
  print_message id r =
      reprint_found (codes "Message " ++ (to_decimal id ++ codes " not found")) (get id r.database)
        r

  -- `cmd_reprint_last`.
  unfoldable pub reprint_last : Runtime C → Reply × Runtime C
  unfolding reprint_found
  reprint_last r =
      reprint_found (codes "No printed strip to reprint yet.")
        (latest_successfully_printed r.database) r

  -- `cmd_clear_messages`.
  unfoldable pub clear_messages : Runtime C → Reply × Runtime C
  clear_messages r = (done, record r { database = clear_all r.database })

  -- `cmd_toggle_auto_print`.
  unfoldable pub toggle_auto_print : Runtime C → Reply × Runtime C
  toggle_auto_print r =
      let s = r.watcher.settings in
      let s = set_auto_print (not (auto_print s)) s in
      (answered (auto_print s), record r { watcher = record r.watcher { settings = s } })

  -- `cmd_refresh`, when the tap runs or not.
  unfoldable pub refresh : Bool → Runtime C → Reply × Runtime C
  refresh running r =
      (answered running, if running then record r { user_check_pending = true } else r)

  -- `_on_tap_update` and `_on_new_messages`.
  unfoldable pub tap_updated : TapStatus → Runtime C → Runtime C
  tap_updated s r = record (emit (on_tap_update s) r) { user_check_pending = false }

  unfoldable pub messages_came : ℕ → Runtime C → Runtime C
  messages_came count r = emit (on_new_messages count) r

  -- `cmd_drain_events`.
  unfoldable pub drain : Runtime C → List BridgeEvent × Runtime C
  drain r = let (events, queue) = drain_events r.events in (events, record r { events = queue })

  -- `shutdown`.
  unfoldable pub shutdown : Runtime C → Runtime C
  shutdown r = record r { closed = true }
