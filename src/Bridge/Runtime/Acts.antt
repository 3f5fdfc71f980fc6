-- ===== src/Bridge/Runtime/Acts.antt =====
-- What happens to the runtime, and its runs.
use acars_printer.Prelude.{ℕ, Bool, Option, List, [], ◌∷◌}
use acars_printer.Sim.Snapshot.{SimSnapshot}
use acars_printer.Simbrief.Plan.{FlightPlan}
use acars_printer.Simbrief.Watcher.{WatcherConfig}
use acars_printer.Bridge.Events.{TapStatus}
use acars_printer.Bridge.Runtime.{
  Runtime, Pulse, Fetch, tick, poll_work, simbrief_print, simbrief_unlock, print_message,
  reprint_last, clear_messages, toggle_auto_print, refresh, tap_updated, messages_came, drain,
  shutdown,
}

-- What happens to the runtime.
pub data Act (C : Type 0) : Type 0 where
  pulsed : Pulse C → Act C
  worked : ℕ → ℕ → Option FlightPlan → Act C
  print_asked : ℕ → Option SimSnapshot → Fetch → Act C
  unlock_asked : ℕ → Act C
  message_asked : ℕ → Act C
  last_asked : Act C
  cleared : Act C
  toggled : Act C
  refreshed : Bool → Act C
  tapped : TapStatus → Act C
  messages_stored : ℕ → Act C
  drained : Act C
  closed : Act C

module _ {C : Type 0} where
  unfoldable pub act : WatcherConfig → Runtime C → Act C → Runtime C
  act c r (pulsed p) = tick c p r
  act c r (worked now now_utc reply) = poll_work c now now_utc reply r
  act c r (print_asked now snap answer) = (simbrief_print now snap answer r).1
  act c r (unlock_asked now) = (simbrief_unlock now r).1
  act c r (message_asked id) = (print_message id r).1
  act c r last_asked = (reprint_last r).1
  act c r cleared = (clear_messages r).1
  act c r toggled = (toggle_auto_print r).1
  act c r (refreshed running) = (refresh running r).1
  act c r (tapped s) = tap_updated s r
  act c r (messages_stored count) = messages_came count r
  act c r drained = (drain r).1
  act c r closed = shutdown r

  unfoldable pub acts : WatcherConfig → Runtime C → List (Act C) → Runtime C
  unfolding act
  acts c r [] = r
  acts c r (a ∷ more) = acts c (act c r a) more
