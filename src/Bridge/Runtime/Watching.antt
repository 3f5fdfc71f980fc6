-- ===== src/Bridge/Runtime/Watching.antt =====
-- The watcher's account over the steps that the runtime makes it take.
use acars_printer.Prelude.{ℕ, true, Option}
use acars_printer.Sim.Snapshot.{SimSnapshot}
use acars_printer.Sterile.Gate.{SterileGate}
use acars_printer.Simbrief.Plan.{FlightPlan}
use acars_printer.Simbrief.Watcher.{WatcherConfig, Watcher, HeldJob}
use acars_printer.Simbrief.Watcher.Phases.{unlock}
use acars_printer.Simbrief.Watcher.Locks.{print_now}
use acars_printer.Simbrief.Watcher.Steps.{
  tick_local, poll_network_if_due, happen, ticked, polled, asked, unlocked,
}
use acars_printer.Simbrief.Watcher.Account.{IsSound}
use acars_printer.Simbrief.Watcher.Runs.{happen-IsSound}

-- Another gate, with the state and the bundles as they are.
pub regated-IsSound :
    (w : Watcher) (g : SterileGate HeldJob) → IsSound w → IsSound (record w { gate = g })
regated-IsSound w g h = record { account = h.account; consistent = h.consistent }

-- The watcher's own steps.
pub ticked-IsSound :
    (c : WatcherConfig) (now now_utc : ℕ) (snap : Option SimSnapshot) (w : Watcher)
    → IsSound w
    → IsSound (tick_local c now now_utc snap w)
unfolding happen
ticked-IsSound c now now_utc snap w h = happen-IsSound c now now_utc w (ticked snap) h

pub polled-IsSound :
    (c : WatcherConfig) (now now_utc : ℕ) (reply : Option FlightPlan) (w : Watcher)
    → IsSound w
    → IsSound (poll_network_if_due c now now_utc reply w)
unfolding happen
polled-IsSound c now now_utc reply w h = happen-IsSound c now now_utc w (polled reply) h

pub asked-IsSound :
    (c : WatcherConfig) (now : ℕ) (plan : FlightPlan) (w : Watcher)
    → IsSound w
    → IsSound (print_now now plan w)
unfolding happen
asked-IsSound c now plan w h = happen-IsSound c now 0 w (asked plan) h

pub unlocked-IsSound :
    (c : WatcherConfig) (now : ℕ) (w : Watcher) → IsSound w → IsSound (unlock true now w)
unfolding happen
unlocked-IsSound c now w h = happen-IsSound c now 0 w (unlocked true) h
