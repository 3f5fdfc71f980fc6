-- ===== src/Bridge/Runtime/Sound.antt =====
-- The invariant of the runtime, whatever happens to it.
use acars_printer.Prelude.{◌≤◌, ◌≡◌, length, if◌then◌else◌}
use acars_printer.Text.{Text}
use acars_printer.Simbrief.Watcher.{Watcher}
use acars_printer.Simbrief.Watcher.Account.{IsSound}
use acars_printer.Simbrief.Watcher.Gated.{GateSound}
use acars_printer.Bridge.Events.{max_events}
use acars_printer.Bridge.Runtime.{Runtime}

-- The gate is sound, the watcher owes no final that it has no lock for, the queue of events is not over
-- its limit, and a poll is pending just when one waits for the worker, and never two.
pub record IsWell {C : Type 0} (r : Runtime C) : Type 0 where
  pub gate : GateSound r.watcher
  pub account : IsSound r.watcher
  pub room : length r.events ≤ max_events
  pub waiting : r.pool ≡ (if r.poll_pending then 1 else 0)
