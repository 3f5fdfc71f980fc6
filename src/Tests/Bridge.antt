-- ===== src/Tests/Bridge.antt =====
-- The runtime of src/acars_bridge/bridge/runtime.py at concrete events.
use acars_printer.Prelude.{ℕ, ◌≡◌, false, some, List, [], ◌∷◌, arith}
use acars_printer.Models.Messages.{empty_database}
use acars_printer.Bridge.Events.{status, new_messages, push_events, drain_events}
use acars_printer.Bridge.Events.Latest.{latest, drain_events-latest}
use acars_printer.Bridge.Runtime.{Runtime, Pulse, plan_of}
use acars_printer.Bridge.Runtime.Acts.{
  Act, pulsed, worked, print_asked, message_asked, drained, closed,
}
use acars_printer.Tests.Simbrief.{flight, watching}
use acars_printer.Tests.Weather.{flying, clear_skies, nothing_printed}

abbrev starting : Runtime ℕ
starting = record {
  watcher = watching;
  weather = nothing_printed;
  database = empty_database;
  events = [];
  seeded = false;
  poll_pending = false;
  pool = 0;
  closed = false;
  user_check_pending = false;
}

abbrev pulse : Pulse ℕ
pulse = record { now = 5; now_utc = 500; snap = some flying; skies = clear_skies }

abbrev day : List (Act ℕ)
day =
    pulsed pulse
    ∷ worked 6 501 (some flight)
    ∷ print_asked 7 (some flying) (plan_of flight)
    ∷ message_asked 1
    ∷ pulsed pulse
    ∷ drained
    ∷ closed
    ∷ []

drain_events-latest_example :
    drain_events (push_events (status ∷ []) (new_messages 2 ∷ status ∷ []))
    ≡ (latest 200 (status ∷ new_messages 2 ∷ status ∷ []), [])
drain_events-latest_example =
    drain_events-latest (status ∷ []) (new_messages 2 ∷ status ∷ []) (omega arith)
