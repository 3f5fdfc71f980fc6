-- ===== src/Services/Ingestion.antt =====
-- `MessageIngestionService` of src/acars_bridge/services/ingestion.py. A job that the gate holds is the
-- message and whether it is a reprint. The clock counts in seconds; the settings that `ingest` reads
-- from the store are arguments.
pub mod Runs
pub mod Counts
pub mod Cooldown
pub mod Again
use acars_printer.Prelude.{
  ℕ, suc, ◌+◌, ◌-◌, Bool, true, false, Option, none, some, List, [], ◌∷◌, not, ◌&&◌, ltb, or_else,
  is_some, if◌then◌else◌,
}
use acars_printer.Text.{Text, codes, text_eq, one_of, upper}
use acars_printer.Hoppie.Types.{value, HoppieMessage}
use acars_printer.Hoppie.AtisText.{atis_reply_unavailable, vatatis_airport_key}
use acars_printer.Printing.Format.{PrinterSettings}
use acars_printer.Models.Messages.{StoredMessage, Database, insert_inbound, get_by_fingerprint}
use acars_printer.Services.Fingerprint.{fingerprint_basis}
use acars_printer.Services.PrintManager.{
  Printing, World, Outcome, printed, failed, deferred, print_message,
}
use acars_printer.Sterile.Gate.{SterileGate, Event, run_or_defer_acars}

pub record Stats : Type 0 where
  pub stored : ℕ
  pub printed_count : ℕ
  pub duplicates : ℕ
  pub failed_prints : ℕ
  pub deferred_count : ℕ

abbrev pub no_stats : Stats
no_stats = record {
  stored = 0;
  printed_count = 0;
  duplicates = 0;
  failed_prints = 0;
  deferred_count = 0;
}

-- `_recent_unavailable`: the callsign and the airport, with the time.
pub record Seen : Type 0 where
  pub callsign : Text
  pub airport : Text
  pub at : ℕ

pub record Job : Type 0 where
  pub message : StoredMessage
  pub is_reprint : Bool

pub record Service : Type 0 where
  pub world : World
  pub gate : Option (SterileGate Job)
  pub recent : List Seen

-- What `ingest` reads once: the decision to print, the types to print, and the printer's settings.
pub record Plan : Type 0 where
  pub do_print : Bool
  pub printable : List Text
  pub settings : PrinterSettings
  pub force_print : Bool

abbrev cooldown : ℕ
cooldown = 120

-- `_prune_unavailable`.
unfoldable pub prune_unavailable : ℕ → List Seen → List Seen
prune_unavailable now [] = []
prune_unavailable now (seen ∷ recent) =
    let rest = prune_unavailable now recent in
    if ltb (now - seen.at) cooldown then seen ∷ rest else rest

unfoldable pub seen_before : Text → Text → List Seen → Bool
seen_before callsign airport [] = false
seen_before callsign airport (seen ∷ recent) =
    let later = seen_before callsign airport recent in
    if text_eq seen.callsign callsign && text_eq seen.airport airport then true else later

-- `_suppress_unavailable_fallback`: after the prune, a key that is there is within the cooldown.
unfoldable pub suppress_unavailable : HoppieMessage → ℕ → List Seen → Bool × List Seen
suppress_unavailable m now recent =
    let callsign = upper m.callsign in
    let airport = or_else (vatatis_airport_key m.normalized_body) (codes "_bare") in
    let kept = prune_unavailable now recent in
    if seen_before callsign airport kept
    then (true, kept)
    else (false, record { callsign = callsign; airport = airport; at = now } ∷ kept)

-- Whether the message is to be printed, and the cooldowns after that question.
unfoldable pub wants_print : Plan → HoppieMessage → ℕ → List Seen → Bool × List Seen
wants_print plan m now recent =
    let wants = plan.do_print && one_of plan.printable (value m.message_type) in
    if wants && atis_reply_unavailable m.normalized_body
    then (let (suppressed, kept) = suppress_unavailable m now recent in (not suppressed, kept))
    else (wants, recent)

-- One more of what came of a new message, or of a reprint.
unfoldable pub count_new : Outcome → Stats → Stats
count_new printed s = record s { printed_count = s.printed_count + 1 }
count_new failed s = record s { failed_prints = s.failed_prints + 1 }
count_new deferred s = record s { deferred_count = s.deferred_count + 1; stored = s.stored + 1 }

unfoldable pub count_reprint : Outcome → Stats → Stats
count_reprint printed s = record s { printed_count = s.printed_count + 1 }
count_reprint failed s = record s { failed_prints = s.failed_prints + 1 }
count_reprint deferred s = record s { deferred_count = s.deferred_count + 1 }

module _ (p : Printing) (plan : Plan) where
  -- The job itself, at once.
  pub run_job : Job → Text → Service → Option Outcome × Service
  run_job job stamp s =
      let (outcome, world) =
        print_message p job.message plan.settings job.is_reprint stamp s.world in
      (outcome, record s { world = world })

  pub gated :
      Job → Text → Service → Bool × SterileGate Job × List (Event Job) → Option Outcome × Service
  gated job stamp s (true, g, events) = (some deferred, record s { gate = some g })
  gated job stamp s (false, g, events) = run_job job stamp s

  pub at_gate : Job → Text → Service → Option (SterileGate Job) → Option Outcome × Service
  at_gate job stamp s none = run_job job stamp s
  at_gate job stamp s (some g) = gated job stamp s (run_or_defer_acars job g)

  print_after_delay : Job → Text → Service → Option Outcome × Service
  print_after_delay job stamp s = at_gate job stamp s s.gate

  -- An exception of the print goes through `ingest`, as one of the insert does.
  pub counted :
      (Outcome → Stats → Stats) → Stats → Option Outcome × Service → Option (Stats × Service)
  counted count stats (none, s) = none
  counted count stats (some outcome, s) = some (count outcome stats, s)

  reprinted : Text → Stats → Service → Option StoredMessage → Option (Stats × Service)
  reprinted stamp stats s none = some (stats, s)
  reprinted stamp stats s (some existing) =
      counted count_reprint stats
        (print_after_delay (record { message = existing; is_reprint = true }) stamp s)

  -- The body of the loop after the insert.
  pub handled :
      HoppieMessage
      → Text
      → Text
      → Bool
      → Stats
      → Service
      → Option StoredMessage
      → Option (Stats × Service)
  handled m fp stamp wants stats s none =
      let counted_stats = record stats { duplicates = stats.duplicates + 1 } in
      if plan.force_print && wants && not (atis_reply_unavailable m.normalized_body)
      then reprinted stamp counted_stats s (get_by_fingerprint fp s.world.database)
      else some (counted_stats, s)
  handled m fp stamp wants stats s (some row) =
      if wants
      then counted count_new stats
          (print_after_delay (record { message = row; is_reprint = false }) stamp s)
      else some (record stats { stored = stats.stored + 1 }, s)

  -- After the insert, which may have raised.
  pub after_insert :
      HoppieMessage
      → Text
      → ℕ
      → Text
      → Stats
      → Service
      → Option (Option StoredMessage × Database)
      → Option (Stats × Service)
  after_insert m fp now stamp stats s none = none
  after_insert m fp now stamp stats s (some (row, database)) =
      let (wants, recent) = wants_print plan m now s.recent in
      handled m fp stamp wants stats
        (record s { world = record s.world { database = database }; recent = recent }) row

  -- One message, at a time of the clock and with the stamp of its row.
  pub ingest_one : HoppieMessage → ℕ → Text → Stats → Service → Option (Stats × Service)
  ingest_one m now stamp stats s =
      let fp = p.sha256 (fingerprint_basis m) in
      after_insert m fp now stamp stats s (insert_inbound m fp stamp s.world.database)

  -- The loop, over the messages with the times at which they are handled.
  pub ingest_from : List (HoppieMessage × (ℕ × Text)) → Stats → Service → Option (Stats × Service)
  ingest_from [] stats s = some (stats, s)
  ingest_from ((m, (now, stamp)) ∷ ms) stats s = elim (ingest_one m now stamp stats s) [
    | none ↦ none
    | some (stats', s') ↦ ingest_from ms stats' s'
  ]

  pub ingest : List (HoppieMessage × (ℕ × Text)) → Service → Option (Stats × Service)
  ingest ms s = ingest_from ms no_stats s
