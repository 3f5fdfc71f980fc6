-- ===== src/Tests/Batch.antt =====
-- The layout, the print manager and the ingestion at concrete inputs.
use acars_printer.Prelude.{◌++◌, ℕ, ◌+◌, ◌≤◌, ◌≡◌, refl, true, false, none, some, List, [], ◌∷◌}
use acars_printer.Text.{upper, Text, codes, text_eq}
use acars_printer.Hoppie.Types.{telex, HoppieMessage}
use acars_printer.Printing.Format.{PrinterSettings, format}
use acars_printer.Models.Messages.{
  insert_ticket, taken, get, ticket_row, create_print_job, fits_integer, fits_row, StoredMessage,
  empty_database, push_row, inbound_row,
}
use acars_printer.Models.Messages.Ids.{has_id}
use acars_printer.Sterile.Gate.{new_gate}
use acars_printer.Services.PrintManager.{
  World, Printing, Outcome, printed, print_message, print_ticket, print_tickets, emit,
}
use acars_printer.Services.PrintManager.Jobs.{IsRecorded, print_message-IsRecorded}
use acars_printer.Services.PrintManager.Once.{IsCodedOnce, coded-print_tickets}
use acars_printer.Services.Ingestion.{
  Stats, no_stats, Service, Plan, prune_unavailable, seen_before, suppress_unavailable, ingest,
}
use acars_printer.Services.Ingestion.Counts.{AllFit, rows, ingest_counts}
use acars_printer.Services.Ingestion.Cooldown.{suppress_unavailable_again}
use acars_printer.Services.Ingestion.Again.{at_times, ingest_again}
use acars_printer.Services.Ingestion.Runs.{fresh}

abbrev hello : HoppieMessage
hello = record {
  callsign = codes "DLH1";
  sender = some (codes "EDDF");
  recipient = some (codes "DLH1");
  message_type = telex;
  raw_payload = codes "{EDDF telex {HI}}";
  normalized_body = codes "HI";
  min = none;
  mrn = none;
  ra = none;
}

abbrev row : StoredMessage
row = inbound_row hello (codes "f1") (codes "t") 1

abbrev settings : PrinterSettings
settings = record {
  destination = codes "usb";
  paper_width = codes "58";
  character_width_override = none;
  aircraft_registration = some (codes "D-AILA");
  font = codes "a";
  render_mode = codes "native";
  char_width = 1;
  bitmap_columns = 32;
  pairing_url = none;
}

-- A printer that is out of paper for one destination; the hash leaves the text as it is.
abbrev machine : Printing
machine = record {
  print = λ m text used. elim (text_eq used.destination (codes "usb")) [
    | true ↦ none
    | false ↦ some (codes "no paper")
  ];
  printer_name = codes "escpos";
  sha256 = λ s. s;
  stamp = λ m. codes "04AUG 1809Z";
}

abbrev start : World
start = record {
  database = push_row row empty_database;
  pairing = record { url = some (codes "http://10.0.0.2/"); emitted = false };
  paper = [];
}

row_known : has_id row.id start.database.messages ≡ true
unfolding inbound_row
row_known = refl

print_message-IsRecorded_example :
    IsRecorded
      (machine.print row (format (codes "04AUG 1809Z") row settings) settings)
      (record {
        message_id = row.id;
        text = format (codes "04AUG 1809Z") row settings;
        settings = settings;
      })
      start
      (print_message machine row settings false (codes "t") start)
print_message-IsRecorded_example =
    print_message-IsRecorded machine row settings false (codes "t") start row_known

abbrev tickets : List ((Text × Text) × (Text × Text))
tickets =
    ((codes "loadsheet", codes "ZFW 60.1"), (codes "s1", codes "t1"))
    ∷ ((codes "Flight_Plan ", codes "EDDF EDDM"), (codes "s2", codes "t2"))
    ∷ ((codes "flight_plan", codes "EDDM EDDF"), (codes "s3", codes "t3"))
    ∷ []

abbrev three_printed : List Outcome
three_printed = printed ∷ printed ∷ printed ∷ []

-- A printer that takes every strip.
abbrev willing : Printing
willing = record {
  print = λ m text used. none;
  printer_name = codes "escpos";
  sha256 = λ s. s;
  stamp = λ m. codes "04AUG 1809Z";
}

tickets_printed :
    (print_tickets willing settings (codes "DLH1") (codes "SIMBRIEF") tickets start).0
    ≡ some three_printed
unfolding print_tickets print_ticket insert_ticket taken inbound_row text_eq get ticket_row emit
    create_print_job
tickets_printed = refl

coded-print_tickets_example :
    IsCodedOnce tickets start
      (print_tickets willing settings (codes "DLH1") (codes "SIMBRIEF") tickets start)
coded-print_tickets_example =
    coded-print_tickets willing (λ m text s. refl) settings refl (codes "DLH1") (codes "SIMBRIEF")
      tickets start

abbrev plan : Plan
plan = record {
  do_print = true;
  printable = codes "telex" ∷ [];
  settings = settings;
  force_print = false;
}

abbrev service : Service
service = record { world = start; gate = some (new_gate none true 2 1 3); recent = [] }

abbrev batch : List (HoppieMessage × (ℕ × Text))
batch = (hello, (5, codes "u")) ∷ (hello, (6, codes "v")) ∷ []

batch_fits : AllFit batch
unfolding fits_row fits_integer
batch_fits = (refl, (refl, tt))

ingest_counts_example :
    (t : Stats) × (s' : Service) × (ingest machine plan
        ((hello, (5, codes "u")) ∷ (hello, (6, codes "v")) ∷ [])
        service
      ≡ some (t, s'))
    × (fresh t + t.duplicates ≡ 2)
    × (rows s' ≡ 1 + fresh t)
    × (t.deferred_count ≤ t.stored)
ingest_counts_example =
    ingest_counts machine plan ((hello, (5, codes "u")) ∷ (hello, (6, codes "v")) ∷ []) service refl
      batch_fits

ingest_again_example :
    (t : Stats) × (s' : Service) × (s'' : Service) × (ingest machine plan batch service
      ≡ some (t, s'))
    × (ingest machine plan (at_times (λ m. (60, codes "w")) batch) s'
        ≡ some (record no_stats { duplicates = 2 }, s''))
    × (s''.world ≡ s'.world)
    × (s''.gate ≡ s'.gate)
ingest_again_example =
    ingest_again machine plan (λ m. (60, codes "w")) batch service refl batch_fits

abbrev reply : HoppieMessage
reply = record hello { normalized_body = codes "VATATIS EDDF_D" ++ (b'\n' ∷ codes "NOT AVAILABLE") }

same_callsign : upper (codes "dlh1") ≡ upper (codes "DLH1")
unfolding upper
same_callsign = refl

let_through : (suppress_unavailable reply 10 []).0 ≡ false
unfolding suppress_unavailable seen_before prune_unavailable
let_through = refl

suppress_unavailable_again_example :
    (suppress_unavailable
      (record reply { callsign = codes "dlh1" })
      40
      (suppress_unavailable reply 10 []).1).0
    ≡ true
suppress_unavailable_again_example =
    suppress_unavailable_again reply (record reply { callsign = codes "dlh1" }) 10 40 []
      same_callsign refl let_through
