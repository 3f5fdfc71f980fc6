-- ===== src/Services/PrintManager.antt =====
-- `PrintManager` of src/acars_bridge/services/print_manager.py, with `should_emit_pairing_qr` and
-- `pairing_caption` of src/acars_bridge/printing/companion_qr.py. The printer is an argument: what it
-- answers to a strip, `none` once it is printed, `some` with the text of its `PrinterError`.
pub mod Jobs
pub mod Once
use acars_printer.Prelude.{
  ℕ, Bool, true, false, Option, none, some, List, [], ◌∷◌, ◌++◌, not, ◌&&◌, ◌||◌, take, or_else,
  is_some, if◌then◌else◌,
}
use acars_printer.Text.{Text, codes, is_empty, text_eq, lower, strip, rstrip, contains}
use acars_printer.Printing.Format.{PrinterSettings, format}
use acars_printer.Models.Messages.{StoredMessage, Database, insert_ticket, create_print_job}

pub record Pairing : Type 0 where
  pub url : Option Text
  pub emitted : Bool

some_text : Text → Option Text
some_text [] = none
some_text (c ∷ s) = some (c ∷ s)

-- `(url or "").strip() or None`.
unfoldable pub cleaned_url : Option Text → Option Text
unfolding some_text
cleaned_url url = some_text (strip (or_else url []))

abbrev same_url : Option Text → Option Text → Bool
same_url none none = true
same_url (some s) (some t) = text_eq s t
same_url _ _ = false

unfoldable pub set_pairing_url : Option Text → Pairing → Pairing
set_pairing_url url p =
    let cleaned = cleaned_url url in
    record { url = cleaned; emitted = if same_url cleaned p.url then p.emitted else false }

abbrev no_url : Option Text → Bool
no_url none = true
no_url (some u) = is_empty u

unfoldable pub take_pairing_url : Pairing → Option Text × Pairing
take_pairing_url p =
    if no_url p.url || p.emitted then (none, p) else (p.url, record p { emitted = true })

unfoldable pub restore_pairing_state : Option Text → Bool → Pairing → Pairing
restore_pairing_state url emitted p =
    let cleaned = cleaned_url url in
    record { url = cleaned; emitted = emitted && not (no_url cleaned) }

unfoldable pub reset_pairing_qr : Pairing → Pairing
reset_pairing_qr p = record p { emitted = false }

unfoldable pub should_emit_pairing_qr : Bool → Text → Bool → Text → Bool
should_emit_pairing_qr enabled url already ticket_type =
    enabled
    && not (is_empty (strip url))
    && not already
    && text_eq (lower (strip ticket_type)) (codes "flight_plan")

unfoldable pub pairing_caption : Text → Text
pairing_caption url = codes "PHONE INBOX" ++ (b'\n' ∷ (codes "SCAN TO OPEN" ++ (b'\n' ∷ strip url)))

captioned : Text → Text → Text
captioned caption body =
    if contains caption body
    then body
    else rstrip body ++ (b'\n' ∷ b'\n' ∷ (caption ++ (b'\n' ∷ [])))

pub record Strip : Type 0 where
  pub body : Text
  pub settings : PrinterSettings
  pub pairing : Pairing

paired : Text → PrinterSettings → Option Text × Pairing → Strip
unfolding captioned
paired body settings (none, p) = record { body = body; settings = settings; pairing = p }
paired body settings (some url, p) = record {
  body = captioned (pairing_caption url) body;
  settings = record settings { pairing_url = some url };
  pairing = p;
}

unfoldable pub with_pairing : Text → PrinterSettings → Text → Pairing → Strip
unfolding paired
with_pairing body settings ticket_type p =
    if should_emit_pairing_qr true (or_else p.url []) p.emitted ticket_type
    then paired body settings (take_pairing_url p)
    else record { body = body; settings = settings; pairing = p }

-- A strip on paper: the message that it is for, its text and the settings it was printed with.
pub record Paper : Type 0 where
  pub message_id : ℕ
  pub text : Text
  pub settings : PrinterSettings

pub record World : Type 0 where
  pub database : Database
  pub pairing : Pairing
  pub paper : List Paper

pub data Outcome : Type 0 where
  printed failed deferred : Outcome

-- The printed strip stays where the method raises.
unfoldable pub recorded : Outcome → Option Database → World → Option Outcome × World
recorded outcome none w = (none, w)
recorded outcome (some db) w = (some outcome, record w { database = db })

-- What the application gives the manager: the printer, its name, the hash, and the
-- time of a message as the header of a strip writes it.
pub record Printing : Type 0 where
  pub print : StoredMessage → Text → PrinterSettings → Option Text
  pub printer_name : Text
  pub sha256 : Text → Text
  pub stamp : StoredMessage → Text

module _ (p : Printing) where
  -- `_emit` after the printer has answered.
  answered :
      StoredMessage
      → Text
      → PrinterSettings
      → Bool
      → Text
      → World
      → Option Text
      → Option Outcome × World
  unfolding recorded
  answered message body settings is_reprint now w none =
      let name = p.printer_name ++ (b':' ∷ settings.destination) in
      let strip : Paper = record { message_id = message.id; text = body; settings = settings } in
      recorded printed
        (create_print_job message.id name (codes "printed") none is_reprint now w.database)
        (record w { paper = strip ∷ w.paper })
  answered message body settings is_reprint now w (some error) =
      let name = p.printer_name ++ (b':' ∷ settings.destination) in
      recorded failed
        (create_print_job message.id name (codes "failed") (some (take 2000 error)) is_reprint now
          w.database)
        w

  -- An outcome of none is an `IntegrityError` of the record of the job.
  unfoldable pub emit :
      StoredMessage → Text → PrinterSettings → Bool → Text → World → Option Outcome × World
  unfolding answered
  emit message body settings is_reprint now w =
      answered message body settings is_reprint now w (p.print message body settings)

  unfoldable pub print_message :
      StoredMessage → PrinterSettings → Bool → Text → World → Option Outcome × World
  print_message message settings is_reprint now w =
      emit message (format (p.stamp message) message settings) settings is_reprint now w

  ticket_fingerprint : Text → Text → Text → Text
  ticket_fingerprint ticket_type body stamp =
      codes "ticket:"
      ++ (ticket_type
          ++ (b':' ∷ (take 24 (p.sha256 (ticket_type ++ (b'\n' ∷ body))) ++ (b':' ∷ stamp))))

  ticket_emitted :
      Text
      → PrinterSettings
      → Text
      → Bool
      → Text
      → World
      → Option (StoredMessage × Database)
      → Option Outcome × World
  ticket_emitted body settings ticket_type is_reprint now w none = (none, w)
  ticket_emitted body settings ticket_type is_reprint now w (some (stored, db)) =
      let strip = with_pairing body settings ticket_type w.pairing in
      if is_reprint
      then emit stored body settings is_reprint now (record w { database = db })
      else emit stored strip.body strip.settings is_reprint now
          (record w { database = db; pairing = strip.pairing })

  unfoldable pub print_ticket :
      Text
      → PrinterSettings
      → Text
      → Text
      → Text
      → Bool
      → Text
      → Text
      → World
      → Option Outcome × World
  unfolding ticket_fingerprint ticket_emitted
  print_ticket body settings callsign ticket_type sender is_reprint stamp now w =
      ticket_emitted body settings ticket_type is_reprint now w (
        insert_ticket callsign ticket_type body (ticket_fingerprint ticket_type body stamp) sender
          now w.database)

  push_outcome : Outcome → Option (List Outcome) × World → Option (List Outcome) × World
  push_outcome outcome (none, w) = (none, w)
  push_outcome outcome (some outcomes, w) = (some (outcome ∷ outcomes), w)

  -- The tickets, each a type and a body, with the stamps of its fingerprint and of its row.
  unfoldable pub print_tickets :
      PrinterSettings
      → Text
      → Text
      → List ((Text × Text) × (Text × Text))
      → World
      → Option (List Outcome) × World
  unfolding push_outcome
  print_tickets settings callsign sender [] w = (some [], w)
  print_tickets settings callsign sender (((ticket_type, body), (stamp, now)) ∷ tickets) w =
      let (answer, after) =
        print_ticket body settings callsign ticket_type sender false stamp now w in
      elim answer [
        | none ↦ (none, after)
        | some outcome ↦ push_outcome outcome (print_tickets settings callsign sender tickets after)
      ]
