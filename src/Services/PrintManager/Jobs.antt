-- ===== src/Services/PrintManager/Jobs.antt =====
-- What a print leaves behind: one job for each answer of the printer, and one strip for each job that
-- says it was printed.
use acars_printer.Prelude.{◌≡◌, refl, Bool, true, Option, none, some, List, ◌∷◌, ◌++◌, take, arith}
use acars_printer.Text.{Text, codes}
use acars_printer.Printing.Format.{PrinterSettings, format}
use acars_printer.Models.Messages.{
  StoredMessage, PrintJob, Database, latest_print_status, job_row, push_job,
}
use acars_printer.Models.Messages.Ids.{has_id, create_print_job-known}
use acars_printer.Services.PrintManager.{
  Printing, World, Paper, Outcome, printed, failed, recorded, answered, emit, print_message,
}

-- The outcome, by the answer of the printer.
abbrev pub outcome_of : Option Text → Outcome
outcome_of none = printed
outcome_of (some error) = failed

abbrev pub status_of : Option Text → Text
status_of none = codes "printed"
status_of (some error) = codes "failed"

abbrev pub paper_after : Option Text → Paper → List Paper → List Paper
paper_after none strip paper = strip ∷ paper
paper_after (some error) strip paper = paper

latest_print_status-push_job :
    (job : PrintJob) (db : Database)
    → latest_print_status job.message_id (push_job job db) ≡ some job.status
unfolding latest_print_status
latest_print_status-push_job job db = ground arith

-- What a print leaves, for a strip, the printer's answer to it and the world before.
pub record IsRecorded (answer : Option Text) (strip : Paper) (w : World)
    (r : Option Outcome × World) : Type 0 where
  pub outcome : r.0 ≡ some (outcome_of answer)
  pub messages : r.1.database.messages ≡ w.database.messages
  pub status : latest_print_status strip.message_id r.1.database ≡ some (status_of answer)
  pub paper : r.1.paper ≡ paper_after answer strip w.paper
  pub pairing : r.1.pairing ≡ w.pairing

module _ (p : Printing) where
  answered-IsRecorded :
      (m : StoredMessage) (text : Text) (settings : PrinterSettings) (is_reprint : Bool)
      (now : Text) (w : World) (answer : Option Text)
      → has_id m.id w.database.messages ≡ true
      → IsRecorded answer
          (record { message_id = m.id; text = text; settings = settings })
          w
          (answered p m text settings is_reprint now w answer)
  unfolding answered recorded job_row
  answered-IsRecorded m text settings is_reprint now w none known =
      let name = p.printer_name ++ (b':' ∷ settings.destination) in
      let made =
        create_print_job-known m.id name (codes "printed") none is_reprint now w.database known in
      let job = job_row m.id name (codes "printed") none is_reprint now w.database.next_job in
      let last = latest_print_status-push_job job w.database in
      rw made
        (record { outcome = refl; messages = refl; status = last; paper = refl; pairing = refl })
  answered-IsRecorded m text settings is_reprint now w (some error) known =
      let name = p.printer_name ++ (b':' ∷ settings.destination) in
      let made =
        create_print_job-known m.id name (codes "failed") (some (take 2000 error)) is_reprint now
          w.database known in
      let job =
        job_row m.id name (codes "failed") (some (take 2000 error)) is_reprint now
          w.database.next_job in
      let last = latest_print_status-push_job job w.database in
      rw made
        (record { outcome = refl; messages = refl; status = last; paper = refl; pairing = refl })

  -- A print of a stored message always returns, with the outcome that the printer's answer gives. It
  -- leaves the messages and the pairing as they are, the newest job of the message then has the
  -- status of that answer, and the formatted strip is on the paper just if the printer took it.
  pub print_message-IsRecorded :
      (m : StoredMessage) (settings : PrinterSettings) (is_reprint : Bool) (now : Text) (w : World)
      → has_id m.id w.database.messages ≡ true
      → IsRecorded
          (p.print m (format (p.stamp m) m settings) settings)
          (record { message_id = m.id; text = format (p.stamp m) m settings; settings = settings })
          w
          (print_message p m settings is_reprint now w)
  unfolding print_message emit
  print_message-IsRecorded m settings is_reprint now w known =
      let text = format (p.stamp m) m settings in
      answered-IsRecorded m text settings is_reprint now w (p.print m text settings) known
