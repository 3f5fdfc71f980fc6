-- ===== src/Models/Messages.antt =====
-- `StoredMessage` and `MessageRepository` of src/acars_bridge/models/messages.py over the tables of
-- src/acars_bridge/models/db.py. A table is the list of its rows, the newest first, with the id that
-- AUTOINCREMENT gives next. A method that raises `sqlite3.IntegrityError` returns `none`. The time
-- that a row is stamped with is an argument.
pub mod Ids
pub mod Lookup
use acars_printer.Prelude.{
  ℕ, zero, suc, ◌+◌, Bool, true, false, Option, none, some, List, [], ◌∷◌, ◌++◌, ◌&&◌, ◌==◌, ltb,
  take, min, max, any, is_some, if◌then◌else◌,
}
use acars_printer.Text.{Text, codes, text_eq}
use acars_printer.Hoppie.Types.{MessageType, value, HoppieMessage}

pub record StoredMessage : Type 0 where
  pub id : ℕ
  pub fingerprint : Option Text
  pub direction : Text
  pub callsign : Text
  pub sender : Option Text
  pub recipient : Option Text
  pub to_station : Option Text
  pub message_type : Text
  pub raw_payload : Text
  pub normalized_body : Text
  pub min : Option ℕ
  pub mrn : Option ℕ
  pub ra : Option Text
  pub send_status : Option Text
  pub received_at : Text

pub record PrintJob : Type 0 where
  pub id : ℕ
  pub message_id : ℕ
  pub printer_name : Text
  pub status : Text
  pub attempts : ℕ
  pub error_message : Option Text
  pub is_reprint : Bool
  pub printed_at : Option Text

pub record Database : Type 0 where
  pub messages : List StoredMessage
  pub next_message : ℕ
  pub print_jobs : List PrintJob
  pub next_job : ℕ

abbrev pub empty_database : Database
empty_database = record { messages = []; next_message = 1; print_jobs = []; next_job = 1 }

abbrev pub has_fingerprint : Text → StoredMessage → Bool
has_fingerprint fp m = elim m.fingerprint [ none ↦ false | some f ↦ text_eq f fp ]

-- The UNIQUE constraint on the fingerprint.
unfoldable pub taken : Text → List StoredMessage → Bool
taken fp = any (has_fingerprint fp)

unfoldable pub inbound_row : HoppieMessage → Text → Text → ℕ → StoredMessage
inbound_row m fp now id = record {
  id = id;
  fingerprint = some fp;
  direction = codes "in";
  callsign = m.callsign;
  sender = m.sender;
  recipient = m.recipient;
  to_station = none;
  message_type = value m.message_type;
  raw_payload = m.raw_payload;
  normalized_body = m.normalized_body;
  min = m.min;
  mrn = m.mrn;
  ra = m.ra;
  send_status = none;
  received_at = now;
}

abbrev pub push_row : StoredMessage → Database → Database
push_row row db = record db { messages = row ∷ db.messages; next_message = db.next_message + 1 }

-- The first row that passes.
unfoldable pub find {ℓ} : {A : Type ℓ} → (A → Bool) → List A → Option A
find p [] = none
find p (x ∷ xs) = if p x then some x else find p xs

unfoldable pub get : ℕ → Database → Option StoredMessage
unfolding find
get id db = find (λ m. m.id == id) db.messages

-- An INTEGER of SQLite has 64 bits, one of them the sign.
unfoldable pub fits_integer : Option ℕ → Bool
fits_integer none = true
fits_integer (some n) = ltb n 9223372036854775808

unfoldable pub fits_row : HoppieMessage → Bool
fits_row m = fits_integer m.min && fits_integer m.mrn

-- The insert and the query of the row. The method catches the IntegrityError, and returns None.
unfoldable pub inserted : HoppieMessage → Text → Text → Database → Option StoredMessage × Database
unfolding inbound_row
inserted m fp now db =
    let row = inbound_row m fp now db.next_message in
    let db' = push_row row db in if taken fp db.messages then (none, db) else (get row.id db', db')

-- A number that does not fit raises an OverflowError, which is not caught: the outer `none`.
unfoldable pub insert_inbound :
    HoppieMessage → Text → Text → Database → Option (Option StoredMessage × Database)
insert_inbound m fp now db = if fits_row m then some (inserted m fp now db) else none

pub record Outbound : Type 0 where
  pub callsign : Text
  pub to_station : Text
  pub message_type : MessageType
  pub body : Text
  pub raw_payload : Text
  pub min_id : Option ℕ
  pub mrn : Option ℕ
  pub ra : Option Text
  pub send_status : Text

unfoldable pub insert_outbound : Outbound → Text → Database → Option StoredMessage × Database
insert_outbound o now db =
    let row : StoredMessage = record {
      id = db.next_message;
      fingerprint = none;
      direction = codes "out";
      callsign = o.callsign;
      sender = some o.callsign;
      recipient = some o.to_station;
      to_station = some o.to_station;
      message_type = value o.message_type;
      raw_payload = o.raw_payload;
      normalized_body = o.body;
      min = o.min_id;
      mrn = o.mrn;
      ra = o.ra;
      send_status = some o.send_status;
      received_at = now;
    } in
    (get row.id (push_row row db), push_row row db)

-- `assert stored is not None`.
stored_in : Database → Option StoredMessage → Option (StoredMessage × Database)
stored_in db none = none
stored_in db (some row) = some (row, db)

unfoldable pub ticket_row : Text → Text → Text → Text → Text → Text → ℕ → StoredMessage
ticket_row callsign ticket_type body fp sender now id = record {
  id = id;
  fingerprint = some fp;
  direction = codes "in";
  callsign = callsign;
  sender = some sender;
  recipient = some callsign;
  to_station = none;
  message_type = ticket_type;
  raw_payload = body;
  normalized_body = body;
  min = none;
  mrn = none;
  ra = none;
  send_status = none;
  received_at = now;
}

unfoldable pub insert_ticket :
    Text → Text → Text → Text → Text → Text → Database → Option (StoredMessage × Database)
unfolding stored_in
insert_ticket callsign ticket_type body fp sender now db =
    let row = ticket_row callsign ticket_type body fp sender now db.next_message in
    let db' = push_row row db in
    if taken fp db.messages then none else stored_in db' (get row.id db')

abbrev pub select {ℓ} : {A : Type ℓ} → (A → Bool) → List A → List A
select p [] = []
select p (x ∷ xs) = let rest = select p xs in if p x then x ∷ rest else rest

unfoldable pub get_by_fingerprint : Text → Database → Option StoredMessage
unfolding find
get_by_fingerprint fp db = find (has_fingerprint fp) db.messages

unfoldable pub list_recent : ℕ → Database → List StoredMessage
list_recent limit db = take limit db.messages

abbrev pub oldest_first : List StoredMessage → List StoredMessage
oldest_first [] = []
oldest_first (m ∷ ms) = oldest_first ms ++ m ∷ []

unfoldable pub list_since : ℕ → ℕ → Database → List StoredMessage
list_since since_id limit db =
    take (max 1 (min limit 500)) (oldest_first (select (λ m. ltb since_id m.id) db.messages))

unfoldable pub list_page : Option ℕ → ℕ → Database → List StoredMessage
list_page none limit db = take (max 1 (min limit 200)) db.messages
list_page (some before) limit db =
    take (max 1 (min limit 200)) (select (λ m. ltb m.id before) db.messages)

-- Both tables, and the numbering of their ids.
unfoldable pub clear_all : Database → Database
clear_all db = empty_database

unfoldable pub job_row : ℕ → Text → Text → Option Text → Bool → Text → ℕ → PrintJob
job_row message_id printer_name status error is_reprint now id = record {
  id = id;
  message_id = message_id;
  printer_name = printer_name;
  status = status;
  attempts = 1;
  error_message = error;
  is_reprint = is_reprint;
  printed_at = if text_eq status (codes "printed") then some now else none;
}

abbrev pub push_job : PrintJob → Database → Database
push_job job db = record db { print_jobs = job ∷ db.print_jobs; next_job = db.next_job + 1 }

-- The foreign key wants a row with the id.
unfoldable pub create_print_job :
    ℕ → Text → Text → Option Text → Bool → Text → Database → Option Database
create_print_job message_id printer_name status error is_reprint now db =
    if any (λ (m : StoredMessage). m.id == message_id) db.messages
    then some
        (push_job (job_row message_id printer_name status error is_reprint now db.next_job) db)
    else none

job_status : Option PrintJob → Option Text
job_status none = none
job_status (some j) = some j.status

unfoldable pub latest_print_status : ℕ → Database → Option Text
unfolding find job_status
latest_print_status message_id db =
    job_status (find (λ j. j.message_id == message_id) db.print_jobs)

-- `print_jobs j JOIN messages m`, the newest printed job first.
first_printed : List StoredMessage → List PrintJob → Option StoredMessage
unfolding find
first_printed ms [] = none
first_printed ms (j ∷ js) =
    let here = find (λ m. m.id == j.message_id && ltb 0 m.id) ms in
    let rest = first_printed ms js in
    if text_eq j.status (codes "printed") && is_some here then here else rest

unfoldable pub latest_successfully_printed : Database → Option StoredMessage
unfolding first_printed
latest_successfully_printed db = first_printed db.messages db.print_jobs
