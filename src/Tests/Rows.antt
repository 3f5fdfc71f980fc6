-- ===== src/Tests/Rows.antt =====
-- The repository of src/acars_bridge/models/messages.py at concrete messages.
use acars_printer.Prelude.{true, ◌≡◌, refl, false, none, some, [], ◌∷◌}
use acars_printer.Text.{codes, text_eq}
use acars_printer.Hoppie.Types.{telex, HoppieMessage, value}
use acars_printer.Models.Messages.{
  StoredMessage, Database, empty_database, taken, fits_integer, fits_row, inserted, insert_inbound,
  get, get_by_fingerprint, list_recent,
}
use acars_printer.Models.Messages.Ids.{IsKept, here, next, inbound, Changes-IsKept}
use acars_printer.Models.Messages.Lookup.{insert_inbound_once}

abbrev hello : HoppieMessage
hello = record {
  callsign = codes "DLH1";
  sender = some (codes "EDDF");
  recipient = some (codes "DLH1");
  message_type = telex;
  raw_payload = codes "{EDDF telex {HI}}";
  normalized_body = codes "HI";
  min = none;
  mrn = none;
  ra = none;
}

abbrev stored : Database
stored = (inserted hello (codes "f1") (codes "t") empty_database).1

abbrev stored_two : Database
stored_two = (inserted hello (codes "f2") (codes "t") stored).1

first_stored :
    insert_inbound hello (codes "f1") (codes "t") empty_database
    ≡ some ((inserted hello (codes "f1") (codes "t") empty_database).0, stored)
unfolding insert_inbound fits_row fits_integer
first_stored = refl

second_stored :
    insert_inbound hello (codes "f2") (codes "t") stored
    ≡ some ((inserted hello (codes "f2") (codes "t") stored).0, stored_two)
unfolding insert_inbound fits_row fits_integer
second_stored = refl

Changes-IsKept_example : IsKept stored_two
Changes-IsKept_example = Changes-IsKept (
    next (next here (inbound hello (codes "f1") (codes "t") _ first_stored))
      (inbound hello (codes "f2") (codes "t") _ second_stored))

free : taken (codes "f2") stored.messages ≡ false
unfolding taken inserted text_eq
free = refl

hello_fits : fits_row hello ≡ true
unfolding fits_row fits_integer
hello_fits = refl

insert_inbound_once_example :
    (row : StoredMessage) × (db' : Database) × (insert_inbound hello (codes "f2") (codes "t") stored
      ≡ some (some row, db'))
    × (row.normalized_body ≡ codes "HI")
    × (row.message_type ≡ value telex)
    × (row.min ≡ none)
    × (row.mrn ≡ none)
    × (get row.id db' ≡ some row)
    × (get_by_fingerprint (codes "f2") db' ≡ some row)
    × (list_recent 1 db' ≡ row ∷ [])
    × (insert_inbound hello (codes "f2") (codes "u") db' ≡ some (none, db'))
insert_inbound_once_example =
    insert_inbound_once hello hello (codes "f2") (codes "t") (codes "u") stored free hello_fits
      hello_fits
