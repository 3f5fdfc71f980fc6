-- ===== src/Models/Messages/Lookup.antt =====
-- What the queries return after an insert, and that a fingerprint is stored once.
use acars_printer.Prelude.{◌≡◌, refl, ap, ◌∙◌, true, false, none, some, List, [], ◌∷◌, arith}
use acars_printer.Text.{Text, text_eq, text_eq_iff}
use acars_printer.Hoppie.Types.{HoppieMessage, value}
use acars_printer.Models.Messages.{
  StoredMessage, Database, has_fingerprint, taken, fits_row, inserted, insert_inbound, get,
  get_by_fingerprint, list_recent, push_row, inbound_row,
}

text_eq_refl : (s : Text) → text_eq s s ≡ true
text_eq_refl s = (text_eq_iff s s).1 refl

get-push_row : (row : StoredMessage) (db : Database) → get row.id (push_row row db) ≡ some row
unfolding get
get-push_row row db = ground arith

has_fingerprint_own :
    (row : StoredMessage) (fp : Text) → row.fingerprint ≡ some fp → has_fingerprint fp row ≡ true
has_fingerprint_own row fp h = rw h (text_eq_refl fp)

get_by_fingerprint-push_row :
    (row : StoredMessage) (fp : Text) (db : Database)
    → row.fingerprint ≡ some fp
    → get_by_fingerprint fp (push_row row db) ≡ some row
get_by_fingerprint-push_row row fp db h =
    let own = has_fingerprint_own row fp h in unfold get_by_fingerprint in rw own

list_recent-push_row :
    (row : StoredMessage) (db : Database) → list_recent 1 (push_row row db) ≡ row ∷ []
unfolding list_recent
list_recent-push_row row db = refl

pub taken-push_row :
    (row : StoredMessage) (fp : Text) (ms : List StoredMessage)
    → row.fingerprint ≡ some fp
    → taken fp (row ∷ ms) ≡ true
taken-push_row row fp ms h = let own = has_fingerprint_own row fp h in unfold taken in rw own

pub inserted-free :
    (m : HoppieMessage) (fp now : Text) (db : Database)
    → taken fp db.messages ≡ false
    → let row = inbound_row m fp now db.next_message in
      inserted m fp now db ≡ (some row, push_row row db)
inserted-free m fp now db h =
    let stored = get-push_row (inbound_row m fp now db.next_message) db in
    unfold inserted in rw h (rw stored)

pub inserted-taken :
    (m : HoppieMessage) (fp now : Text) (db : Database)
    → taken fp db.messages ≡ true
    → inserted m fp now db ≡ (none, db)
unfolding inserted
inserted-taken m fp now db h = rw h

pub insert_inbound-fits :
    (m : HoppieMessage) (fp now : Text) (db : Database)
    → fits_row m ≡ true
    → insert_inbound m fp now db ≡ some (inserted m fp now db)
unfolding insert_inbound
insert_inbound-fits m fp now db h = rw h refl

-- Storing an inbound message whose numbers fit into an INTEGER and whose fingerprint is not there returns a
-- row with the message's texts, and the row is then found by its id and by its fingerprint, and is the
-- newest; storing another such message with that fingerprint, at any time, returns nothing and leaves the
-- database as it is.
pub insert_inbound_once :
    (m n : HoppieMessage) (fp now later : Text) (db : Database)
    → taken fp db.messages ≡ false
    → fits_row m ≡ true
    → fits_row n ≡ true
    → (row : StoredMessage) × (db' : Database) × (insert_inbound m fp now db ≡ some (some row, db'))
      × (row.normalized_body ≡ m.normalized_body)
      × (row.message_type ≡ value m.message_type)
      × (row.min ≡ m.min)
      × (row.mrn ≡ m.mrn)
      × (get row.id db' ≡ some row)
      × (get_by_fingerprint fp db' ≡ some row)
      × (list_recent 1 db' ≡ row ∷ [])
      × (insert_inbound n fp later db' ≡ some (none, db'))
insert_inbound_once m n fp now later db h fits fits' =
    let row = inbound_row m fp now db.next_message in
    let mine : row.fingerprint ≡ some fp = unfold inbound_row in refl in
    let again =
      inserted-taken n fp later (push_row row db) (taken-push_row row fp db.messages mine) in
    (
      row,
      push_row row db,
      insert_inbound-fits m fp now db fits ∙ ap some (inserted-free m fp now db h),
      unfold inbound_row in refl,
      unfold inbound_row in refl,
      unfold inbound_row in refl,
      unfold inbound_row in refl,
      get-push_row row db,
      get_by_fingerprint-push_row row fp db mine,
      list_recent-push_row row db,
      insert_inbound-fits n fp later (push_row row db) fits' ∙ ap some again,
    )
