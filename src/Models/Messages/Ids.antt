-- ===== src/Models/Messages/Ids.antt =====
-- What the tables of the repository keep through every method: ids that fall from the newest row to
-- the oldest and stay below the next one, fingerprints that no two rows share, and print jobs that
-- belong to a row.
use acars_printer.Prelude.{
  if◌then◌else◌, subst, false, ℕ, ◌≤◌, ◌<◌, ◌≡◌, refl, sym, ◌∙◌, inl, inr, Bool, true, false,
  Option, none, some, List, [], ◌∷◌, ◌==◌, All, any, arith, Bool-cases,
}
use acars_printer.Text.{Text}
use acars_printer.Hoppie.Types.{HoppieMessage}
use acars_printer.Models.Messages.{
  StoredMessage, PrintJob, Database, empty_database, taken, fits_row, inserted, insert_inbound,
  Outbound, insert_outbound, ticket_row, insert_ticket, get, job_row, push_job, clear_all,
  create_print_job, push_row,
}

abbrev pub Descends : ℕ → List StoredMessage → Type 0
Descends bound [] = Unit
Descends bound (m ∷ ms) = (m.id < bound) × (1 ≤ m.id) × Descends m.id ms

-- No row of the list has the fingerprint.
abbrev pub Free : Option Text → List StoredMessage → Type 0
Free none ms = Unit
Free (some fp) ms = taken fp ms ≡ false

abbrev pub Unique : List StoredMessage → Type 0
Unique [] = Unit
Unique (m ∷ ms) = Free m.fingerprint ms × Unique ms

abbrev pub has_id : ℕ → List StoredMessage → Bool
has_id id = any (λ m. m.id == id)

pub record IsKept (db : Database) : Type 0 where
  pub next : 1 ≤ db.next_message
  pub ids : Descends db.next_message db.messages
  pub fingerprints : Unique db.messages
  pub owned : All (λ j. has_id j.message_id db.messages ≡ true) db.print_jobs

-- A change of the database by one method.
pub data Change (db db' : Database) : Type 0 where
  inbound :
      (m : HoppieMessage) (fp now : Text) (row : Option StoredMessage)
      → insert_inbound m fp now db ≡ some (row, db')
      → Change db db'
  outbound : (o : Outbound) (now : Text) → db' ≡ (insert_outbound o now db).1 → Change db db'
  ticket :
      (callsign ticket_type body fp sender now : Text) (row : StoredMessage)
      → insert_ticket callsign ticket_type body fp sender now db ≡ some (row, db')
      → Change db db'
  job :
      (id : ℕ) (printer status : Text) (error : Option Text) (reprint : Bool) (now : Text)
      → create_print_job id printer status error reprint now db ≡ some db'
      → Change db db'
  cleared : db' ≡ clear_all db → Change db db'

pub data Changes : Database → Database → Type 0 where
  here : {db : Database} → Changes db db
  next : {a b c : Database} → Changes a b → Change b c → Changes a c

has_id-cons :
    (row : StoredMessage) (ms : List StoredMessage) (js : List PrintJob)
    → All (λ j. has_id j.message_id ms ≡ true) js
    → All (λ j. has_id j.message_id (row ∷ ms) ≡ true) js
has_id-cons row ms [] h = tt
has_id-cons row ms (j ∷ js) h = (ground arith, has_id-cons row ms js h.1)

push_row-IsKept :
    (row : StoredMessage) {db : Database}
    → IsKept db
    → row.id ≡ db.next_message
    → Free row.fingerprint db.messages
    → IsKept (push_row row db)
push_row-IsKept row {db} k e f = record {
  next = omega arith;
  ids = (omega arith, omega arith, rw e k.ids);
  fingerprints = (f, k.fingerprints);
  owned = has_id-cons row db.messages db.print_jobs k.owned;
}

inserted-IsKept :
    (m : HoppieMessage) (fp now : Text) {db : Database}
    → IsKept db
    → IsKept (inserted m fp now db).1
inserted-IsKept m fp now {db} k = elim (Bool-cases (taken fp db.messages)) [
  | inl old ↦ unfold inserted in rw old k
  | inr new ↦ unfold inserted in rw new (push_row-IsKept _ k refl new)
]

-- An insert that returned.
insert_inbound-eq-some :
    (fits : Bool) (done : Option StoredMessage × Database) (row : Option StoredMessage)
    (db' : Database)
    → (if fits then some done else none) ≡ some (row, db')
    → done.1 ≡ db'
insert_inbound-eq-some true done row db' e = cc
insert_inbound-eq-some false done row db' e = cc

insert_inbound-IsKept :
    (m : HoppieMessage) (fp now : Text) (row : Option StoredMessage) {db db' : Database}
    → IsKept db
    → insert_inbound m fp now db ≡ some (row, db')
    → IsKept db'
unfolding insert_inbound
insert_inbound-IsKept m fp now row {db} {db'} k e =
    subst IsKept (insert_inbound-eq-some (fits_row m) (inserted m fp now db) row db' e)
      (inserted-IsKept m fp now k)

insert_outbound-IsKept :
    (o : Outbound) (now : Text) {db : Database} → IsKept db → IsKept (insert_outbound o now db).1
unfolding insert_outbound
insert_outbound-IsKept o now k = push_row-IsKept _ k refl tt

some_is_not_none {ℓ} : {A : Type ℓ} {a : A} → some a ≡ none → ⊥
some_is_not_none h = cc

get-push_row : (row : StoredMessage) (db : Database) → get row.id (push_row row db) ≡ some row
unfolding get
get-push_row row db = ground arith

some_pair_injective :
    {a b : StoredMessage} {c d : Database}
    → ◌≡◌ {A = Option (StoredMessage × Database)} (some (a, c)) (some (b, d))
    → (a ≡ b) × (c ≡ d)
some_pair_injective h = (cc, cc)

module _ (callsign ticket_type body fp sender now : Text) (db : Database) where
  abbrev made : StoredMessage
  made = ticket_row callsign ticket_type body fp sender now db.next_message

  insert_ticket-taken :
      taken fp db.messages ≡ true → insert_ticket callsign ticket_type body fp sender now db ≡ none
  unfolding insert_ticket
  insert_ticket-taken h = rw h

  insert_ticket-free :
      taken fp db.messages ≡ false
      → insert_ticket callsign ticket_type body fp sender now db ≡ some (made, push_row made db)
  insert_ticket-free h =
      let stored = get-push_row made db in unfold insert_ticket in rw h (rw stored)

  -- An insert of a ticket that does not raise.
  insert_ticket-eq-some :
      (row : StoredMessage) (db' : Database)
      → insert_ticket callsign ticket_type body fp sender now db ≡ some (row, db')
      → (taken fp db.messages ≡ false) × (db' ≡ push_row made db)
  insert_ticket-eq-some row db' e = elim (Bool-cases (taken fp db.messages)) [
    | inl old ↦ absurd (some_is_not_none (sym e ∙ insert_ticket-taken old))
    | inr new ↦ (new, sym (some_pair_injective (sym (insert_ticket-free new) ∙ e)).1)
  ]

insert_ticket-IsKept :
    (callsign ticket_type body fp sender now : Text) (row : StoredMessage) {db db' : Database}
    → IsKept db
    → insert_ticket callsign ticket_type body fp sender now db ≡ some (row, db')
    → IsKept db'
insert_ticket-IsKept callsign ticket_type body fp sender now row {db} {db'} k e =
    let (free, grown) =
      insert_ticket-eq-some callsign ticket_type body fp sender now db row db' e in
    rw grown (push_row-IsKept _ k (unfold ticket_row in refl) (unfold ticket_row in free))

some_injective_db : {a b : Database} → some a ≡ some b → a ≡ b
some_injective_db h = cc

IsKept-empty : IsKept empty_database
IsKept-empty = record { next = omega arith; ids = tt; fingerprints = tt; owned = tt }

module _ (id : ℕ) (printer status : Text) (error : Option Text) (reprint : Bool) (now : Text) where
  pub create_print_job-known :
      (db : Database)
      → has_id id db.messages ≡ true
      → create_print_job id printer status error reprint now db
        ≡ some (push_job (job_row id printer status error reprint now db.next_job) db)
  unfolding create_print_job
  create_print_job-known db known = rw known

  create_print_job-unknown :
      (db : Database)
      → has_id id db.messages ≡ false
      → create_print_job id printer status error reprint now db ≡ none
  unfolding create_print_job
  create_print_job-unknown db unknown = rw unknown

  create_print_job-eq-some :
      (db db' : Database)
      → create_print_job id printer status error reprint now db ≡ some db'
      → (has_id id db.messages ≡ true)
        × (db' ≡ push_job (job_row id printer status error reprint now db.next_job) db)
  create_print_job-eq-some db db' e = elim (Bool-cases (has_id id db.messages)) [
    | inl known ↦ (known, sym (some_injective_db (sym (create_print_job-known db known) ∙ e)))
    | inr unknown ↦ absurd (some_is_not_none (sym e ∙ create_print_job-unknown db unknown))
  ]

  create_print_job-IsKept :
      {db db' : Database}
      → IsKept db
      → create_print_job id printer status error reprint now db ≡ some db'
      → IsKept db'
  create_print_job-IsKept {db} {db'} k e =
      let (known, grown) = create_print_job-eq-some db db' e in
      rw grown (record {
        next = k.next;
        ids = k.ids;
        fingerprints = k.fingerprints;
        owned = (unfold job_row in known, k.owned);
      })

Change-IsKept : {db db' : Database} → Change db db' → IsKept db → IsKept db'
Change-IsKept (inbound m fp now row e) k = insert_inbound-IsKept m fp now row k e
Change-IsKept (outbound o now e) k = rw e (insert_outbound-IsKept o now k)
Change-IsKept (ticket c t b fp s now row e) k = insert_ticket-IsKept c t b fp s now row k e
Change-IsKept (job id p s r b now e) k = create_print_job-IsKept id p s r b now k e
Change-IsKept (cleared e) k = rw e (unfold clear_all in IsKept-empty)

-- A new database, after any methods of the repository that did not raise, has message ids from one
-- up that fall from the newest row to the oldest and stay below the next id, has no fingerprint
-- twice, and has no print job without its message.
pub Changes-IsKept : {db : Database} → Changes empty_database db → IsKept db
Changes-IsKept here = IsKept-empty
Changes-IsKept (next cs c) = Change-IsKept c (Changes-IsKept cs)
