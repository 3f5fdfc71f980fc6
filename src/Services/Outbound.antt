-- ===== src/Services/Outbound.antt =====
-- `OutboundMessageService` of src/acars_bridge/services/outbound.py: the state that its methods share,
-- the credentials and the check of an answer. The children hold the methods.
pub mod Sends
pub mod Inforeq
pub mod Refusal
pub mod Reply
use acars_printer.Prelude.{
  ℕ, ◌≡◌, ap, Bool, true, false, Option, none, some, List, [], ◌∷◌, not, ◌&&◌, or_else,
  if◌then◌else◌,
}
use acars_printer.Text.{Text, codes, is_empty, strip}
use acars_printer.Hoppie.Types.{Result, Error, HoppieMessage}
use acars_printer.Hoppie.Parser.{parse_response}
use acars_printer.Hoppie.Requests.{Fields}
use acars_printer.Models.Messages.{StoredMessage, Database, Outbound, insert_outbound}
use acars_printer.Models.Settings.Store.{SettingsStore}
use acars_printer.Models.Settings.Names.{Fernet, callsign, hoppie_logon}
use acars_printer.Models.Settings.Switches.{companion_station_enabled}
use acars_printer.Services.PrintManager.{Printing}
use acars_printer.Services.Ingestion.{Service}
use acars_printer.Services.WireSession.{WireSessionCreds, WireSessionVault, get_creds}
use acars_printer.Services.StationIdentity.{StationIdentity, resolve_station_identity}

-- What the service reads and writes: the settings, the credentials from the wire, the messages with
-- their printer, and the forms that were posted, the newest first.
pub record Office : Type 0 where
  pub settings : SettingsStore
  pub vault : WireSessionVault
  pub service : Service
  pub posted : List Fields

-- What is outside: the answer of the network to a form, or the error of the client; the cipher of the
-- logon; the printer; the callsign of the plan that the SimBrief watcher follows; the columns of the
-- bitmap font; the clock and the stamp of a row.
pub record Outside : Type 0 where
  pub connect : Fields → Result Text
  pub fernet : Fernet
  pub printing : Printing
  pub plan_callsign : Option Text
  pub bitmap_columns : ℕ
  pub now : ℕ
  pub stamp : Text

-- What a method raises: an error of the code's own, an exception of the database, or a failed `assert`. The
-- last is no exception of the code: it marks where the model stops.
pub data Raised : Type 0 where
  refused : Error → Raised
  database_error : Raised
  assertion_error : Raised
  beyond_model : Raised

pub data Answer {ℓ} (A : Type ℓ) : Type ℓ where
  answer : A → Answer A
  raised : Raised → Answer A

-- A method: what was written stays written when it raises.
abbrev pub Action {ℓ} : Type ℓ → Type ℓ
Action A = Office → Answer A × Office

module _ {ℓ} {A : Type ℓ} where
  abbrev pub pure : A → Action A
  pure a o = (answer a, o)

  abbrev pub fail : Raised → Action A
  fail e o = (raised e, o)

  abbrev pub lift : Result A → Action A
  lift (Result.ok a) o = (answer a, o)
  lift (Result.raise e) o = (raised (refused e), o)

  abbrev pub gets : (Office → A) → Action A
  gets f o = (answer (f o), o)

  abbrev pub or_raise : Raised → Option A → Action A
  or_raise e none o = (raised e, o)
  or_raise e (some a) o = (answer a, o)

-- The rest of a method, from what its first step came to.
unfoldable pub go_on {ℓ κ} :
    {A : Type ℓ} {B : Type κ} → Answer A × Office → (A → Action B) → Answer B × Office
go_on (answer x, o) f = f x o
go_on (raised e, o) f = (raised e, o)

infixl 5 ◌>>=◌ ◌>>◌
unfoldable pub ◌>>=◌ {ℓ κ} : {A : Type ℓ} {B : Type κ} → Action A → (A → Action B) → Action B
unfolding go_on
◌>>=◌ m f o = go_on (m o) f

module _ {ℓ κ} {A : Type ℓ} {B : Type κ} where
  -- The first step decides: it raises, or the rest goes on from its answer.
  pub >>=-raised :
      (m : Action A) (f : A → Action B) (o : Office) (e : Raised) (o' : Office)
      → m o ≡ (raised e, o')
      → (m >>= f) o ≡ (raised e, o')
  unfolding ◌>>=◌
  >>=-raised m f o e o' h = ap (λ r. go_on r f) h

  pub >>=-answer :
      (m : Action A) (f : A → Action B) (o : Office) (a : A) (o' : Office)
      → m o ≡ (answer a, o')
      → (m >>= f) o ≡ f a o'
  unfolding ◌>>=◌
  >>=-answer m f o a o' h = ap (λ r. go_on r f) h

abbrev pub ◌>>◌ {ℓ κ} : {A : Type ℓ} {B : Type κ} → Action A → Action B → Action B
m >> k = m >>= λ _. k

abbrev pub modify : (Office → Office) → Action (Unit {0})
modify f o = (answer tt, f o)

abbrev pub raise_if : Bool → Error → Action (Unit {0})
raise_if c e o = (if c then raised (refused e) else answer tt, o)

abbrev pub set_setting : (SettingsStore → SettingsStore) → Action (Unit {0})
set_setting f = modify λ o. record o { settings = f o.settings }

abbrev pub database_of : Office → Database
database_of o = o.service.world.database

abbrev pub with_database : Database → Office → Office
with_database db o = record o {
  service = record o.service { world = record o.service.world { database = db } };
}

-- The texts of the errors; their hints, for the phone's page, are left out.
abbrev pub no_logon : Error
no_logon = Error.hoppie_error (codes "Set your Hoppie logon under Network.")

abbrev pub no_callsign : Error
no_callsign = Error.hoppie_error (codes "No callsign yet.")

abbrev pub cannot_send : Error
cannot_send = Error.send_not_allowed (codes "Can't send from the phone yet.")

-- A value that is there and not empty.
unfoldable pub present : Error → Option Text → Result Text
present e none = Result.raise e
present e (some []) = Result.raise e
present e (some (c ∷ s)) = Result.ok (c ∷ s)

module _ (w : Outside) where
  -- `resolve_station_identity(self._session)`, which may write the settings.
  unfoldable pub identify : Action StationIdentity
  identify o =
      let (identity, settings) =
        resolve_station_identity w.plan_callsign (database_of o) o.settings in
      (answer identity, record o { settings = settings })

  station_credentials : Action (Text × Text)
  station_credentials = do
    logon ← gets λ o. hoppie_logon w.fernet o.settings
    identity ← identify
    l ← lift (present no_logon logon)
    cs ← lift (present no_callsign identity.callsign)
    pure (l, cs)

  wire_or_refused : Option WireSessionCreds → Action (Text × Text)
  wire_or_refused none = fail (refused cannot_send)
  wire_or_refused (some c) = pure (c.logon, c.from_cs)

  wire_credentials : Action (Text × Text)
  unfolding wire_or_refused
  wire_credentials o =
      let (creds, vault) = get_creds w.now o.vault in
      wire_or_refused creds (record o { vault = vault })

  -- `_require_credentials`: the logon and the callsign to send from.
  unfoldable pub require_credentials : Action (Text × Text)
  unfolding station_credentials wire_credentials wire_or_refused
  require_credentials o =
      if companion_station_enabled o.settings then station_credentials o else wire_credentials o

  -- The client posts a form and returns the text of the answer.
  unfoldable pub post : Fields → Action Text
  post fields o = lift (w.connect fields) (record o { posted = fields ∷ o.posted })

  text_or_test : Option Text → Text
  text_or_test none = codes "TEST"
  text_or_test (some []) = codes "TEST"
  text_or_test (some (c ∷ s)) = c ∷ s

  -- `raw if raw.strip() else "ok"`.
  unfoldable pub raw_or_ok : Text → Text
  raw_or_ok raw = if is_empty (strip raw) then codes "ok" else raw

  -- `_ensure_ok`.
  unfoldable pub ensure_ok : Text → Action (List HoppieMessage)
  unfolding text_or_test
  ensure_ok raw o = lift (parse_response (raw_or_ok raw) (text_or_test (callsign o.settings))) o

  -- `insert_outbound`, whose `assert` finds the row that it wrote.
  unfoldable pub store_outbound : Outbound → Action StoredMessage
  store_outbound row o =
      let (stored, database) = insert_outbound row w.stamp (database_of o) in
      or_raise assertion_error stored (with_database database o)
