-- ===== src/Hoppie/Types.antt =====
-- `MessageType`, `HoppieMessage` and the errors: src/acars_bridge/hoppie/types.py and errors.py.
use acars_printer.Prelude.{ℕ, Bool, true, false, Option, none, some, List, [], ◌∷◌, if◌then◌else◌}
use acars_printer.Text.{Text, codes, lower, strip, text_eq}

pub data MessageType : Type 0 where
  cpdlc telex progress position posreq ping datareq inforeq unknown : MessageType

-- `message_type.value`.
unfoldable pub value : MessageType → Text
value cpdlc = codes "cpdlc"
value telex = codes "telex"
value progress = codes "progress"
value position = codes "position"
value posreq = codes "posreq"
value ping = codes "ping"
value datareq = codes "datareq"
value inforeq = codes "inforeq"
value unknown = codes "unknown"

all_types : List MessageType
all_types = cpdlc ∷ telex ∷ progress ∷ position ∷ posreq ∷ ping ∷ datareq ∷ inforeq ∷ unknown ∷ []

-- `cls(normalized)`, which raises on any other value.
type_among : Text → List MessageType → Option MessageType
unfolding value
type_among s [] = none
type_among s (t ∷ ts) = if text_eq (value t) s then some t else type_among s ts

known_or : MessageType → Option MessageType → MessageType
known_or d none = d
known_or d (some t) = t

unfoldable pub from_hoppie : Text → MessageType
unfolding type_among all_types known_or
from_hoppie raw =
    let normalized = lower (strip raw) in
    if text_eq normalized (codes "info")
    then inforeq
    else known_or unknown (type_among normalized all_types)

unfoldable pub is_cpdlc : MessageType → Bool
is_cpdlc cpdlc = true
is_cpdlc _ = false

unfoldable pub is_unknown : MessageType → Bool
is_unknown unknown = true
is_unknown _ = false

pub record HoppieMessage : Type 0 where
  pub callsign : Text
  pub sender : Option Text
  pub recipient : Option Text
  pub message_type : MessageType
  pub raw_payload : Text
  pub normalized_body : Text
  pub min : Option ℕ
  pub mrn : Option ℕ
  pub ra : Option Text

-- What the code raises, with its message.
pub data Error : Type 0 where
  hoppie_error : Text → Error
  callsign_in_use : Text → Error
  send_not_allowed : Text → Error
  value_error : Text → Error

pub data Result {ℓ} (A : Type ℓ) : Type ℓ where
  ok : A → Result A
  raise : Error → Result A

infixl 5 ◌>>=◌ ◌>>◌
abbrev pub ◌>>=◌ {ℓ κ} : {A : Type ℓ} {B : Type κ} → Result A → (A → Result B) → Result B
ok a >>= f = f a
raise e >>= f = raise e

abbrev pub ◌>>◌ {ℓ} : {B : Type ℓ} → Result (Unit {0}) → Result B → Result B
m >> k = m >>= λ _. k
