-- ===== src/Services/Fingerprint.antt =====
-- src/acars_bridge/services/fingerprint.py: the text whose SHA-256 is the fingerprint of a message.
-- The hash itself, over the text in UTF-8, is an argument of the modules that use it.
use acars_printer.Prelude.{ℕ, Option, none, some, [], ◌∷◌, ◌&&◌, if◌then◌else◌, or_else, is_some}
use acars_printer.Text.{Text, codes, upper, join, to_decimal}
use acars_printer.Hoppie.Types.{value, is_cpdlc, HoppieMessage}
use acars_printer.Hoppie.Parser.{unify_newlines, tidy_lines}

unfoldable pub canonicalize_body : Text → Text
canonicalize_body body = tidy_lines (unify_newlines body)

-- An optional text, as an f-string writes it.
abbrev shown : Option Text → Text
shown none = codes "None"
shown (some s) = s

abbrev shown_number : Option ℕ → Text
shown_number none = codes "None"
shown_number (some n) = to_decimal n

abbrev bar : Text
bar = b'|' ∷ []

cpdlc_basis : HoppieMessage → Text
cpdlc_basis m =
    join bar (
      codes "cpdlc-min" ∷ m.callsign ∷ shown m.sender ∷ shown_number m.min ∷ m.normalized_body ∷ [])

canonical : HoppieMessage → Text
canonical m = join bar (
    upper m.callsign
    ∷ upper (or_else m.sender [])
    ∷ upper (or_else m.recipient [])
    ∷ value m.message_type
    ∷ []
    ∷ canonicalize_body m.normalized_body
    ∷ [])

-- What `fingerprint_for` hashes.
unfoldable pub fingerprint_basis : HoppieMessage → Text
unfolding cpdlc_basis canonical
fingerprint_basis m =
    if is_some m.min && is_cpdlc m.message_type then cpdlc_basis m else canonical m
