-- ===== src/Hoppie/Cpdlc.antt =====
-- `CpdlcPacket`, `expand_cpdlc_at_marks` and `reply_choices` of src/acars_bridge/hoppie/cpdlc.py.
pub mod RoundTrip
use acars_printer.Prelude.{
  ℕ, Bool, true, false, Option, none, some, List, [], ◌∷◌, ◌++◌, map, not, ◌&&◌, ◌==◌, drop, length,
  any, if◌then◌else◌,
}
use acars_printer.Text.{
  Text, codes, is_digit, is_alpha, upper, strip, starts_with, text_eq, one_of, is_empty, split_on,
  join, replace_char, to_decimal, of_decimal,
}
use acars_printer.Hoppie.Sanitize.{collapse_blanks}
use acars_printer.Hoppie.Types.{Result, ok, raise, value_error}

-- `text.replace("@@", "\n")`.
replace_pairs : Text → Text
replace_pairs [] = []
replace_pairs (c ∷ []) = c ∷ []
replace_pairs (c ∷ d ∷ s) =
    let past_pair = b'\n' ∷ replace_pairs s in
    let past_one = c ∷ replace_pairs (d ∷ s) in
    if c == b'@' && d == b'@' then past_pair else past_one

unfoldable pub expand_cpdlc_at_marks : Text → Text
unfolding replace_pairs
expand_cpdlc_at_marks text =
    if is_empty text
    then []
    else let expanded = replace_char b'@' (b' ' ∷ []) (replace_pairs text) in
      join (b'\n' ∷ []) (map (λ line. strip (collapse_blanks line)) (split_on b'\n' expanded))

pub record CpdlcPacket : Type 0 where
  pub min : Option ℕ
  pub mrn : Option ℕ
  pub ra : Text
  pub text : Text

unfoldable pub display_text : CpdlcPacket → Text
display_text p = expand_cpdlc_at_marks p.text

abbrev pub number_text : Option ℕ → Text
number_text none = []
number_text (some n) = to_decimal n

abbrev pub header : Text
header = codes "/data2/"

-- `self.text.replace("\n", "@")`.
abbrev pub wire_text : Text → Text
wire_text = replace_char b'\n' (b'@' ∷ [])

unfoldable pub encode : CpdlcPacket → Text
encode p =
    header
    ++ (number_text p.min
        ++ (b'/' ∷ (number_text p.mrn ++ (b'/' ∷ (p.ra ++ (b'/' ∷ wire_text p.text))))))

-- The longest prefix of characters that pass, and the rest.
unfoldable pub span_of : (ℕ → Bool) → Text → Text × Text
span_of test [] = ([], [])
span_of test (c ∷ s) =
    let (run, rest) = span_of test s in if test c then (c ∷ run, rest) else ([], c ∷ s)

abbrev after_slash : Text → Text → Option (Text × Text)
after_slash run [] = none
after_slash run (c ∷ s) = if c == b'/' then some (run, s) else none

-- A run that ends with a slash: the run, and what follows the slash.
unfoldable pub field : (ℕ → Bool) → Text → Option (Text × Text)
unfolding span_of
field test s = let (run, rest) = span_of test s in after_slash run rest

abbrev pub number_of : Text → Option ℕ
number_of [] = none
number_of (c ∷ s) = some (of_decimal (c ∷ s))

unfoldable pub then_field {ℓ} :
    {A : Type ℓ} → (ℕ → Bool) → Text → (Text → Text → Option A) → Option A
then_field test s k = elim (field test s) [ none ↦ none | some (run, rest) ↦ k run rest ]

-- `_DATA2_RE.match`: no group shares a character with the slash behind it, so its match is unique.
unfoldable pub match_fields : Text → Option CpdlcPacket
match_fields s = then_field is_digit s λ min_raw after_min.
    then_field is_digit after_min λ mrn_raw after_mrn. then_field is_alpha after_mrn λ ra text.
      some (record { min = number_of min_raw; mrn = number_of mrn_raw; ra = ra; text = text })

unfoldable pub match_data2 : Text → Option CpdlcPacket
match_data2 s = if starts_with header s then match_fields (drop (length header) s) else none

abbrev pub not_data2 : Text
not_data2 = codes "Not a /data2/ CPDLC packet"

or_not_data2 : Option CpdlcPacket → Result CpdlcPacket
or_not_data2 none = raise (value_error not_data2)
or_not_data2 (some p) = ok p

-- The message of the error leaves out the packet, which the source appends.
unfoldable pub parse : Text → Result CpdlcPacket
unfolding or_not_data2
parse packet = or_not_data2 (match_data2 (strip packet))

abbrev pub allowed_replies : List Text
allowed_replies =
    codes "WILCO"
    ∷ codes "ROGER"
    ∷ codes "UNABLE"
    ∷ codes "STANDBY"
    ∷ codes "AFFIRM"
    ∷ codes "NEGATIVE"
    ∷ []

unfoldable pub build_reply : ℕ → Option ℕ → Text → Result CpdlcPacket
build_reply our_min uplink_min reply =
    let text = upper (strip reply) in
    if not (one_of allowed_replies text)
    then raise (value_error (codes "Unsupported CPDLC reply"))
    else ok (record { min = some our_min; mrn = uplink_min; ra = codes "N"; text = text })

unfoldable pub reply_choices : Text → List Text
reply_choices ra =
    let code = upper (strip ra) in
    if text_eq code (codes "WU")
    then codes "WILCO" ∷ codes "UNABLE" ∷ codes "STANDBY" ∷ []
    else if text_eq code (codes "AN")
    then codes "AFFIRM" ∷ codes "NEGATIVE" ∷ codes "STANDBY" ∷ []
    else if text_eq code (codes "R")
    then codes "ROGER" ∷ codes "STANDBY" ∷ []
    else if text_eq code (codes "Y")
    then codes "WILCO"
      ∷ codes "ROGER"
      ∷ codes "UNABLE"
      ∷ codes "STANDBY"
      ∷ codes "AFFIRM"
      ∷ codes "NEGATIVE"
      ∷ []
    else []

abbrev is_nil : List Text → Bool
is_nil [] = true
is_nil (r ∷ rs) = false

unfoldable pub requires_reply : CpdlcPacket → Bool
unfolding reply_choices
requires_reply p = not (is_nil (reply_choices p.ra))
