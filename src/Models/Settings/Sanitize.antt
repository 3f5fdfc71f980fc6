-- ===== src/Models/Settings/Sanitize.antt =====
-- The payload of a print profile: `sanitize_payload` of src/acars_bridge/printing/profiles.py.
pub mod WellFormed
pub mod Again
use acars_printer.Prelude.{
  ℕ, Bool, true, false, Option, none, some, List, [], ◌∷◌, not, leb, if◌then◌else◌, or_else,
}
use acars_printer.Prelude.Int.{ℤ}
use acars_printer.Text.{
  Text, codes, is_empty, text_eq, one_of, strip, lower, int_of_text, text_of_int,
}
use acars_printer.Models.Settings.Forms.{clamp}

-- A value of a stored payload.
pub data Value : Type 0 where
  null : Value
  truth : Bool → Value
  whole : ℤ → Value
  words_of : Text → Value

abbrev pub Payload : Type 0
Payload = List (Text × Value)

-- `raw.get(key)`; `none` stands for a missing key.
unfoldable pub field : Text → Payload → Option Value
field key [] = none
field key ((k, v) ∷ raw) = let rest = field key raw in if text_eq k key then some v else rest

is_zero : ℤ → Bool
is_zero (ℤ.pos n) = leb n 0
is_zero (ℤ.negsuc n) = false

-- `bool(value)`.
unfoldable pub truthy : Value → Bool
unfolding is_zero
truthy Value.null = false
truthy (Value.truth b) = b
truthy (Value.whole n) = not (is_zero n)
truthy (Value.words_of t) = not (is_empty t)

value_text : Value → Text
value_text Value.null = codes "None"
value_text (Value.truth true) = codes "True"
value_text (Value.truth false) = codes "False"
value_text (Value.whole n) = text_of_int n
value_text (Value.words_of t) = t

-- `str(raw.get(key, default) or default)`.
text_field : Text → Text → Payload → Text
text_field key default raw =
    let value = or_else (field key raw) (Value.words_of default) in
    if truthy value then value_text value else default

-- `int(value)`; `none` stands for the `TypeError` or the `ValueError`.
int_value : Value → Option ℤ
int_value Value.null = none
int_value (Value.truth b) = some (ℤ.pos (if b then 1 else 0))
int_value (Value.whole n) = some n
int_value (Value.words_of t) = int_of_text t

clamped_value : ℕ → ℕ → ℕ → Option ℤ → ℕ
clamped_value default lo hi none = default
clamped_value default lo hi (some n) = clamp lo hi n

-- `_int(key, default, lo, hi)`.
int_field : Text → ℕ → ℕ → ℕ → Payload → ℕ
unfolding clamped_value
int_field key default lo hi raw =
    clamped_value default lo hi (int_value (or_else (field key raw) (Value.whole (ℤ.pos default))))

-- A value among the texts, or one of zero and the negative integer that is given.
is_automatic : List Text → (ℤ → Bool) → Value → Bool
is_automatic texts integers Value.null = true
is_automatic texts integers (Value.truth b) = integers (ℤ.pos (if b then 1 else 0))
is_automatic texts integers (Value.whole n) = integers n
is_automatic texts integers (Value.words_of t) = one_of texts t

clamped_some : ℕ → ℕ → Option ℤ → Option ℕ
clamped_some lo hi none = none
clamped_some lo hi (some n) = some (clamp lo hi n)

-- A number that may be left to the printer.
optional_field : List Text → (ℤ → Bool) → Text → ℕ → ℕ → Payload → Option ℕ
unfolding clamped_some is_automatic
optional_field texts integers key lo hi raw =
    let value = or_else (field key raw) Value.null in
    if is_automatic texts integers value then none else clamped_some lo hi (int_value value)

is_no_spacing : ℤ → Bool
is_no_spacing (ℤ.pos n) = leb n 0
is_no_spacing (ℤ.negsuc n) = leb n 0

-- The texts that leave a number to the printer.
abbrev pub spacing_words : List Text
spacing_words = codes "" ∷ codes "default" ∷ codes "auto" ∷ codes "-1" ∷ codes "0" ∷ []

abbrev pub columns_words : List Text
columns_words = codes "" ∷ codes "auto" ∷ codes "0" ∷ []

-- The format of a strip, as a payload gives it after `sanitize_payload`.
pub record Format : Type 0 where
  pub paper : Text
  pub cut : Bool
  pub font : Text
  pub bold : Bool
  pub mode : Text
  pub width : ℕ
  pub height : ℕ
  pub spacing : Option ℕ
  pub glyph : ℕ
  pub gap : ℕ
  pub columns : Option ℕ
  pub lead_in : ℕ
  pub tear_feed : ℕ

either : Text → Text → Text → Text
either choice other value = if text_eq value choice then choice else other

unfoldable pub sanitize_payload : Payload → Format
unfolding text_field int_field int_value value_text clamped_value optional_field is_automatic
    clamped_some is_no_spacing is_zero either
sanitize_payload raw = record {
  paper = either (codes "58") (codes "80") (text_field (codes "paper_width") (codes "80") raw);
  cut = truthy (or_else (field (codes "cut_enabled") raw) (Value.truth true));
  font =
      either (codes "b") (codes "a")
        (lower (strip (text_field (codes "print_font") (codes "a") raw)));
  bold = truthy (or_else (field (codes "print_bold") raw) (Value.truth false));
  mode =
      either (codes "native") (codes "bitmap")
        (lower (strip (text_field (codes "print_render_mode") (codes "bitmap") raw)));
  width = int_field (codes "print_char_width") 1 1 8 raw;
  height = int_field (codes "print_char_height") 1 1 8 raw;
  spacing = optional_field spacing_words is_no_spacing (codes "print_line_spacing_dots") 1 255 raw;
  glyph = int_field (codes "print_glyph_px") 28 8 64 raw;
  gap = int_field (codes "print_line_gap_px") 2 0 32 raw;
  columns = optional_field columns_words is_zero (codes "print_columns") 16 80 raw;
  lead_in = int_field (codes "print_lead_in") 2 0 12 raw;
  tear_feed = int_field (codes "print_tear_feed") 6 0 16 raw;
}

optional_value : Option ℕ → Value
optional_value none = Value.null
optional_value (some n) = Value.whole (ℤ.pos n)

-- The payload of a format.
unfoldable pub payload_of : Format → Payload
unfolding optional_value
payload_of f =
    (codes "paper_width", Value.words_of f.paper)
    ∷ (codes "cut_enabled", Value.truth f.cut)
    ∷ (codes "print_font", Value.words_of f.font)
    ∷ (codes "print_bold", Value.truth f.bold)
    ∷ (codes "print_render_mode", Value.words_of f.mode)
    ∷ (codes "print_char_width", Value.whole (ℤ.pos f.width))
    ∷ (codes "print_char_height", Value.whole (ℤ.pos f.height))
    ∷ (codes "print_line_spacing_dots", optional_value f.spacing)
    ∷ (codes "print_glyph_px", Value.whole (ℤ.pos f.glyph))
    ∷ (codes "print_line_gap_px", Value.whole (ℤ.pos f.gap))
    ∷ (codes "print_columns", optional_value f.columns)
    ∷ (codes "print_lead_in", Value.whole (ℤ.pos f.lead_in))
    ∷ (codes "print_tear_feed", Value.whole (ℤ.pos f.tear_feed))
    ∷ []
