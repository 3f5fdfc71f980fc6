-- ===== src/Models/Settings/Sanitize/WellFormed.antt =====
-- Every format that `sanitize_payload` gives is well formed: its words are among their choices and its
-- numbers in their ranges.
use acars_printer.Prelude.{
  ℕ, ◌≡◌, ◌≤◌, refl, Bool, true, Option, none, some, List, [], ◌∷◌, or_else, Bool-cases, inl, inr,
  arith,
}
use acars_printer.Prelude.Int.{ℤ}
use acars_printer.Text.{Text, codes, text_eq, text_eq_iff, one_of}
use acars_printer.Models.Settings.Forms.{clamp, clamp-between}
use acars_printer.Models.Settings.ReadBack.{Between}
use acars_printer.Models.Settings.Numbers.Ranges.{IsWithin, automatic, within}
use acars_printer.Models.Settings.Sanitize.{
  Value, Payload, Format, field, either, int_field, int_value, clamped_value, clamped_some,
  optional_field, is_automatic, is_zero, is_no_spacing, spacing_words, columns_words,
  sanitize_payload,
}

-- The format that `sanitize_payload` gives: the words are among their choices and the numbers in their
-- ranges.
pub record IsFormat (f : Format) : Type 0 where
  pub paper_ok : one_of (codes "58" ∷ codes "80" ∷ []) f.paper ≡ true
  pub font_ok : one_of (codes "b" ∷ codes "a" ∷ []) f.font ≡ true
  pub mode_ok : one_of (codes "native" ∷ codes "bitmap" ∷ []) f.mode ≡ true
  pub width_ok : Between 1 8 f.width
  pub height_ok : Between 1 8 f.height
  pub spacing_ok : IsWithin 1 255 f.spacing
  pub glyph_ok : Between 8 64 f.glyph
  pub gap_ok : Between 0 32 f.gap
  pub columns_ok : IsWithin 16 80 f.columns
  pub lead_in_ok : Between 0 12 f.lead_in
  pub tear_feed_ok : Between 0 16 f.tear_feed

either-one_of : (a b w : Text) → one_of (a ∷ b ∷ []) (either a b w) ≡ true
unfolding either
either-one_of a b w = elim (Bool-cases (text_eq w a)) [
  | inl same ↦ let e = (text_eq_iff a a).1 refl in rw same (rw e refl)
  | inr other ↦
      let e = (text_eq_iff b b).1 refl in
      rw other (rw e (elim (Bool-cases (text_eq b a)) [ inl h ↦ rw h refl | inr h ↦ rw h refl ]))
]

clamped_value-Between :
    (default lo hi : ℕ) (n : Option ℤ)
    → Between lo hi default
    → Between lo hi (clamped_value default lo hi n)
unfolding clamped_value
clamped_value-Between default lo hi none h = h
clamped_value-Between default lo hi (some n) h =
    let l = h.0 in let u = h.1 in clamp-between lo hi n (omega arith)

int_field-Between :
    (key : Text) (default lo hi : ℕ) (raw : Payload)
    → Between lo hi default
    → Between lo hi (int_field key default lo hi raw)
unfolding int_field
int_field-Between key default lo hi raw h =
    clamped_value-Between default lo hi
      (int_value (or_else (field key raw) (Value.whole (ℤ.pos default)))) h

clamped_some-IsWithin : (lo hi : ℕ) (n : Option ℤ) → lo ≤ hi → IsWithin lo hi (clamped_some lo hi n)
unfolding clamped_some
clamped_some-IsWithin lo hi none h = automatic
clamped_some-IsWithin lo hi (some n) h =
    let b = clamp-between lo hi n h in within (clamp lo hi n) b.0 b.1

optional_field-IsWithin :
    (texts : List Text) (integers : ℤ → Bool) (key : Text) (lo hi : ℕ) (raw : Payload)
    → lo ≤ hi
    → IsWithin lo hi (optional_field texts integers key lo hi raw)
unfolding optional_field
optional_field-IsWithin texts integers key lo hi raw h =
    let value = or_else (field key raw) Value.null in
    elim (Bool-cases (is_automatic texts integers value)) [
      | inl a ↦ rw a automatic
      | inr a ↦ rw a (clamped_some-IsWithin lo hi (int_value value) h)
    ]

-- Whatever a payload holds, the format made of it is well formed.
pub sanitize_payload-IsFormat : (raw : Payload) → IsFormat (sanitize_payload raw)
unfolding sanitize_payload
sanitize_payload-IsFormat raw = record {
  paper_ok = either-one_of (codes "58") (codes "80") _;
  font_ok = either-one_of (codes "b") (codes "a") _;
  mode_ok = either-one_of (codes "native") (codes "bitmap") _;
  width_ok = int_field-Between (codes "print_char_width") 1 1 8 raw (omega arith, omega arith);
  height_ok = int_field-Between (codes "print_char_height") 1 1 8 raw (omega arith, omega arith);
  spacing_ok =
      optional_field-IsWithin spacing_words is_no_spacing (codes "print_line_spacing_dots") 1 255
        raw (omega arith);
  glyph_ok = int_field-Between (codes "print_glyph_px") 28 8 64 raw (omega arith, omega arith);
  gap_ok = int_field-Between (codes "print_line_gap_px") 2 0 32 raw (omega arith, omega arith);
  columns_ok =
      optional_field-IsWithin columns_words is_zero (codes "print_columns") 16 80 raw (omega arith);
  lead_in_ok = int_field-Between (codes "print_lead_in") 2 0 12 raw (omega arith, omega arith);
  tear_feed_ok = int_field-Between (codes "print_tear_feed") 6 0 16 raw (omega arith, omega arith);
}
