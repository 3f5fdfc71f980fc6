-- ===== src/Models/Settings/Sanitize/Again.antt =====
-- A well formed format is what `sanitize_payload` makes of its own payload.
use acars_printer.Prelude.{
  ℕ, ◌≡◌, ◌≤◌, refl, ap, Option, none, some, inl, inr, arith, if◌then◌else◌,
}
use acars_printer.Prelude.Int.{ℤ}
use acars_printer.Text.{text_eq, is_space, lower, strip}
use acars_printer.Models.Settings.Forms.{clamp}
use acars_printer.Models.Settings.ReadBack.{Between}
use acars_printer.Models.Settings.Numbers.Ranges.{IsWithin, within}
use acars_printer.Models.Settings.Sanitize.{
  Format, field, either, int_field, int_value, clamped_value, clamped_some, optional_field,
  is_automatic, is_zero, is_no_spacing, spacing_words, columns_words, sanitize_payload, payload_of,
  optional_value, text_field, truthy, value_text,
}
use acars_printer.Models.Settings.Sanitize.WellFormed.{IsFormat}
use acars_printer.Models.Settings.Profiles.Stored.{one_of_two}

clamp-within : (lo hi n : ℕ) → Between lo hi n → clamp lo hi (ℤ.pos n) ≡ n
unfolding clamp
clamp-within lo hi n h = let l = h.0 in let u = h.1 in omega arith

clamped-kept : (lo hi n : ℕ) → lo ≤ n → n ≤ hi → clamped_some lo hi (some (ℤ.pos n)) ≡ some n
unfolding clamped_some
clamped-kept lo hi n l h = ap some (clamp-within lo hi n (l, h))

spacing-kept :
    (o : Option ℕ)
    → IsWithin 1 255 o
    → (if is_automatic spacing_words is_no_spacing (optional_value o)
        then none
        else clamped_some 1 255 (int_value (optional_value o)))
      ≡ o
unfolding is_automatic is_no_spacing optional_value int_value
spacing-kept none h = refl
spacing-kept (some n) (within _ l h) = let same = clamped-kept 1 255 n l h in ground arith

columns-kept :
    (o : Option ℕ)
    → IsWithin 16 80 o
    → (if is_automatic columns_words is_zero (optional_value o)
        then none
        else clamped_some 16 80 (int_value (optional_value o)))
      ≡ o
unfolding is_automatic is_zero optional_value int_value
columns-kept none h = refl
columns-kept (some n) (within _ l h) = let same = clamped-kept 16 80 n l h in ground arith

sanitize-options :
    (f : Format)
    → IsFormat f
    → ((sanitize_payload (payload_of f)).spacing ≡ f.spacing)
      × ((sanitize_payload (payload_of f)).columns ≡ f.columns)
unfolding sanitize_payload payload_of optional_field field text_eq
sanitize-options f h = (spacing-kept f.spacing h.spacing_ok, columns-kept f.columns h.columns_ok)

sanitize-words :
    (f : Format)
    → IsFormat f
    → ((sanitize_payload (payload_of f)).paper ≡ f.paper)
      × ((sanitize_payload (payload_of f)).font ≡ f.font)
      × ((sanitize_payload (payload_of f)).mode ≡ f.mode)
unfolding sanitize_payload payload_of text_field field text_eq truthy value_text either lower strip
    is_space
sanitize-words f h = (
  elim (one_of_two _ _ f.paper h.paper_ok) [ inl e ↦ rw e refl | inr e ↦ rw e refl ],
  elim (one_of_two _ _ f.font h.font_ok) [ inl e ↦ rw e refl | inr e ↦ rw e refl ],
  elim (one_of_two _ _ f.mode h.mode_ok) [ inl e ↦ rw e refl | inr e ↦ rw e refl ],
)

-- A well formed format is what `sanitize_payload` makes of its own payload.
pub sanitize_payload-payload_of : (f : Format) → IsFormat f → sanitize_payload (payload_of f) ≡ f
unfolding sanitize_payload payload_of int_field int_value clamped_value field text_eq truthy
sanitize_payload-payload_of f h =
    let words = sanitize-words f h in
    let options = sanitize-options f h in
    rw (words.0, words.1, words.2, options.0, options.1)
      (rw
        (
          clamp-within 1 8 f.width h.width_ok,
          clamp-within 1 8 f.height h.height_ok,
          clamp-within 8 64 f.glyph h.glyph_ok,
          clamp-within 0 32 f.gap h.gap_ok,
          clamp-within 0 12 f.lead_in h.lead_in_ok,
          clamp-within 0 16 f.tear_feed h.tear_feed_ok,
        )
        refl)
