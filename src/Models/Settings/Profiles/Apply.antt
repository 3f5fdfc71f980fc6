-- ===== src/Models/Settings/Profiles/Apply.antt =====
-- A profile that is applied is what the settings show afterwards.
use acars_printer.Prelude.{ℕ, ◌≡◌, refl, ap, ◌∙◌, arith, Option, none, some, if◌then◌else◌}
use acars_printer.Prelude.Int.{ℤ}
use acars_printer.Text.{Text, codes, text_eq, to_decimal, lower, strip}
use acars_printer.Hoppie.Types.{Result}
use acars_printer.Models.Settings.Store.{SettingsStore, get_key, set_key, get_key-set_key}
use acars_printer.Models.Settings.Forms.{clamp, number-stored, switch-stored}
use acars_printer.Models.Settings.Switches.{
  cut_enabled, set_cut_enabled, print_bold, set_print_bold,
}
use acars_printer.Models.Settings.Numbers.{
  print_glyph_px, set_print_glyph_px, print_line_gap_px, set_print_line_gap_px, print_lead_in,
  set_print_lead_in, print_tear_feed, set_print_tear_feed, set_print_char_width,
  set_print_char_height, print_line_spacing_dots, set_print_line_spacing_dots, print_columns,
  set_print_columns,
}
use acars_printer.Models.Settings.Choices.{set_paper_width, set_print_font, set_print_render_mode}
use acars_printer.Models.Settings.ReadBack.{Between}
use acars_printer.Models.Settings.Numbers.Ranges.{
  IsWithin, within, print_char_width-stored, print_char_height-stored,
}
use acars_printer.Models.Settings.Numbers.Optional.{
  spacing-set, columns-set, spacing-stored, spacing-default, columns-stored, columns-automatic,
}
use acars_printer.Models.Settings.Names.{set_active_print_profile}
use acars_printer.Models.Settings.Sanitize.{Format, sanitize_payload}
use acars_printer.Models.Settings.Profiles.{
  PrintProfile, ProfileJson, get_print_profile, apply_print_profile, apply_format, int_of,
  option_int, profile_payload_from_settings,
}
use acars_printer.Models.Settings.Sanitize.WellFormed.{IsFormat, sanitize_payload-IsFormat}
use acars_printer.Models.Settings.Profiles.Stored.{
  one_of_two, paper_width-stored, print_font-stored, print_render_mode-stored,
}

-- What the table holds under the keys of the numbers, after a format was applied.
apply_format-numbers :
    (f : Format) (id : Text) (s : SettingsStore)
    → (get_key (codes "print_glyph_px") (apply_format f id s)
        ≡ some (to_decimal (clamp 8 64 (ℤ.pos f.glyph))))
      × (get_key (codes "print_line_gap_px") (apply_format f id s)
          ≡ some (to_decimal (clamp 0 32 (ℤ.pos f.gap))))
      × (get_key (codes "print_lead_in") (apply_format f id s)
          ≡ some (to_decimal (clamp 0 12 (ℤ.pos f.lead_in))))
      × (get_key (codes "print_tear_feed") (apply_format f id s)
          ≡ some (to_decimal (clamp 0 16 (ℤ.pos f.tear_feed))))
      × (get_key (codes "print_char_width") (apply_format f id s)
          ≡ some (to_decimal (clamp 1 8 (ℤ.pos f.width))))
      × (get_key (codes "print_char_height") (apply_format f id s)
          ≡ some (to_decimal (clamp 1 8 (ℤ.pos f.height))))
unfolding apply_format set_paper_width set_cut_enabled set_print_font set_print_bold
    set_print_render_mode set_print_char_width set_print_char_height set_print_line_spacing_dots
    set_print_glyph_px set_print_line_gap_px set_print_columns set_print_lead_in set_print_tear_feed
    set_active_print_profile text_eq
apply_format-numbers f id s = (
  simp (get_key-set_key) refl,
  simp (get_key-set_key) refl,
  simp (get_key-set_key) refl,
  simp (get_key-set_key) refl,
  simp (get_key-set_key) refl,
  simp (get_key-set_key) refl,
)

-- And under those of the words and the switches.
apply_format-words :
    (f : Format) (id : Text) (s : SettingsStore)
    → (get_key (codes "paper_width") (apply_format f id s)
        ≡ some (if text_eq f.paper (codes "58") then codes "58" else codes "80"))
      × (get_key (codes "print_font") (apply_format f id s)
          ≡ some (if text_eq (lower (strip f.font)) (codes "b") then codes "b" else codes "a"))
      × (get_key (codes "print_render_mode") (apply_format f id s)
          ≡ some (
              if text_eq (lower (strip f.mode)) (codes "bitmap")
              then codes "bitmap"
              else codes "native"))
      × (get_key (codes "cut_enabled") (apply_format f id s)
          ≡ some (if f.cut then codes "1" else codes "0"))
      × (get_key (codes "print_bold") (apply_format f id s)
          ≡ some (if f.bold then codes "1" else codes "0"))
unfolding apply_format set_paper_width set_cut_enabled set_print_font set_print_bold
    set_print_render_mode set_print_char_width set_print_char_height set_print_line_spacing_dots
    set_print_glyph_px set_print_line_gap_px set_print_columns set_print_lead_in set_print_tear_feed
    set_active_print_profile text_eq
apply_format-words f id s = (
  simp (get_key-set_key) refl,
  simp (get_key-set_key) refl,
  simp (get_key-set_key) refl,
  simp (get_key-set_key) refl,
  simp (get_key-set_key) refl,
)

-- The setter of the dots, where the format's own are within their range.
spacing_text_of : Option ℕ → Option Text
spacing_text_of none = some (codes "default")
spacing_text_of (some n) = some (to_decimal n)

columns_text_of : Option ℕ → Option Text
columns_text_of none = none
columns_text_of (some n) = some (to_decimal n)

set_spacing-IsWithin :
    (o : Option ℕ) (s : SettingsStore)
    → IsWithin 1 255 o
    → set_print_line_spacing_dots (option_int o) s
      ≡ set_key (codes "print_line_spacing_dots") (spacing_text_of o) s
unfolding option_int int_of spacing_text_of set_print_line_spacing_dots
set_spacing-IsWithin none s h = refl
set_spacing-IsWithin (some n) s (within _ l h) = spacing-set n s l h

set_columns-IsWithin :
    (o : Option ℕ) (s : SettingsStore)
    → IsWithin 16 80 o
    → set_print_columns (option_int o) s ≡ set_key (codes "print_columns") (columns_text_of o) s
unfolding option_int int_of columns_text_of set_print_columns
set_columns-IsWithin none s h = refl
set_columns-IsWithin (some n) s (within _ l h) = columns-set n s l h

apply_format-options :
    (f : Format) (id : Text) (s : SettingsStore)
    → IsFormat f
    → (get_key (codes "print_line_spacing_dots") (apply_format f id s) ≡ spacing_text_of f.spacing)
      × (get_key (codes "print_columns") (apply_format f id s) ≡ columns_text_of f.columns)
unfolding apply_format set_paper_width set_cut_enabled set_print_font set_print_bold
    set_print_render_mode set_print_char_width set_print_char_height set_print_glyph_px
    set_print_line_gap_px set_print_lead_in set_print_tear_feed set_active_print_profile text_eq
apply_format-options f id s h =
    let spacing = λ (s' : SettingsStore). set_spacing-IsWithin f.spacing s' h.spacing_ok in
    let columns = λ (s' : SettingsStore). set_columns-IsWithin f.columns s' h.columns_ok in
    (simp (get_key-set_key, spacing, columns) refl, simp (get_key-set_key, spacing, columns) refl)

spacing-IsWithin :
    (o : Option ℕ) (s : SettingsStore)
    → get_key (codes "print_line_spacing_dots") s ≡ spacing_text_of o
    → IsWithin 1 255 o
    → print_line_spacing_dots s ≡ o
unfolding spacing_text_of
spacing-IsWithin none s e h = spacing-default s e
spacing-IsWithin (some n) s e (within _ l h) = spacing-stored n s e l h

columns-IsWithin :
    (o : Option ℕ) (s : SettingsStore)
    → get_key (codes "print_columns") s ≡ columns_text_of o
    → IsWithin 16 80 o
    → print_columns s ≡ o
unfolding columns_text_of
columns-IsWithin none s e h = columns-automatic s e
columns-IsWithin (some n) s e (within _ l h) = columns-stored n s e l h

clamp-within : (lo hi n : ℕ) → Between lo hi n → clamp lo hi (ℤ.pos n) ≡ n
unfolding clamp
clamp-within lo hi n h = let l = h.0 in let u = h.1 in omega arith

-- A number's text, where the clamp keeps the number.
kept :
    (lo hi n : ℕ) (key : Text) (s : SettingsStore)
    → get_key key s ≡ some (to_decimal (clamp lo hi (ℤ.pos n)))
    → Between lo hi n
    → get_key key s ≡ some (to_decimal n)
kept lo hi n key s e h = e ∙ ap (λ m. some (to_decimal m)) (clamp-within lo hi n h)

-- The settings show the format that was applied last, whatever they held before.
profile-apply_format :
    (f : Format) (id : Text) (s : SettingsStore)
    → IsFormat f
    → profile_payload_from_settings (apply_format f id s) ≡ f
unfolding profile_payload_from_settings print_glyph_px print_line_gap_px print_lead_in
    print_tear_feed cut_enabled print_bold
profile-apply_format f id s h =
    let t = apply_format f id s in
    let n = apply_format-numbers f id s in
    let w = apply_format-words f id s in
    let o = apply_format-options f id s h in
    rw
      (
        paper_width-stored f.paper t w.0 (one_of_two _ _ f.paper h.paper_ok),
        print_font-stored f.font t w.1 (one_of_two _ _ f.font h.font_ok),
        print_render_mode-stored f.mode t w.2 (one_of_two _ _ f.mode h.mode_ok),
        switch-stored (codes "cut_enabled") (codes "1") f.cut t w.3,
        switch-stored (codes "print_bold") (codes "0") f.bold t w.4,
      )
      (rw
        (
          print_char_width-stored f.width t (kept 1 8 f.width _ t n.4 h.width_ok) h.width_ok.0
              h.width_ok.1,
          print_char_height-stored f.height t (kept 1 8 f.height _ t n.5 h.height_ok) h.height_ok.0
              h.height_ok.1,
          spacing-IsWithin f.spacing t o.0 h.spacing_ok,
          columns-IsWithin f.columns t o.1 h.columns_ok,
        )
        (rw
          (
            number-stored _ 28 8 64 f.glyph t (kept 8 64 f.glyph _ t n.0 h.glyph_ok) h.glyph_ok.0
                h.glyph_ok.1,
            number-stored _ 2 0 32 f.gap t (kept 0 32 f.gap _ t n.1 h.gap_ok) h.gap_ok.0 h.gap_ok.1,
            number-stored _ 2 0 12 f.lead_in t (kept 0 12 f.lead_in _ t n.2 h.lead_in_ok)
                h.lead_in_ok.0 h.lead_in_ok.1,
            number-stored _ 6 0 16 f.tear_feed t (kept 0 16 f.tear_feed _ t n.3 h.tear_feed_ok)
                h.tear_feed_ok.0 h.tear_feed_ok.1,
          )
          refl))

unfoldable pub format_of : Result SettingsStore → Result Format
format_of (Result.ok s) = Result.ok (profile_payload_from_settings s)
format_of (Result.raise e) = Result.raise e

-- Applying a profile that is found by its name succeeds, and the settings then show the format that
-- `sanitize_payload` makes of the profile's payload, whatever they held before.
pub apply_print_profile_shows :
    (json : ProfileJson) (profile_id : Text) (s : SettingsStore) (p : PrintProfile)
    → get_print_profile json profile_id s ≡ some p
    → format_of (apply_print_profile json profile_id s) ≡ Result.ok (sanitize_payload p.payload)
unfolding format_of apply_print_profile
apply_print_profile_shows json profile_id s p e =
    let shown =
      profile-apply_format (sanitize_payload p.payload) p.id s
        (sanitize_payload-IsFormat p.payload) in
    rw e (ap Result.ok shown)
