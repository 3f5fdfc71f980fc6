-- ===== src/Models/Settings/Numbers.antt =====
-- The numbers of `SettingsStore`: methods that read and write one integer each.
pub mod Ranges
pub mod Optional
use acars_printer.Prelude.{
  ℕ, ◌+◌, ◌-◌, ◌≡◌, ◌≤◌, suc, Bool, true, false, Option, none, some, List, [], ◌∷◌, max, min, arith,
  if◌then◌else◌, or_else, leb, ltb, ◌==◌, any, ◌&&◌, not, ◌||◌, refl, ap, ◌∙◌, Bool-cases, inl, inr,
}
use acars_printer.Prelude.Int.{ℤ}
use acars_printer.Text.{
  Text, codes, text_eq, one_of, int_of_text, text_of_int, to_decimal, is_empty, strip, lower,
}
use acars_printer.Models.Settings.Store.{SettingsStore, get_key, set_key, get_key-set_key}
use acars_printer.Models.Settings.Forms.{
  text_or, get_or, IntArg, int_arg, clamp, clamped_or, int_or, number, clamped_arg, set_number,
}

unfoldable pub print_glyph_px : SettingsStore → ℕ
unfolding number
print_glyph_px = number (codes "print_glyph_px") 28 8 64

unfoldable pub set_print_glyph_px : IntArg → SettingsStore → SettingsStore
unfolding set_number
set_print_glyph_px = set_number (codes "print_glyph_px") 28 8 64

unfoldable pub print_line_gap_px : SettingsStore → ℕ
unfolding number
print_line_gap_px = number (codes "print_line_gap_px") 2 0 32

unfoldable pub set_print_line_gap_px : IntArg → SettingsStore → SettingsStore
unfolding set_number
set_print_line_gap_px = set_number (codes "print_line_gap_px") 2 0 32

unfoldable pub print_lead_in : SettingsStore → ℕ
unfolding number
print_lead_in = number (codes "print_lead_in") 2 0 12

unfoldable pub set_print_lead_in : IntArg → SettingsStore → SettingsStore
unfolding set_number
set_print_lead_in = set_number (codes "print_lead_in") 2 0 12

unfoldable pub print_tear_feed : SettingsStore → ℕ
unfolding number
print_tear_feed = number (codes "print_tear_feed") 6 0 16

unfoldable pub set_print_tear_feed : IntArg → SettingsStore → SettingsStore
unfolding set_number
set_print_tear_feed = set_number (codes "print_tear_feed") 6 0 16

unfoldable pub wx_auto_nm : SettingsStore → ℕ
unfolding number
wx_auto_nm = number (codes "wx_auto_nm") 180 10 500

unfoldable pub set_wx_auto_nm : IntArg → SettingsStore → SettingsStore
unfolding set_number
set_wx_auto_nm = set_number (codes "wx_auto_nm") 180 10 500

unfoldable pub simbrief_post_landing_grace_seconds : SettingsStore → ℕ
unfolding number
simbrief_post_landing_grace_seconds =
    number (codes "simbrief_post_landing_grace_seconds") 600 60 7200

unfoldable pub set_simbrief_post_landing_grace_seconds : IntArg → SettingsStore → SettingsStore
unfolding set_number
set_simbrief_post_landing_grace_seconds =
    set_number (codes "simbrief_post_landing_grace_seconds") 600 60 7200

-- `max(45, int(raw or 60))`.
at_least_45 : Option ℤ → ℕ
at_least_45 none = 60
at_least_45 (some (ℤ.pos n)) = max 45 n
at_least_45 (some (ℤ.negsuc n)) = 45

unfoldable pub poll_interval : SettingsStore → ℕ
unfolding at_least_45
poll_interval s = at_least_45 (int_or (or_else (get_key (codes "poll_interval") s) (codes "60")) 60)

-- Without a number of its own, the size comes from the preset of an older version.
legacy_size : Text → SettingsStore → ℕ
legacy_size wide s =
    let legacy = lower (strip (get_or (codes "print_size") (codes "normal") s)) in
    if one_of (wide ∷ codes "large" ∷ []) legacy then 2 else 1

char_size : Text → SettingsStore → Option Text → ℕ
char_size wide s none = legacy_size wide s
char_size wide s (some raw) = clamped_or 1 1 8 (int_of_text raw)

unfoldable pub print_char_width : SettingsStore → ℕ
unfolding char_size legacy_size
print_char_width s = char_size (codes "wide") s (get_key (codes "print_char_width") s)

unfoldable pub set_print_char_width : IntArg → SettingsStore → SettingsStore
unfolding set_number
set_print_char_width = set_number (codes "print_char_width") 1 1 8

unfoldable pub print_char_height : SettingsStore → ℕ
unfolding char_size legacy_size
print_char_height s = char_size (codes "tall") s (get_key (codes "print_char_height") s)

unfoldable pub set_print_char_height : IntArg → SettingsStore → SettingsStore
unfolding set_number
set_print_char_height = set_number (codes "print_char_height") 1 1 8

legacy_spacing : Text → Option ℕ
legacy_spacing legacy =
    if text_eq legacy (codes "tight")
    then some 24
    else if text_eq legacy (codes "normal")
    then some 30
    else if text_eq legacy (codes "loose")
    then some 40
    else none

-- A number of dots that is not above zero means the printer's own spacing.
spacing_of : Option ℤ → Option ℕ
spacing_of none = none
spacing_of (some (ℤ.negsuc n)) = none
spacing_of (some (ℤ.pos n)) = if leb n 0 then none else some (clamp 1 255 (ℤ.pos n))

spacing_read : SettingsStore → Option Text → Option ℕ
spacing_read s none =
    legacy_spacing (lower (strip (get_or (codes "print_line_spacing") (codes "default") s)))
spacing_read s (some raw) =
    let value = lower (strip raw) in
    if one_of (codes "" ∷ codes "default" ∷ codes "auto" ∷ codes "-1" ∷ []) value
    then none
    else spacing_of (int_of_text value)

unfoldable pub print_line_spacing_dots : SettingsStore → Option ℕ
unfolding spacing_read spacing_of legacy_spacing
print_line_spacing_dots s = spacing_read s (get_key (codes "print_line_spacing_dots") s)

-- `str(argument)`.
unfoldable pub arg_text : IntArg → Text
arg_text (IntArg.int n) = text_of_int n
arg_text (IntArg.str t) = t

-- Whether `str(argument).strip().lower()` is one of the words.
arg_in : List Text → IntArg → Bool
unfolding arg_text
arg_in choices argument = one_of choices (lower (strip (arg_text argument)))

spacing_text : Option ℕ → Text
spacing_text none = codes "default"
spacing_text (some n) = to_decimal n

spacing_arg : Option IntArg → Option ℕ
unfolding arg_in spacing_of
spacing_arg none = none
spacing_arg (some argument) =
    if arg_in (codes "" ∷ codes "default" ∷ codes "auto" ∷ codes "0" ∷ codes "-1" ∷ []) argument
    then none
    else spacing_of (int_arg argument)

unfoldable pub set_print_line_spacing_dots : Option IntArg → SettingsStore → SettingsStore
unfolding spacing_text spacing_arg arg_in spacing_of
set_print_line_spacing_dots dots s =
    set_key (codes "print_line_spacing_dots") (some (spacing_text (spacing_arg dots))) s

columns_of : Option ℤ → Option ℕ
columns_of none = none
columns_of (some n) = some (clamp 16 80 n)

columns_read : Text → Option ℕ
columns_read raw =
    if is_empty raw || one_of (codes "auto" ∷ codes "0" ∷ []) (lower raw)
    then none
    else columns_of (int_of_text raw)

-- The wrap width set by hand, `none` for the automatic one.
unfoldable pub print_columns : SettingsStore → Option ℕ
unfolding columns_read columns_of
print_columns s = columns_read (strip (or_else (get_key (codes "print_columns") s) []))

columns_arg : Option IntArg → Option ℕ
unfolding arg_in columns_of
columns_arg none = none
columns_arg (some argument) =
    if arg_in (codes "" ∷ codes "auto" ∷ codes "0" ∷ []) argument
    then none
    else columns_of (int_arg argument)

decimal_of : Option ℕ → Option Text
decimal_of none = none
decimal_of (some n) = some (to_decimal n)

unfoldable pub set_print_columns : Option IntArg → SettingsStore → SettingsStore
unfolding columns_arg decimal_of arg_in columns_of
set_print_columns columns s = set_key (codes "print_columns") (decimal_of (columns_arg columns)) s
