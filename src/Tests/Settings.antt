-- ===== src/Tests/Settings.antt =====
-- The theorems on the settings at concrete tables.
use acars_printer.Prelude.{◌≡◌, refl, true, none, some, List, [], ◌∷◌}
use acars_printer.Prelude.Int.{ℤ}
use acars_printer.Text.{Text, codes, text_eq, strip, is_space, is_space_text, join, words, lower}
use acars_printer.Hoppie.Types.{Result}
use acars_printer.Models.Settings.Store.{SettingsStore, get_key, get_key-set_key}
use acars_printer.Models.Settings.Forms.{IntArg, int_arg}
use acars_printer.Models.Settings.Choices.{sterile_agl_ft, set_sterile_agl_ft}
use acars_printer.Models.Settings.Choices.Ranges.{IsNearest, sterile_agl_ft-IsNearest}
use acars_printer.Models.Settings.ReadBack.{AreReadBack, numbers_read_back}
use acars_printer.Models.Settings.Kinds.ReadBack.{AreKept, kinds_read_back}
use acars_printer.Models.Settings.Profiles.{
  ProfileJson, PrintProfile, get_print_profile, builtin_profiles, base_format, apply_print_profile,
  normalize_profile_name, user_profiles,
}
use acars_printer.Models.Settings.Sanitize.{sanitize_payload, payload_of}
use acars_printer.Models.Settings.Profiles.Saved.{saved, put_profile, save_user_print_profile}
use acars_printer.Models.Settings.Profiles.Recall.{is_nested, is_dict, SameFormat, save_and_apply}
use acars_printer.Models.Settings.Numbers.{set_print_glyph_px}
use acars_printer.Tests.Json.{test_json, test_json-ReadsBack}
use acars_printer.Models.Settings.Profiles.Apply.{format_of, apply_print_profile_shows}

-- A table with a number that is too large, one that is no number and the next downlink's.
abbrev some_settings : SettingsStore
some_settings = record {
  rows =
      (codes "print_glyph_px", codes "900")
      ∷ (codes "print_line_spacing_dots", codes "wide")
      ∷ (codes "next_downlink_min", codes "7")
      ∷ [];
}

abbrev no_json : ProfileJson
no_json = record { dumps = λ profiles. codes "{}"; loads = λ raw. none }

numbers_read_back_example : AreReadBack (IntArg.str (codes " 40 ")) some_settings
numbers_read_back_example = numbers_read_back (IntArg.str (codes " 40 ")) some_settings

abbrev two_kinds : List Text
two_kinds = codes " TAF" ∷ codes "telex" ∷ []

kinds_read_back_example : AreKept two_kinds some_settings (codes "taf")
kinds_read_back_example = kinds_read_back two_kinds some_settings (codes "taf")

sterile_agl_ft-IsNearest_example :
    IsNearest
      (ℤ.pos 1749)
      (sterile_agl_ft (set_sterile_agl_ft (IntArg.int (ℤ.pos 1749)) some_settings))
unfolding int_arg
sterile_agl_ft-IsNearest_example = sterile_agl_ft-IsNearest (IntArg.int (ℤ.pos 1749)) some_settings

abbrev compact : PrintProfile
compact = record {
  id = codes "pos80_compact";
  label = codes "POS-80 compact";
  builtin = true;
  payload = payload_of record base_format { glyph = 22; gap = 1; lead_in = 1; tear_feed = 4 };
}

compact_found : get_print_profile no_json (codes " POS-80 compact ") some_settings ≡ some compact
unfolding get_print_profile strip is_space text_eq builtin_profiles
compact_found = refl

apply_print_profile_shows_example :
    format_of (apply_print_profile no_json (codes " POS-80 compact ") some_settings)
    ≡ Result.ok (sanitize_payload compact.payload)
apply_print_profile_shows_example =
    apply_print_profile_shows no_json (codes " POS-80 compact ") some_settings compact compact_found

-- The settings after a save, with another height of the glyphs.
abbrev saved_name : Text
saved_name = codes "My 80 mm"

abbrev after_save : SettingsStore
unfolding saved put_profile
after_save = (saved test_json some_settings saved_name).1

abbrev changed_since : SettingsStore
unfolding saved put_profile
changed_since = set_print_glyph_px (IntArg.int (ℤ.pos 12)) after_save

save_accepted :
    save_user_print_profile test_json (codes "  My 80   mm ") some_settings
    ≡ Result.ok (saved_name, after_save)
unfolding save_user_print_profile normalize_profile_name strip join words is_space is_space_text
    builtin_profiles text_eq lower
save_accepted = refl

same_profiles :
    get_key (codes "print_profiles_json") changed_since
    ≡ get_key (codes "print_profiles_json") after_save
unfolding set_print_glyph_px changed_since text_eq
same_profiles = simp (get_key-set_key) refl

none_saved : is_nested (user_profiles test_json some_settings) ≡ true
unfolding user_profiles get_key text_eq is_nested is_dict
none_saved = refl

save_and_apply_example :
    (u : SettingsStore) × (apply_print_profile test_json saved_name changed_since ≡ Result.ok u)
    × SameFormat some_settings u
save_and_apply_example =
    save_and_apply test_json (codes "  My 80   mm ") saved_name some_settings changed_since
      after_save test_json-ReadsBack none_saved save_accepted same_profiles
