-- ===== src/Models/Settings/Profiles.antt =====
-- The print profiles: src/acars_bridge/printing/profiles.py, and the methods of `SettingsStore` that
-- apply one. `json` is a parameter.
pub mod Stored
pub mod Apply
pub mod Saved
pub mod Found
pub mod Recall
use acars_printer.Prelude.{
  ℕ, ◌≡◌, ◌≤◌, Bool, true, false, Option, none, some, List, [], ◌∷◌, ◌++◌, map, ◌&&◌, ◌||◌, not,
  ltb, leb, length, if◌then◌else◌, or_else,
}
use acars_printer.Prelude.Int.{ℤ}
use acars_printer.Text.{
  Text, codes, is_empty, text_eq, one_of, strip, lower, int_of_text, text_of_int, words, join,
}
use acars_printer.Hoppie.Types.{Result, Error, ◌>>=◌}
use acars_printer.Models.Settings.Store.{SettingsStore, get_key, set_key}
use acars_printer.Models.Settings.Forms.{IntArg, clamp}
use acars_printer.Models.Settings.Switches.{
  cut_enabled, set_cut_enabled, print_bold, set_print_bold,
}
use acars_printer.Models.Settings.Numbers.{
  print_glyph_px, set_print_glyph_px, print_line_gap_px, set_print_line_gap_px, print_lead_in,
  set_print_lead_in, print_tear_feed, set_print_tear_feed, print_char_width, set_print_char_width,
  print_char_height, set_print_char_height, print_line_spacing_dots, set_print_line_spacing_dots,
  print_columns, set_print_columns,
}
use acars_printer.Models.Settings.Choices.{
  paper_width, set_paper_width, print_font, set_print_font, print_render_mode,
  set_print_render_mode,
}
use acars_printer.Models.Settings.Names.{active_print_profile, set_active_print_profile}
use acars_printer.Models.Settings.Sanitize.{
  Value, Payload, Format, sanitize_payload, payload_of, field,
}

pub record PrintProfile : Type 0 where
  pub id : Text
  pub label : Text
  pub builtin : Bool
  pub payload : Payload

unfoldable pub base_format : Format
base_format = record {
  paper = codes "80";
  cut = true;
  font = codes "a";
  bold = false;
  mode = codes "bitmap";
  width = 1;
  height = 1;
  spacing = none;
  glyph = 28;
  gap = 2;
  columns = none;
  lead_in = 2;
  tear_feed = 6;
}

builtin_profile : Text → Text → Format → PrintProfile
builtin_profile id label f = record {
  id = id;
  label = label;
  builtin = true;
  payload = payload_of f;
}

unfoldable pub builtin_profiles : List PrintProfile
unfolding builtin_profile
builtin_profiles =
    builtin_profile (codes "pos80_default") (codes "POS-80 default") base_format
    ∷ builtin_profile (codes "pos58_readable") (codes "POS-58 readable")
        record base_format { paper = codes "58"; glyph = 26; gap = 1; lead_in = 1; tear_feed = 5 }
    ∷ builtin_profile (codes "pos80_compact") (codes "POS-80 compact")
        record base_format { glyph = 22; gap = 1; lead_in = 1; tear_feed = 4 }
    ∷ []

-- The format that the settings have now.
unfoldable pub profile_payload_from_settings : SettingsStore → Format
profile_payload_from_settings s = record {
  paper = paper_width s;
  cut = cut_enabled s;
  font = print_font s;
  bold = print_bold s;
  mode = print_render_mode s;
  width = print_char_width s;
  height = print_char_height s;
  spacing = print_line_spacing_dots s;
  glyph = print_glyph_px s;
  gap = print_line_gap_px s;
  columns = print_columns s;
  lead_in = print_lead_in s;
  tear_feed = print_tear_feed s;
}

-- A name for a profile of the user's: words joined by one space, at most 48 characters, and not the
-- name of a profile that is built in.
unfoldable pub normalize_profile_name : Text → Result Text
normalize_profile_name name =
    let cleaned = join (codes " ") (words (strip name)) in
    if is_empty cleaned
    then Result.raise (Error.value_error (codes "Profile name is required"))
    else if ltb 48 (length cleaned)
    then Result.raise (Error.value_error (codes "Profile name is too long (max 48 characters)"))
    else if one_of (map (λ p. p.id) builtin_profiles) (lower cleaned)
        || one_of (map (λ p. lower p.label) builtin_profiles) (lower cleaned)
    then Result.raise (Error.value_error (codes "That name is reserved for a built-in profile"))
    else Result.ok cleaned

-- What the store uses of `json`: the text of a dictionary of payloads, and back. `none` stands for a
-- text that is no dictionary, and for a payload that is none.
pub record ProfileJson : Type 0 where
  pub dumps : List (Text × Payload) → Text
  pub loads : Text → Option (List (Text × Option Payload))

-- The payloads that are dictionaries.
payloads : List (Text × Option Payload) → List (Text × Payload)
payloads [] = []
payloads ((name, none) ∷ rest) = payloads rest
payloads ((name, some payload) ∷ rest) = (name, payload) ∷ payloads rest

loaded : Option (List (Text × Option Payload)) → List (Text × Payload)
unfolding payloads
loaded none = []
loaded (some profiles) = payloads profiles

parsed : (Text → Option (List (Text × Option Payload))) → Option Text → List (Text × Payload)
unfolding loaded
parsed loads none = []
parsed loads (some []) = []
parsed loads (some (c ∷ raw)) = loaded (loads (c ∷ raw))

-- `_user_print_profiles_raw`: a dictionary in the order of its keys.
unfoldable pub user_profiles : ProfileJson → SettingsStore → List (Text × Payload)
unfolding parsed loaded payloads
user_profiles json s = parsed json.loads (get_key (codes "print_profiles_json") s)

dumped : (List (Text × Payload) → Text) → List (Text × Payload) → Option Text
dumped dumps [] = none
dumped dumps (p ∷ ps) = some (dumps (p ∷ ps))

unfoldable pub set_user_profiles :
    ProfileJson → List (Text × Payload) → SettingsStore → SettingsStore
unfolding dumped
set_user_profiles json profiles s =
    set_key (codes "print_profiles_json") (dumped json.dumps profiles) s

-- `list_print_profiles`. The order by name of the user's own is not modelled.
list_profiles : List (Text × Payload) → List PrintProfile
list_profiles [] = []
list_profiles ((name, payload) ∷ rest) =
    record {
      id = name;
      label = name;
      builtin = false;
      payload = payload_of (sanitize_payload payload);
    }
    ∷ list_profiles rest

profile_named : Text → List PrintProfile → Option PrintProfile
profile_named needle [] = none
profile_named needle (p ∷ ps) =
    let rest = profile_named needle ps in
    if text_eq p.id needle || text_eq p.label needle then some p else rest

unfoldable pub get_print_profile : ProfileJson → Text → SettingsStore → Option PrintProfile
unfolding list_profiles profile_named
get_print_profile json profile_id s =
    let needle = strip profile_id in
    if is_empty needle
    then none
    else profile_named needle (builtin_profiles ++ list_profiles (user_profiles json s))

int_of : ℕ → IntArg
int_of n = IntArg.int (ℤ.pos n)

option_int : Option ℕ → Option IntArg
unfolding int_of
option_int none = none
option_int (some n) = some (int_of n)

-- The setters that `apply_print_profile` calls with a format, in their order.
unfoldable pub apply_format : Format → Text → SettingsStore → SettingsStore
unfolding int_of option_int
apply_format f id s =
    let s = set_paper_width f.paper s in
    let s = set_cut_enabled f.cut s in
    let s = set_print_font f.font s in
    let s = set_print_bold f.bold s in
    let s = set_print_render_mode f.mode s in
    let s = set_print_char_width (int_of f.width) s in
    let s = set_print_char_height (int_of f.height) s in
    let s = set_print_line_spacing_dots (option_int f.spacing) s in
    let s = set_print_glyph_px (int_of f.glyph) s in
    let s = set_print_line_gap_px (int_of f.gap) s in
    let s = set_print_columns (option_int f.columns) s in
    let s = set_print_lead_in (int_of f.lead_in) s in
    let s = set_print_tear_feed (int_of f.tear_feed) s in set_active_print_profile (some id) s

applied : Text → Option PrintProfile → SettingsStore → Result SettingsStore
applied profile_id none s =
    Result.raise (Error.value_error (codes "Unknown print profile: " ++ profile_id))
applied profile_id (some p) s = Result.ok (apply_format (sanitize_payload p.payload) p.id s)

unfoldable pub apply_print_profile : ProfileJson → Text → SettingsStore → Result SettingsStore
unfolding applied
apply_print_profile json profile_id s = applied profile_id (get_print_profile json profile_id s) s
