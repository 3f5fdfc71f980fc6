-- ===== src/Models/Settings/Profiles/Recall.antt =====
-- A profile that was saved is found by its name, and brings the format back.
use acars_printer.Prelude.{
  all, not, ◌&&◌, ◌||◌, Bool, true, ◌≡◌, refl, sym, ap, ◌∙◌, false, Option, some, List, [], ◌∷◌,
  map, arith, Bool-cases, inl, inr,
}
use acars_printer.Text.{Text, codes, is_empty, text_eq, text_eq_sym}
use acars_printer.Hoppie.Types.{Result, ◌>>=◌}
use acars_printer.Models.Settings.Store.{SettingsStore, get_key, get_key-set_key}
use acars_printer.Models.Settings.Choices.Words.{words_among}
use acars_printer.Models.Settings.ReadBack.{numbers_between}
use acars_printer.Models.Settings.Switches.{cut_enabled, print_bold}
use acars_printer.Models.Settings.Numbers.{
  print_glyph_px, print_line_gap_px, print_lead_in, print_tear_feed, print_char_width,
  print_char_height, print_line_spacing_dots, print_columns,
}
use acars_printer.Models.Settings.Choices.{paper_width, print_font, print_render_mode}
use acars_printer.Models.Settings.Names.{set_active_print_profile}
use acars_printer.Models.Settings.Sanitize.{Payload, Format, sanitize_payload, payload_of}
use acars_printer.Models.Settings.Sanitize.WellFormed.{IsFormat}
use acars_printer.Models.Settings.Sanitize.Again.{sanitize_payload-payload_of}
use acars_printer.Models.Settings.Profiles.{
  ProfileJson, get_print_profile, user_profiles, set_user_profiles, parsed, loaded, payloads,
  dumped, profile_payload_from_settings, normalize_profile_name, apply_print_profile,
}
use acars_printer.Models.Settings.Profiles.Saved.{put_profile, saved, save_user_print_profile}
use acars_printer.Models.Settings.Profiles.Found.{
  IsListed, normalize_profile_name-IsName, get_print_profile-put,
}
use acars_printer.Models.Settings.Profiles.Apply.{format_of, apply_print_profile_shows}

has_key : {A : Type 0} → Text → List (Text × A) → Bool
has_key key [] = false
has_key key ((k, a) ∷ rest) = text_eq key k || has_key key rest

-- No key stands twice, as in every dictionary.
unfoldable pub is_dict : {A : Type 0} → List (Text × A) → Bool
unfolding has_key
is_dict [] = true
is_dict ((key, a) ∷ rest) = not (has_key key rest) && is_dict rest

-- A dictionary of dictionaries.
unfoldable pub is_nested : List (Text × Payload) → Bool
is_nested profiles = is_dict profiles && all (λ (name, payload). is_dict payload) profiles

-- `json.loads` gives back a dictionary of dictionaries that `json.dumps` wrote, and a text that is written
-- is not empty.
pub record ReadsBack (json : ProfileJson) : Type 0 where
  pub filled : (profiles : List (Text × Payload)) → is_empty (json.dumps profiles) ≡ false
  pub again :
      (profiles : List (Text × Payload))
      → is_nested profiles ≡ true
      → json.loads (json.dumps profiles)
        ≡ some (map (λ (name, payload). (name, some payload)) profiles)

-- The current format is well formed.
profile_payload_from_settings-IsFormat :
    (s : SettingsStore) → IsFormat (profile_payload_from_settings s)
unfolding profile_payload_from_settings
profile_payload_from_settings-IsFormat s =
    let (
      glyph, gap, lead_in, tear_feed, width, height, spacing, columns, miles, grace, port, sim,
      poll,
    ) =
      numbers_between s in
    let (paper, font, mode) = words_among s in
    record {
      paper_ok = paper;
      font_ok = font;
      mode_ok = mode;
      width_ok = width;
      height_ok = height;
      spacing_ok = spacing;
      glyph_ok = glyph;
      gap_ok = gap;
      columns_ok = columns;
      lead_in_ok = lead_in;
      tear_feed_ok = tear_feed;
    }

payloads-all :
    (ps : List (Text × Payload)) → payloads (map (λ (name, payload). (name, some payload)) ps) ≡ ps
unfolding payloads
payloads-all [] = refl
payloads-all ((n, p) ∷ ps) = ap (λ rest. (n, p) ∷ rest) (payloads-all ps)

parsed-filled :
    (loads : Text → Option (List (Text × Option Payload))) (raw : Text)
    → is_empty raw ≡ false
    → parsed loads (some raw) ≡ loaded (loads raw)
unfolding parsed
parsed-filled loads [] h = ground arith
parsed-filled loads (c ∷ raw) h = refl

user_profiles-dumps :
    (json : ProfileJson) (ps : List (Text × Payload)) (s : SettingsStore)
    → ReadsBack json
    → is_nested ps ≡ true
    → get_key (codes "print_profiles_json") s ≡ some (json.dumps ps)
    → user_profiles json s ≡ ps
unfolding user_profiles loaded
user_profiles-dumps json ps s h d e =
    rw e (parsed-filled json.loads _ (h.filled ps) ∙ (rw (h.again ps d) (payloads-all ps)))

dumped-put :
    (dumps : List (Text × Payload) → Text) (name : Text) (payload : Payload)
    (ps : List (Text × Payload))
    → dumped dumps (put_profile name payload ps) ≡ some (dumps (put_profile name payload ps))
unfolding dumped put_profile
dumped-put dumps name payload [] = refl
dumped-put dumps name payload ((n, p) ∷ rest) = elim (Bool-cases (text_eq name n)) [
  | inl e ↦ rw e refl
  | inr e ↦ rw e refl
]

has_key-put_profile :
    (key name : Text) (payload : Payload) (ps : List (Text × Payload))
    → text_eq key name ≡ false
    → has_key key ps ≡ false
    → has_key key (put_profile name payload ps) ≡ false
unfolding has_key put_profile
has_key-put_profile key name payload [] a h = ground arith
has_key-put_profile key name payload ((n, p) ∷ rest) a h = elim (Bool-cases (text_eq name n)) [
  | inl e ↦ rw e (ground arith)
  | inr e ↦ rw e (ground (arith, has_key-put_profile key name payload rest a))
]

-- A dictionary stays one when a name is given a payload that is one.
put_profile-is_nested :
    (name : Text) (payload : Payload) (ps : List (Text × Payload))
    → is_dict payload ≡ true
    → is_nested ps ≡ true
    → is_nested (put_profile name payload ps) ≡ true
unfolding is_nested is_dict put_profile
put_profile-is_nested name payload [] d h = unfold has_key in ground arith
put_profile-is_nested name payload ((n, p) ∷ rest) d h = elim (Bool-cases (text_eq name n)) [
  | inl e ↦ rw e (ground arith)
  | inr e ↦
      let flipped = text_eq_sym n name ∙ e in
      rw e (
        ground (
          arith,
          has_key-put_profile n name payload rest flipped,
          put_profile-is_nested name payload rest d,
        ))
]

payload_of-is_dict : (f : Format) → is_dict (payload_of f) ≡ true
unfolding payload_of is_dict has_key text_eq
payload_of-is_dict f = refl

-- The store that holds the saved profile under its name.
saved-stored :
    (json : ProfileJson) (name : Text) (s : SettingsStore)
    → ReadsBack json
    → get_key (codes "print_profiles_json") (saved json s name).1
      ≡ some (
          json.dumps (
            put_profile name (payload_of (profile_payload_from_settings s)) (user_profiles json s)))
unfolding saved set_user_profiles set_active_print_profile text_eq
saved-stored json name s h =
    simp (get_key-set_key) (dumped-put json.dumps name _ (user_profiles json s))

recalled :
    (json : ProfileJson) (name : Text) (f : Format) (t : SettingsStore)
    → IsFormat f
    → IsListed name (payload_of f) (get_print_profile json name t)
    → format_of (apply_print_profile json name t) ≡ Result.ok f
recalled json name f t ok listed =
    let same = sanitize_payload-payload_of f ok in
    apply_print_profile_shows json name t listed.profile listed.is_found
    ∙ ap (λ p. Result.ok (sanitize_payload p)) listed.holds
    ∙ ap (λ g. Result.ok (sanitize_payload (payload_of g))) same
    ∙ ap Result.ok same

-- What a save that succeeds was: of a name that was accepted.
saved_as :
    (json : ProfileJson) (o : Result Text) (cleaned : Text) (s after : SettingsStore)
    → (o >>= λ name. Result.ok (saved json s name)) ≡ Result.ok (cleaned, after)
    → (o ≡ Result.ok cleaned) × ((saved json s cleaned).1 ≡ after)
unfolding saved
saved_as json (Result.raise x) cleaned s after e = cc
saved_as json (Result.ok name) cleaned s after e =
    let same : name ≡ cleaned = cc in
    (ap Result.ok same, ap (λ n. (saved json s n).1) (sym same) ∙ cc)

-- Each setting of the format has the value in one store that it has in the other.
abbrev pub SameFormat : SettingsStore → SettingsStore → Type 0
SameFormat s t =
    (paper_width t ≡ paper_width s)
    × (cut_enabled t ≡ cut_enabled s)
    × (print_font t ≡ print_font s)
    × (print_bold t ≡ print_bold s)
    × (print_render_mode t ≡ print_render_mode s)
    × (print_char_width t ≡ print_char_width s)
    × (print_char_height t ≡ print_char_height s)
    × (print_line_spacing_dots t ≡ print_line_spacing_dots s)
    × (print_glyph_px t ≡ print_glyph_px s)
    × (print_line_gap_px t ≡ print_line_gap_px s)
    × (print_columns t ≡ print_columns s)
    × (print_lead_in t ≡ print_lead_in s)
    × (print_tear_feed t ≡ print_tear_feed s)

payload-SameFormat :
    (s t : SettingsStore)
    → profile_payload_from_settings t ≡ profile_payload_from_settings s
    → SameFormat s t
unfolding profile_payload_from_settings
payload-SameFormat s t e = (
  ap (λ (f : Format). f.paper) e,
  ap (λ (f : Format). f.cut) e,
  ap (λ (f : Format). f.font) e,
  ap (λ (f : Format). f.bold) e,
  ap (λ (f : Format). f.mode) e,
  ap (λ (f : Format). f.width) e,
  ap (λ (f : Format). f.height) e,
  ap (λ (f : Format). f.spacing) e,
  ap (λ (f : Format). f.glyph) e,
  ap (λ (f : Format). f.gap) e,
  ap (λ (f : Format). f.columns) e,
  ap (λ (f : Format). f.lead_in) e,
  ap (λ (f : Format). f.tear_feed) e,
)

restored :
    (s : SettingsStore) (r : Result SettingsStore)
    → format_of r ≡ Result.ok (profile_payload_from_settings s)
    → (u : SettingsStore) × (r ≡ Result.ok u) × SameFormat s u
unfolding format_of
restored s (Result.raise x) e = cc
restored s (Result.ok u) e = (u, refl, payload-SameFormat s u cc)

-- A profile that was saved under a name, and is applied by the name that the save returned, succeeds and
-- brings back the paper, the cut, the font, bold print, the drawing mode, the sizes, the spacings, the
-- columns and the feeds that the settings had at the save, whatever was set since; provided that no profile
-- was saved or deleted in between, that the stored profiles are a dictionary of dictionaries, and that
-- `json.loads` gives back such a one that `json.dumps` wrote.
pub save_and_apply :
    (json : ProfileJson) (name cleaned : Text) (s t after : SettingsStore)
    → ReadsBack json
    → is_nested (user_profiles json s) ≡ true
    → save_user_print_profile json name s ≡ Result.ok (cleaned, after)
    → get_key (codes "print_profiles_json") t ≡ get_key (codes "print_profiles_json") after
    → (u : SettingsStore) × (apply_print_profile json cleaned t ≡ Result.ok u) × SameFormat s u
unfolding save_user_print_profile
save_and_apply json name cleaned s t after h d e k =
    let (accepted, stored) = saved_as json (normalize_profile_name name) cleaned s after e in
    let f = profile_payload_from_settings s in
    let kept =
      k ∙ ap (get_key (codes "print_profiles_json")) (sym stored) ∙ saved-stored json cleaned s h in
    let nested = put_profile-is_nested cleaned (payload_of f) _ (payload_of-is_dict f) d in
    restored s _ (
      recalled json cleaned f t (profile_payload_from_settings-IsFormat s) (
        get_print_profile-put json cleaned (payload_of f) (user_profiles json s) t
          (normalize_profile_name-IsName name cleaned accepted)
          (user_profiles-dumps json _ t h nested kept)))
