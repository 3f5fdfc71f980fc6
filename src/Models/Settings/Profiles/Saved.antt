-- ===== src/Models/Settings/Profiles/Saved.antt =====
-- The methods of `SettingsStore` that save and delete a print profile.
use acars_printer.Prelude.{
  Bool, false, Option, none, some, List, [], ◌∷◌, ◌++◌, map, ◌||◌, not, if◌then◌else◌,
}
use acars_printer.Text.{Text, codes, is_empty, text_eq, one_of, strip}
use acars_printer.Hoppie.Types.{Result, Error, ◌>>=◌}
use acars_printer.Models.Settings.Store.{SettingsStore}
use acars_printer.Models.Settings.Names.{active_print_profile, set_active_print_profile}
use acars_printer.Models.Settings.Sanitize.{Payload, payload_of}
use acars_printer.Models.Settings.Profiles.{
  ProfileJson, user_profiles, set_user_profiles, profile_payload_from_settings,
  normalize_profile_name, builtin_profiles,
}

-- `profiles[name] = payload`.
unfoldable pub put_profile : Text → Payload → List (Text × Payload) → List (Text × Payload)
put_profile name payload [] = (name, payload) ∷ []
put_profile name payload ((n, p) ∷ rest) =
    let changed = put_profile name payload rest in
    if text_eq name n then (n, payload) ∷ rest else (n, p) ∷ changed

unfoldable pub saved : ProfileJson → SettingsStore → Text → Text × SettingsStore
unfolding put_profile
saved json s name =
    let current = payload_of (profile_payload_from_settings s) in
    let profiles = put_profile name current (user_profiles json s) in
    (name, set_active_print_profile (some name) (set_user_profiles json profiles s))

unfoldable pub save_user_print_profile :
    ProfileJson → Text → SettingsStore → Result (Text × SettingsStore)
unfolding saved put_profile
save_user_print_profile json name s =
    normalize_profile_name name >>= λ cleaned. Result.ok (saved json s cleaned)

has_profile : Text → List (Text × Payload) → Bool
has_profile name [] = false
has_profile name ((n, p) ∷ rest) = text_eq name n || has_profile name rest

without_profile : Text → List (Text × Payload) → List (Text × Payload)
without_profile name [] = []
without_profile name ((n, p) ∷ rest) =
    let others = without_profile name rest in if text_eq name n then others else (n, p) ∷ others

is_active : Text → Option Text → Bool
is_active name none = false
is_active name (some active) = text_eq active name

unfoldable pub delete_user_print_profile : ProfileJson → Text → SettingsStore → Result SettingsStore
unfolding has_profile without_profile is_active
delete_user_print_profile json profile_id s =
    let needle = strip profile_id in
    let profiles = user_profiles json s in
    let left = set_user_profiles json (without_profile needle profiles) s in
    if is_empty needle
    then Result.raise (Error.value_error (codes "Profile name is required"))
    else if one_of (map (λ p. p.id) builtin_profiles) needle
    then Result.raise (Error.value_error (codes "Built-in profiles cannot be deleted"))
    else if not (has_profile needle profiles)
    then Result.raise (Error.value_error (codes "Unknown user print profile: " ++ needle))
    else if is_active needle (active_print_profile left)
    then Result.ok (set_active_print_profile none left)
    else Result.ok left
