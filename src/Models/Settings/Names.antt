-- ===== src/Models/Settings/Names.antt =====
-- The methods of `SettingsStore` that read and write a text, the companion's token and the key that
-- `cryptography` encrypts.
use acars_printer.Prelude.{
  ℕ, ◌≡◌, false, Option, none, some, [], ◌∷◌, if◌then◌else◌, or_else, take, ◌||◌, ◌==◌,
}
use acars_printer.Text.{Text, codes, is_empty, text_eq, upper, strip}
use acars_printer.Models.Settings.Store.{SettingsStore, get_key, set_key}

-- `value or None`.
unfoldable pub filled : Text → Option Text
filled [] = none
filled (c ∷ s) = some (c ∷ s)

upper_of : Option Text → Option Text
unfolding filled
upper_of none = none
upper_of (some value) = filled (upper value)

unfoldable pub callsign : SettingsStore → Option Text
unfolding upper_of filled
callsign s = upper_of (get_key (codes "callsign") s)

unfoldable pub set_callsign : Text → SettingsStore → SettingsStore
set_callsign cs s = set_key (codes "callsign") (some (upper (strip cs))) s

unfoldable pub station_callsign : SettingsStore → Option Text
unfolding upper_of filled
station_callsign s = upper_of (get_key (codes "station_callsign") s)

unfoldable pub set_station_callsign : Text → SettingsStore → SettingsStore
unfolding filled
set_station_callsign cs s = set_key (codes "station_callsign") (filled (upper (strip cs))) s

unfoldable pub aircraft_registration : SettingsStore → Option Text
unfolding upper_of filled
aircraft_registration s = upper_of (get_key (codes "aircraft_registration") s)

unfoldable pub set_aircraft_registration : Text → SettingsStore → SettingsStore
unfolding filled
set_aircraft_registration registration s =
    set_key (codes "aircraft_registration") (filled (upper (strip registration))) s

-- `(self.get(key) or "").strip() or None`.
stripped : Text → SettingsStore → Option Text
unfolding filled
stripped key s = filled (strip (or_else (get_key key s) []))

unfoldable pub simbrief_user : SettingsStore → Option Text
unfolding stripped filled
simbrief_user = stripped (codes "simbrief_user")

unfoldable pub set_simbrief_user : Text → SettingsStore → SettingsStore
unfolding filled
set_simbrief_user user s = set_key (codes "simbrief_user") (filled (strip user)) s

unfoldable pub active_print_profile : SettingsStore → Option Text
unfolding stripped filled
active_print_profile = stripped (codes "active_print_profile")

unfoldable pub set_active_print_profile : Option Text → SettingsStore → SettingsStore
unfolding filled
set_active_print_profile profile_id s =
    set_key (codes "active_print_profile") (filled (strip (or_else profile_id []))) s

unfoldable pub skipped_update_version : SettingsStore → Option Text
unfolding stripped filled
skipped_update_version = stripped (codes "skipped_update_version")

-- `version.lstrip("vV")`.
strip_v : Text → Text
strip_v [] = []
strip_v (c ∷ s) = let rest = strip_v s in if c == b'v' || c == b'V' then rest else c ∷ s

version_text : Option Text → Option Text
version_text none = none
version_text (some []) = none
version_text (some (c ∷ s)) = some (strip (strip_v (c ∷ s)))

unfoldable pub set_skipped_update_version : Option Text → SettingsStore → SettingsStore
unfolding version_text strip_v
set_skipped_update_version version s =
    set_key (codes "skipped_update_version") (version_text version) s

unfoldable pub simbrief_last_ofp_id : SettingsStore → Option Text
unfolding stripped filled
simbrief_last_ofp_id = stripped (codes "simbrief_last_ofp_id")

unfoldable pub set_simbrief_last_ofp_id : Option Text → SettingsStore → SettingsStore
unfolding filled
set_simbrief_last_ofp_id ofp_id s =
    set_key (codes "simbrief_last_ofp_id") (filled (or_else ofp_id [])) s

unfoldable pub simbrief_lock_state : SettingsStore → Option Text
unfolding filled
simbrief_lock_state s = filled (or_else (get_key (codes "simbrief_lock_state") s) [])

unfoldable pub set_simbrief_lock_state : Option Text → SettingsStore → SettingsStore
set_simbrief_lock_state = set_key (codes "simbrief_lock_state")

-- `_migrate_wx_auto_nm_default`: the default of an older version becomes the present one.
migrated : Option Text → SettingsStore → SettingsStore
migrated none s = s
migrated (some raw) s =
    if text_eq (strip raw) (codes "150")
    then set_key (codes "wx_auto_nm") (some (codes "180")) s
    else s

unfoldable pub migrate_wx_auto_nm_default : SettingsStore → SettingsStore
unfolding migrated
migrate_wx_auto_nm_default s = migrated (get_key (codes "wx_auto_nm") s) s

stored_token : SettingsStore → Text
stored_token s = strip (or_else (get_key (codes "companion_token") s) [])

-- The token, made once from what `secrets.token_urlsafe` returns.
unfoldable pub ensure_companion_token : Text → SettingsStore → Text × SettingsStore
unfolding stored_token
ensure_companion_token fresh s =
    if is_empty (stored_token s)
    then (take 12 fresh, set_key (codes "companion_token") (some (take 12 fresh)) s)
    else (stored_token s, s)

-- `companion_token` reads the token; it makes one when there is none.
unfoldable pub companion_token : Text → SettingsStore → Text × SettingsStore
unfolding stored_token
companion_token fresh s =
    if is_empty (stored_token s) then ensure_companion_token fresh s else (stored_token s, s)

unfoldable pub set_companion_token : Text → Text → SettingsStore → SettingsStore
set_companion_token fresh token s =
    if is_empty (strip token)
    then (ensure_companion_token fresh s).1
    else set_key (codes "companion_token") (some (strip token)) s

unfoldable pub rotate_companion_token : Text → SettingsStore → Text × SettingsStore
rotate_companion_token fresh s =
    ensure_companion_token fresh (set_key (codes "companion_token") none s)

-- What the store uses of `cryptography.fernet.Fernet`: a token can be decrypted, is never empty, and
-- depends on a nonce. `none` stands for `InvalidToken`.
pub record Fernet : Type 0 where
  pub encrypt : ℕ → Text → Text
  pub decrypt : Text → Option Text
  pub decrypt-encrypt : (nonce : ℕ) (t : Text) → decrypt (encrypt nonce t) ≡ some t
  pub encrypt-filled : (nonce : ℕ) (t : Text) → is_empty (encrypt nonce t) ≡ false

decrypted : (Text → Option Text) → Option Text → Option Text
decrypted decrypt none = none
decrypted decrypt (some []) = none
decrypted decrypt (some (c ∷ token)) = decrypt (c ∷ token)

unfoldable pub hoppie_logon : Fernet → SettingsStore → Option Text
unfolding decrypted
hoppie_logon f s = decrypted f.decrypt (get_key (codes "hoppie_logon") s)

unfoldable pub set_hoppie_logon : Fernet → ℕ → Text → SettingsStore → SettingsStore
set_hoppie_logon f nonce logon s = set_key (codes "hoppie_logon") (some (f.encrypt nonce logon)) s
