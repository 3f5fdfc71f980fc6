-- ===== src/Services/WireSession.antt =====
-- `WireSessionVault` of src/acars_bridge/services/wire_session.py. The clock is an argument of each
-- method; it and the lifetime count in seconds.
pub mod Lifetime
use acars_printer.Prelude.{
  ℕ, ◌-◌, Bool, true, false, Option, none, some, List, [], ◌∷◌, not, ◌||◌, leb, max, or_else,
  if◌then◌else◌,
}
use acars_printer.Text.{Text, codes, is_empty, text_eq, one_of, upper, strip}

pub record WireSessionCreds : Type 0 where
  pub logon : Text
  pub from_cs : Text
  pub network_id : Text
  pub seen_at : ℕ

pub record WireSessionVault : Type 0 where
  pub ttl : ℕ
  pub creds : Option WireSessionCreds

unfoldable pub new_vault : ℕ → WireSessionVault
new_vault ttl_seconds = record { ttl = max 30 ttl_seconds; creds = none }

unfoldable pub is_fresh : WireSessionVault → ℕ → WireSessionCreds → Bool
is_fresh v now c = leb (now - c.seen_at) v.ttl

-- A logon and a callsign that `update` keeps.
abbrev pub is_accepted : Text → Text → Bool
is_accepted logon from_cs = not (
    is_empty (strip logon)
    || is_empty (upper (strip from_cs))
    || one_of (codes "UNKNOWN" ∷ codes "SERVER" ∷ codes "N/A" ∷ []) (upper (strip from_cs)))

abbrev text_or : Text → Text → Text
text_or [] d = d
text_or (c ∷ s) d = c ∷ s

unfoldable pub creds_of : Text → Text → Text → ℕ → WireSessionCreds
creds_of logon from_cs network_id now = record {
  logon = strip logon;
  from_cs = upper (strip from_cs);
  network_id = text_or (strip network_id) (codes "unknown");
  seen_at = now;
}

unfoldable pub update : Text → Text → Text → ℕ → WireSessionVault → WireSessionVault
update logon from_cs network_id now v =
    if is_accepted logon from_cs
    then record v { creds = some (creds_of logon from_cs network_id now) }
    else v

fresh_or_cleared :
    WireSessionVault → ℕ → Option WireSessionCreds → Option WireSessionCreds × WireSessionVault
fresh_or_cleared v now none = (none, v)
fresh_or_cleared v now (some c) =
    if is_fresh v now c then (some c, v) else (none, record v { creds = none })

-- `get`, which forgets credentials that are too old.
unfoldable pub get_creds : ℕ → WireSessionVault → Option WireSessionCreds × WireSessionVault
unfolding fresh_or_cleared
get_creds now v = fresh_or_cleared v now v.creds

unfoldable pub clear : WireSessionVault → WireSessionVault
clear v = record v { creds = none }

kept_on : Text → Option WireSessionCreds → Option WireSessionCreds
kept_on network_id none = none
kept_on network_id (some c) = if text_eq c.network_id network_id then some c else none

unfoldable pub clear_if_network : Text → WireSessionVault → WireSessionVault
unfolding kept_on
clear_if_network network_id v = record v { creds = kept_on network_id v.creds }

logon_of : Option WireSessionCreds → Option Text
logon_of none = none
logon_of (some c) = some c.logon

unfoldable pub active_logon : ℕ → WireSessionVault → Option Text × WireSessionVault
unfolding logon_of
active_logon now v = (logon_of (get_creds now v).0, (get_creds now v).1)
