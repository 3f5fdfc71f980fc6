-- ===== src/Services/WireSession/Lifetime.antt =====
-- How long the vault gives out a logon.
use acars_printer.Prelude.{
  ℕ, ◌+◌, ◌-◌, ◌≤◌, ◌<◌, ◌≡◌, refl, ◌⊎◌, inl, inr, true, none, some, leb, Bool-cases, arith,
}
use acars_printer.Text.{Text, strip}
use acars_printer.Services.WireSession.{
  WireSessionVault, is_fresh, is_accepted, creds_of, update, get_creds, active_logon, logon_of,
  fresh_or_cleared,
}

-- After an update with a usable logon and callsign, the stripped logon is given out up to the end of
-- the lifetime and the vault stays as it is; later than that nothing is given out, and the vault has
-- forgotten the logon, so that a clock that goes back does not bring it back.
pub active_logon-update :
    (logon from_cs network_id : Text) (now later again : ℕ) (v : WireSessionVault)
    → is_accepted logon from_cs ≡ true
    → let v' = update logon from_cs network_id now v in
      ((later ≤ now + v.ttl) × (active_logon later v' ≡ (some (strip logon), v')))
      ⊎ ((now + v.ttl < later)
          × ((active_logon later v').0 ≡ none)
          × ((active_logon again (active_logon later v').1).0 ≡ none))
unfolding active_logon update get_creds is_fresh creds_of logon_of fresh_or_cleared
active_logon-update logon from_cs network_id now later again v h =
    elim (Bool-cases (leb (later - now) v.ttl)) [
      | inl fresh ↦ inl (ground arith, rw (h, fresh) refl)
      | inr stale ↦ inr (ground arith, rw (h, stale) refl, rw (h, stale) refl)
    ]
