-- ===== src/Services/Outbound/Refusal.antt =====
-- What is refused before anything is sent.
use acars_printer.Prelude.{ℕ, ◌≡◌, refl, false, none}
use acars_printer.Text.{Text}
use acars_printer.Hoppie.Requests.{PdcRequest, PositionReport}
use acars_printer.Models.Settings.Switches.{companion_station_enabled}
use acars_printer.Services.WireSession.{get_creds}
use acars_printer.Services.Outbound.{
  Office, Outside, raised, refused, cannot_send, require_credentials, wire_credentials,
  wire_or_refused, >>=-raised,
}
use acars_printer.Services.Outbound.Sends.{send_telex, reply_cpdlc, request_pdc, send_position}

refused_credentials :
    (w : Outside) (o : Office)
    → companion_station_enabled o.settings ≡ false
    → o.vault.creds ≡ none
    → require_credentials w o ≡ (raised (refused cannot_send), o)
unfolding require_credentials wire_credentials wire_or_refused get_creds
refused_credentials w o h e = rw (h, e) refl

-- While the station mode is off and no credentials were taken from the wire, a telex, a reply, a
-- clearance request and a position report each raise `SendNotAllowedError`, and leave the settings, the
-- messages and the posted forms as they were.
pub refused_without_credentials :
    (w : Outside) (o : Office) (to text reply : Text) (id : ℕ) (pdc : PdcRequest)
    (report : PositionReport)
    → companion_station_enabled o.settings ≡ false
    → o.vault.creds ≡ none
    → (send_telex w to text o ≡ (raised (refused cannot_send), o))
      × (reply_cpdlc w id reply o ≡ (raised (refused cannot_send), o))
      × (request_pdc w pdc o ≡ (raised (refused cannot_send), o))
      × (send_position w report o ≡ (raised (refused cannot_send), o))
unfolding send_telex reply_cpdlc request_pdc send_position
refused_without_credentials w o to text reply id pdc report h e =
    let c = refused_credentials w o h e in
    (>>=-raised _ _ o _ o c, >>=-raised _ _ o _ o c, >>=-raised _ _ o _ o c, >>=-raised _ _ o _ o c)
