-- ===== src/Services/Outbound/Sends.antt =====
-- The methods of `OutboundMessageService` that send one message: a telex, the reply to a CPDLC message,
-- the request of a clearance and a position report.
pub mod AllOrNothing
use acars_printer.Prelude.{
  ℕ, Bool, true, false, Option, none, some, List, [], ◌∷◌, ◌++◌, not, ◌&&◌, ◌||◌, or_else,
  if◌then◌else◌,
}
use acars_printer.Prelude.Int.{ℤ}
use acars_printer.Text.{Text, codes, is_empty, text_eq, upper, strip, to_decimal}
use acars_printer.Hoppie.Types.{Result, Error, MessageType, value}
use acars_printer.Hoppie.Cpdlc.{CpdlcPacket, build_reply, encode, display_text}
use acars_printer.Hoppie.Requests.{
  PdcRequest, PositionReport, build_pdc_telex, build_position_packet, normalize_icao,
}
use acars_printer.Hoppie.Requests as Requests
use acars_printer.Models.Messages.{StoredMessage, Outbound, get}
use acars_printer.Models.Settings.Store.{SettingsStore, set_key}
use acars_printer.Models.Settings.Choices.{next_downlink_min}
use acars_printer.Services.Outbound.{
  Office, Outside, Raised, Answer, Action, pure, fail, lift, gets, or_raise, ◌>>=◌, ◌>>◌, modify,
  raise_if, set_setting, database_of, present, require_credentials, post, ensure_ok, store_outbound,
}

abbrev pub not_inbound_cpdlc : StoredMessage → Bool
not_inbound_cpdlc m =
    not (text_eq m.direction (codes "in")) || not (text_eq m.message_type (value MessageType.cpdlc))

abbrev not_found : ℕ → Error
not_found id = Error.hoppie_error (codes "Message " ++ (to_decimal id ++ codes " not found."))

-- The packets of the model have no negative number, which the code would send.
unfoldable pub min_of : ℤ → Answer ℕ
min_of (ℤ.pos n) = Answer.answer n
min_of (ℤ.negsuc n) = Answer.raised Raised.beyond_model

-- The number of this downlink, which the settings then keep the successor of.
unfoldable pub take_min : Action ℕ
unfolding min_of
take_min o =
    let (n, settings) = next_downlink_min o.settings in (min_of n, record o { settings = settings })

module _ (w : Outside) where
  unfoldable pub send_telex : Text → Text → Action StoredMessage
  send_telex to text = do
    c ← require_credentials w
    raw ← post w (Requests.send_telex c.0 c.1 to text)
    _ ← ensure_ok w raw
    store_outbound w record {
      callsign = c.1;
      to_station = upper (strip to);
      message_type = MessageType.telex;
      body = text;
      raw_payload = raw;
      min_id = none;
      mrn = none;
      ra = none;
      send_status = codes "sent";
    }

  -- The row of a reply.
  unfoldable pub reply_row : Text → Text → CpdlcPacket → Outbound
  reply_row cs sender packet = record {
    callsign = cs;
    to_station = sender;
    message_type = MessageType.cpdlc;
    body = display_text packet;
    raw_payload = encode packet;
    min_id = packet.min;
    mrn = packet.mrn;
    ra = some packet.ra;
    send_status = codes "sent";
  }

  -- The message that is replied to, and its sender.
  unfoldable pub reply_target : ℕ → Action (StoredMessage × Text)
  reply_target message_id = do
    found ← gets λ o. get message_id (database_of o)
    inbound ← or_raise (Raised.refused (not_found message_id)) found
    _ ←
        raise_if (not_inbound_cpdlc inbound)
          (Error.hoppie_error (codes "Can only reply to inbound CPDLC messages."))
    sender ← lift (
        present (Error.hoppie_error (codes "Inbound CPDLC message has no sender to reply to."))
          inbound.sender)
    pure (inbound, sender)

  unfoldable pub reply_cpdlc : ℕ → Text → Action StoredMessage
  reply_cpdlc message_id reply = do
    c ← require_credentials w
    target ← reply_target message_id
    our_min ← take_min
    packet ← lift (build_reply our_min target.0.min reply)
    raw ← post w (Requests.send_cpdlc c.0 c.1 target.1 (encode packet))
    _ ← ensure_ok w raw
    store_outbound w (reply_row c.1 target.1 packet)

  -- The fields of the form of a clearance are kept for the next one.
  remember_pdc : Text → PdcRequest → Action (Unit {0})
  remember_pdc to r = do
    _ ← set_setting (set_key (codes "req_pdc_station") (some to))
    departure ← lift (normalize_icao r.departure)
    _ ← set_setting (set_key (codes "req_pdc_dep") (some departure))
    destination ← lift (normalize_icao r.destination)
    _ ← set_setting (set_key (codes "req_pdc_dest") (some destination))
    _ ← set_setting (set_key (codes "req_pdc_actype") (some (upper (strip r.aircraft_type))))
    _ ← set_setting (set_key (codes "req_pdc_stand") (some (upper (strip r.stand))))
    set_setting (set_key (codes "req_pdc_atis") (some (upper (strip r.atis_letter))))

  unfoldable pub request_pdc : PdcRequest → Action StoredMessage
  unfolding remember_pdc
  request_pdc r = do
    c ← require_credentials w
    _ ←
        raise_if (is_empty (upper (strip r.station)))
          (Error.hoppie_error (codes "PDC station is required."))
    body ← lift (build_pdc_telex c.1 r)
    raw ← post w (Requests.send_telex c.0 c.1 (upper (strip r.station)) body)
    _ ← ensure_ok w raw
    _ ← remember_pdc (upper (strip r.station)) r
    store_outbound w record {
      callsign = c.1;
      to_station = upper (strip r.station);
      message_type = MessageType.telex;
      body = body;
      raw_payload = raw;
      min_id = none;
      mrn = none;
      ra = none;
      send_status = codes "sent";
    }

  unfoldable pub send_position : PositionReport → Action StoredMessage
  send_position r = do
    c ← require_credentials w
    _ ←
        raise_if (is_empty (upper (strip r.to)))
          (Error.hoppie_error (codes "Position report destination is required."))
    packet ← lift (build_position_packet r)
    raw ← post w (Requests.send_position c.0 c.1 (upper (strip r.to)) packet)
    _ ← ensure_ok w raw
    _ ← set_setting (set_key (codes "req_pos_to") (some (upper (strip r.to))))
    store_outbound w record {
      callsign = c.1;
      to_station = upper (strip r.to);
      message_type = MessageType.position;
      body = packet;
      raw_payload = raw;
      min_id = none;
      mrn = none;
      ra = none;
      send_status = codes "sent";
    }
