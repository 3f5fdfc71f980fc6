-- ===== src/Tests/Outbound.antt =====
-- The theorems on what the bridge sends, in an office with one message from a controller.
use acars_printer.Prelude.{◌≡◌, refl, false, Option, none, some, [], ◌∷◌}
use acars_printer.Text.{Text, codes, text_eq}
use acars_printer.Hoppie.Types.{ok}
use acars_printer.Hoppie.Requests.{PdcRequest, PositionReport}
use acars_printer.Models.Messages.{StoredMessage, empty_database}
use acars_printer.Models.Settings.Store.{get_key}
use acars_printer.Models.Settings.Names.{Fernet}
use acars_printer.Models.Settings.Switches.{companion_station_enabled}
use acars_printer.Services.WireSession.{WireSessionCreds}
use acars_printer.Services.Outbound.{Office, Outside, raised, refused, cannot_send}
use acars_printer.Services.Outbound.Sends.{send_telex, reply_cpdlc, request_pdc, send_position}
use acars_printer.Services.Outbound.Sends.AllOrNothing.{StoresOne, sends-StoresOne}
use acars_printer.Services.Outbound.Refusal.{refused_without_credentials}

-- A cipher that puts one character before the text.
decrypt_text : Text → Option Text
decrypt_text [] = none
decrypt_text (c ∷ t) = some t

abbrev marked : Fernet
unfolding decrypt_text
marked = record {
  encrypt = λ nonce t. b'g' ∷ t;
  decrypt = decrypt_text;
  decrypt-encrypt = λ nonce t. refl;
  encrypt-filled = λ nonce t. refl;
}

abbrev outside : Outside
outside = record {
  connect = λ fields. ok (codes "ok");
  fernet = marked;
  printing = record {
    print = λ m body settings. none;
    printer_name = codes "fake";
    sha256 = λ t. t;
    stamp = λ m. [];
  };
  plan_callsign = none;
  bitmap_columns = 42;
  now = 100;
  stamp = codes "12:00";
}

abbrev clearance : StoredMessage
clearance = record {
  id = 1;
  fingerprint = some (codes "f");
  direction = codes "in";
  callsign = codes "DLH1";
  sender = some (codes "EDGG");
  recipient = some (codes "DLH1");
  to_station = none;
  message_type = codes "cpdlc";
  raw_payload = codes "CLIMB";
  normalized_body = codes "CLIMB";
  min = some 5;
  mrn = none;
  ra = some (codes "WU");
  send_status = none;
  received_at = codes "11:59";
}

abbrev wire_creds : WireSessionCreds
wire_creds = record {
  logon = codes "secret";
  from_cs = codes "DLH1";
  network_id = codes "hoppie";
  seen_at = 90;
}

abbrev office_with : Option WireSessionCreds → Office
office_with creds = record {
  settings = record { rows = [] };
  vault = record { ttl = 60; creds = creds };
  service = record {
    world = record {
      database = record empty_database { messages = clearance ∷ []; next_message = 2 };
      pairing = record { url = none; emitted = false };
      paper = [];
    };
    gate = none;
    recent = [];
  };
  posted = [];
}

abbrev pdc : PdcRequest
pdc = record {
  station = codes "eddf";
  departure = codes "EDDF";
  destination = codes "EGLL";
  aircraft_type = codes "A320";
  stand = codes "A1";
  atis_letter = codes "D";
}

abbrev report : PositionReport
report = record {
  to = codes "EDGG";
  latitude = codes "N50";
  longitude = codes "E008";
  altitude = codes "FL350";
  time_utc = codes "1435Z";
  next_waypoint = none;
  eta = none;
  remark = none;
}

sends-StoresOne_example :
    StoresOne
      (office_with (some wire_creds))
      (send_telex outside (codes "EDGG") (codes "HELLO") (office_with (some wire_creds)))
    × StoresOne
        (office_with (some wire_creds))
        (reply_cpdlc outside 1 (codes "wilco") (office_with (some wire_creds)))
    × StoresOne
        (office_with (some wire_creds))
        (request_pdc outside pdc (office_with (some wire_creds)))
    × StoresOne
        (office_with (some wire_creds))
        (send_position outside report (office_with (some wire_creds)))
sends-StoresOne_example =
    sends-StoresOne outside (office_with (some wire_creds)) (codes "EDGG") (codes "HELLO")
      (codes "wilco") 1 pdc report

station_off :
    (creds : Option WireSessionCreds)
    → companion_station_enabled (office_with creds).settings ≡ false
unfolding companion_station_enabled get_key text_eq
station_off creds = refl

refused_without_credentials_example :
    (send_telex outside (codes "EDGG") (codes "HELLO") (office_with none)
      ≡ (raised (refused cannot_send), office_with none))
    × (reply_cpdlc outside 1 (codes "wilco") (office_with none)
        ≡ (raised (refused cannot_send), office_with none))
    × (request_pdc outside pdc (office_with none)
        ≡ (raised (refused cannot_send), office_with none))
    × (send_position outside report (office_with none)
        ≡ (raised (refused cannot_send), office_with none))
refused_without_credentials_example =
    refused_without_credentials outside (office_with none) (codes "EDGG") (codes "HELLO")
      (codes "wilco") 1 pdc report (station_off none) refl
