-- ===== src/Services/Outbound/Inforeq.antt =====
-- The requests of information of `OutboundMessageService`, whose answer is stored and printed by the
-- ingestion, in the form that needs a logon: `_request_inforeq`, the weather and the ATIS of PilotEdge.
use acars_printer.Prelude.{
  Bool, true, false, Option, none, some, List, [], ◌∷◌, ◌++◌, not, ◌&&◌, ◌||◌, ◌==◌, any, map,
  length, if◌then◌else◌,
}
use acars_printer.Text.{Text, codes, text_eq, upper, words, split_on}
use acars_printer.Hoppie.Types.{MessageType, HoppieMessage}
use acars_printer.Hoppie.Parser.{parse_response}
use acars_printer.Hoppie.AtisText.{atis_reply_unavailable}
use acars_printer.Hoppie.Requests.{AtisSide, build_weather_packet, build_atis_packet, send_inforeq}
use acars_printer.Models.Messages.{StoredMessage, get_by_fingerprint}
use acars_printer.Models.Settings.Store.{SettingsStore, set_key}
use acars_printer.Models.Settings.Choices.{AtisSource}
use acars_printer.Models.Settings.Kinds.{printable_types}
use acars_printer.Models.Settings.Printer.{as_printer_settings}
use acars_printer.Services.Fingerprint.{fingerprint_basis}
use acars_printer.Services.Ingestion.{Plan, Stats, no_stats, Service, ingest}
use acars_printer.Services.Outbound.{
  Office, Outside, Raised, Answer, Action, pure, fail, lift, gets, ◌>>=◌, set_setting, database_of,
  require_credentials, post, raw_or_ok, store_outbound,
}

last_word : List Text → Text
last_word [] = []
last_word (w ∷ []) = w
last_word (w ∷ v ∷ ws) = last_word (v ∷ ws)

first_part : List Text → Text
first_part [] = []
first_part (p ∷ ps) = p

-- `packet.split()[-1].split("_")[0] if packet.split() else ""`.
packet_icao : Text → Text
unfolding last_word first_part
packet_icao packet = first_part (split_on b'_' (last_word (words packet)))

is_none : List HoppieMessage → Bool
is_none [] = true
is_none (m ∷ ms) = false

-- An answer that gives nothing to print.
unfoldable pub is_unavailable : List HoppieMessage → Bool
unfolding is_none
is_unavailable messages =
    is_none messages
    || any (λ (m : HoppieMessage). atis_reply_unavailable m.normalized_body) messages

stored_one : Option StoredMessage → List StoredMessage → List StoredMessage
stored_one none rows = rows
stored_one (some row) rows = row ∷ rows

module _ (w : Outside) where
  -- What `ingest` reads of the settings, with `auto_print` and `force_print` given.
  unfoldable pub print_plan : Bool → SettingsStore → Plan
  print_plan wanted s = record {
    do_print = wanted;
    printable = printable_types s;
    settings = as_printer_settings none w.bitmap_columns s;
    force_print = wanted;
  }

  ingested : Option (Stats × Service) → Action Stats
  ingested none o = fail Raised.database_error o
  ingested (some (stats, service)) o = (Answer.answer stats, record o { service = service })

  -- `self._ingestion.ingest(messages, …)`.
  ingest_reply : Bool → List HoppieMessage → Action Stats
  unfolding ingested
  ingest_reply wanted messages o =
      ingested
        (ingest w.printing (print_plan wanted o.settings)
          (map (λ m. (m, (w.now, w.stamp))) messages) o.service)
        o

  -- The rows of the messages of the answer.
  stored_rows : List HoppieMessage → Office → List StoredMessage
  unfolding stored_one
  stored_rows [] o = []
  stored_rows (m ∷ ms) o =
      stored_one (get_by_fingerprint (w.printing.sha256 (fingerprint_basis m)) (database_of o))
        (stored_rows ms o)

  remember_icao : Text → Action (Unit {0})
  unfolding packet_icao
  remember_icao packet =
      let icao = packet_icao packet in
      set_setting λ s. if length icao == 4 then set_key (codes "req_last_icao") (some icao) s else s

  with_messages : StoredMessage → List HoppieMessage → Action (List StoredMessage × Bool × Stats)
  unfolding ingest_reply stored_rows
  with_messages outbound [] = pure (outbound ∷ [], true, no_stats)
  with_messages outbound (m ∷ ms) = do
    let unavailable = is_unavailable (m ∷ ms)
    stats ← ingest_reply (not unavailable) (m ∷ ms)
    inbounds ← gets (stored_rows (m ∷ ms))
    pure (outbound ∷ inbounds, unavailable, stats)

  -- `_request_inforeq`: the rows, whether the answer was of no use, and the account of the prints.
  unfoldable pub request_inforeq : Text → Text → Action (List StoredMessage × Bool × Stats)
  unfolding with_messages remember_icao
  request_inforeq packet label = do
    c ← require_credentials w
    raw ← post w (send_inforeq c.0 c.1 packet)
    messages ← lift (parse_response (raw_or_ok w raw) c.1)
    outbound ← store_outbound w record {
      callsign = c.1;
      to_station = codes "SERVER";
      message_type = MessageType.inforeq;
      body = label ++ (codes ": " ++ packet);
      raw_payload = raw;
      min_id = none;
      mrn = none;
      ra = none;
      send_status = codes "sent";
    }
    _ ← remember_icao packet
    with_messages outbound messages

  -- `request_weather` with credentials.
  unfoldable pub request_weather : Text → Text → Action (List StoredMessage)
  request_weather kind icao = do
    packet ← lift (build_weather_packet kind icao)
    reply ← request_inforeq packet (upper kind)
    pure reply.0

  retried : Text → Text → List StoredMessage × Bool × Stats → Action (List StoredMessage)
  retried plain primary first =
      if first.1 && not (text_eq plain primary)
      then (do again ← request_inforeq plain (codes "ATIS"); pure again.0)
      else pure first.0

  retry_plain :
      Text
      → Text
      → Option AtisSide
      → List StoredMessage × Bool × Stats
      → Action (List StoredMessage)
  unfolding retried
  retry_plain icao primary none first = pure first.0
  retry_plain icao primary (some side) first = do
    plain ← lift (build_atis_packet icao AtisSource.pilotedge none)
    retried plain primary first

  -- `request_atis` from PilotEdge, with the side that the caller or the simulator gives.
  unfoldable pub request_atis : Text → Option AtisSide → Bool → Action (List StoredMessage)
  unfolding retry_plain retried
  request_atis icao side fallback_plain = do
    primary ← lift (build_atis_packet icao AtisSource.pilotedge side)
    first ← request_inforeq primary (codes "ATIS")
    if fallback_plain then retry_plain icao primary side first else pure first.0
