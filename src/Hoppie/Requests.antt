-- ===== src/Hoppie/Requests.antt =====
-- src/acars_bridge/hoppie/requests.py: the packets of the requests, and
-- src/acars_bridge/hoppie/station.py over src/acars_bridge/hoppie/client.py: the fields of the form that
-- carries one.
use acars_printer.Prelude.{
  Bool, Option, none, some, List, [], ◌∷◌, ◌++◌, not, all, length, ◌==◌, ◌||◌, ◌&&◌, if◌then◌else◌,
}
use acars_printer.Text.{
  Text, codes, is_empty, is_alpha, one_of, upper, lower, strip, join, starts_with,
}
use acars_printer.Hoppie.Types.{Result, ok, raise, value_error, ◌>>=◌}
use acars_printer.Models.Settings.Choices.{AtisSource, atis_value}

unfoldable pub normalize_icao : Text → Result Text
normalize_icao icao =
    let value = upper (strip icao) in
    if not (length value == 4) || not (all is_alpha value)
    then raise (value_error (codes "ICAO must be 4 letters (e.g. EGLL)."))
    else ok value

weather_kinds : List Text
weather_kinds = codes "metar" ∷ codes "taf" ∷ codes "shorttaf" ∷ []

-- `WeatherKind(str(kind).strip().lower())`, by its value.
unfoldable pub weather_kind : Text → Result Text
unfolding weather_kinds
weather_kind kind =
    let value = lower (strip kind) in
    if one_of weather_kinds value
    then ok value
    else raise (value_error (codes "not a valid WeatherKind"))

unfoldable pub build_weather_packet : Text → Text → Result Text
build_weather_packet kind icao = do
  value ← weather_kind kind
  code ← normalize_icao icao
  ok (value ++ (b' ' ∷ code))

pub data AtisSide : Type 0 where
  arr : AtisSide
  dep : AtisSide

side_suffix : AtisSide → Text
side_suffix AtisSide.arr = codes "A_ATIS"
side_suffix AtisSide.dep = codes "D_ATIS"

atis_packet : Text → AtisSource → Option AtisSide → Text
unfolding side_suffix
atis_packet code AtisSource.vatsim (some side) =
    atis_value AtisSource.vatsim ++ (b' ' ∷ (code ++ (b'_' ∷ side_suffix side)))
atis_packet code source side = atis_value source ++ (b' ' ∷ code)

unfoldable pub build_atis_packet : Text → AtisSource → Option AtisSide → Result Text
unfolding atis_packet side_suffix
build_atis_packet icao source side = do
  code ← normalize_icao icao
  ok (atis_packet code source side)

-- `ValueError` when a condition fails.
require : Bool → Text → Result (Unit {0})
require condition message = if condition then ok tt else raise (value_error message)

is_letter : Text → Bool
is_letter letter = length letter == 1 && all is_alpha letter

pub record PdcRequest : Type 0 where
  pub station : Text
  pub departure : Text
  pub destination : Text
  pub aircraft_type : Text
  pub stand : Text
  pub atis_letter : Text

pdc_text : Text → Text → Text → Text → Text → Text → Text
pdc_text cs ac dest dep_code gate letter = join (codes "\n") (
    codes "REQUEST PREDEP CLEARANCE"
    ∷ join (codes " ") (cs ∷ ac ∷ codes "TO" ∷ dest ∷ [])
    ∷ join (codes " ") (codes "AT" ∷ dep_code ∷ codes "STAND" ∷ gate ∷ [])
    ∷ join (codes " ") (codes "ATIS" ∷ letter ∷ [])
    ∷ [])

unfoldable pub build_pdc_telex : Text → PdcRequest → Result Text
unfolding require is_letter pdc_text
build_pdc_telex callsign r =
    let cs = upper (strip callsign) in
    let ac = upper (strip r.aircraft_type) in
    let gate = upper (strip r.stand) in
    let letter = upper (strip r.atis_letter) in
    do
      dest ← normalize_icao r.destination
      dep_code ← normalize_icao r.departure
      _ ← require (not (is_empty cs)) (codes "Callsign is required.")
      _ ← require (not (is_empty ac)) (codes "Aircraft type is required.")
      _ ← require (not (is_empty gate)) (codes "Stand / gate is required.")
      _ ← require (is_letter letter) (codes "ATIS letter must be a single letter (e.g. D).")
      ok (pdc_text cs ac dest dep_code gate letter)

pub record PositionReport : Type 0 where
  pub to : Text
  pub latitude : Text
  pub longitude : Text
  pub altitude : Text
  pub time_utc : Text
  pub next_waypoint : Option Text
  pub eta : Option Text
  pub remark : Option Text

-- A line for a field that may be left out.
optional_line : Text → (Text → Text) → Option Text → List Text
optional_line label f none = []
optional_line label f (some t) = if is_empty (strip t) then [] else (label ++ f (strip t)) ∷ []

unfoldable pub build_position_packet : PositionReport → Result Text
unfolding require optional_line
build_position_packet r =
    let lat = upper (strip r.latitude) in
    let lon = upper (strip r.longitude) in
    let alt = upper (strip r.altitude) in
    let when = upper (strip r.time_utc) in
    do
      _ ←
          require (not (is_empty lat || is_empty lon))
            (codes "Latitude and longitude are required.")
      _ ← require (not (is_empty alt)) (codes "Altitude / flight level is required.")
      _ ← require (not (is_empty when)) (codes "UTC time is required (e.g. 1435Z).")
      ok (
          join (codes "\n") (
            (codes "LAT " ++ lat)
            ∷ (codes "LON " ++ lon)
            ∷ (codes "ALT " ++ alt)
            ∷ (codes "TIME " ++ when)
            ∷ (optional_line (codes "NEXT ") upper r.next_waypoint
                ++ (optional_line (codes "ETA ") upper r.eta
                    ++ optional_line (codes "RMK ") (λ t. t) r.remark))))

-- The fields that `HoppieClient` posts.
pub record Fields : Type 0 where
  pub logon : Text
  pub from : Text
  pub to : Text
  pub type_of : Text
  pub packet : Text

-- `StationTransport.send_…` hands this to the client.
unfoldable pub send_fields : Text → Text → Text → Text → Text → Fields
send_fields logon callsign to message_type packet = record {
  logon = logon;
  from = upper (strip callsign);
  to = upper (strip to);
  type_of = message_type;
  packet = packet;
}

unfoldable pub send_telex : Text → Text → Text → Text → Fields
send_telex logon callsign to text = send_fields logon callsign to (codes "telex") text

unfoldable pub send_cpdlc : Text → Text → Text → Text → Fields
send_cpdlc logon callsign to packet = send_fields logon callsign to (codes "cpdlc") packet

unfoldable pub send_inforeq : Text → Text → Text → Fields
send_inforeq logon callsign packet = record {
  logon = logon;
  from = upper (strip callsign);
  to = codes "SERVER";
  type_of = codes "inforeq";
  packet = packet;
}

unfoldable pub send_position : Text → Text → Text → Text → Fields
send_position logon callsign to packet = send_fields logon callsign to (codes "position") packet

unfoldable pub ping_fields : Text → Text → Fields
ping_fields logon callsign = record {
  logon = logon;
  from = (let cs = upper (strip callsign) in if is_empty cs then codes "ACARSBRIDGE" else cs);
  to = codes "SERVER";
  type_of = codes "ping";
  packet = [];
}

unfoldable pub poll_fields : Text → Text → Fields
poll_fields logon callsign = record {
  logon = logon;
  from = callsign;
  to = callsign;
  type_of = codes "poll";
  packet = [];
}

-- `ping`: whether the answer begins with "ok".
unfoldable pub is_pong : Text → Bool
is_pong raw = starts_with (codes "ok") (lower (strip raw))
