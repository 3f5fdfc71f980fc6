-- ===== src/Weather/Strips.antt =====
-- The strips of `AutoWxService` of src/acars_bridge/weather/auto_wx.py: the bodies that it fetches, and
-- `_print_bodies`. What other servers answer is an argument, and so is the distance, a float in the
-- code, in thousandths of a mile and rounded up: it is compared with a whole number of miles. A strip is
-- what `print_ticket` is called with.
use acars_printer.Prelude.{
  ℕ, suc, Bool, Option, none, some, List, [], ◌∷◌, ◌++◌, any, not, ◌||◌, if◌then◌else◌, or_else,
}
use acars_printer.Text.{Text, codes, is_empty, text_eq, one_of, strip, upper, starts_with, split_on}
use acars_printer.Hoppie.Types.{Result, ok, raise}
use acars_printer.Hoppie.Requests.{normalize_icao}
use acars_printer.Sim.Snapshot.{SimSnapshot}
use acars_printer.Printing.Format.{PrinterSettings, format}
use acars_printer.Models.Messages.{StoredMessage}
use acars_printer.Models.Settings.Store.{SettingsStore}
use acars_printer.Models.Settings.Choices.{AtisSource, atis_source}
use acars_printer.Models.Settings.Printer.{as_printer_settings}
use acars_printer.Simbrief.Plan.{FlightPlan}

-- The arguments of one call of `print_ticket`.
pub record WxStrip : Type 0 where
  pub ticket_type : Text
  pub callsign : Text
  pub text : Text
  pub settings : PrinterSettings

-- What the service asks of the world at one time, with the places of the airports in `C`: what other
-- servers answer, and whether `print_ticket` raises.
pub record Skies (C : Type 0) : Type 0 where
  pub distance : SimSnapshot → C → ℕ
  pub airport_coords : Text → Option C
  pub ivao_atis : Text → Option Text
  pub vatsim_atis : Text → Option Text
  pub metar : Text → Option Text
  pub taf : Text → Option Text
  pub stamp : Text
  pub received_at : Text
  pub bitmap_columns : ℕ
  pub print_raises : WxStrip → Bool

-- The state of the service, with the strips that it gave to `print_ticket`.
pub record AutoWx (C : Type 0) : Type 0 where
  pub printed_ofp_ids : List Text
  pub coord_cache : List (Text × C)
  pub strips : List WxStrip

-- A body that came and, for a report, is not empty.
came : Text → Option Text → List (Text × Text)
came kind none = []
came kind (some body) = (kind, body) ∷ []

came_filled : Text → Option Text → List (Text × Text)
came_filled kind none = []
came_filled kind (some []) = []
came_filled kind (some (c ∷ body)) = (kind, c ∷ body) ∷ []

module _ {C : Type 0} where
  atis_body : Skies C → Text → AtisSource → List (Text × Text)
  unfolding came
  atis_body x dest AtisSource.ivao = came (codes "auto_atis_ivao") (x.ivao_atis dest)
  atis_body x dest AtisSource.vatsim = came (codes "auto_atis") (x.vatsim_atis dest)
  atis_body x dest AtisSource.pilotedge = came (codes "auto_atis") (x.vatsim_atis dest)

  unfoldable pub fetch_bodies : Skies C → SettingsStore → Text → List Text → List (Text × Text)
  unfolding atis_body came_filled
  fetch_bodies x s dest kinds =
      (if one_of kinds (codes "atis") then atis_body x dest (atis_source s) else [])
      ++ ((if one_of kinds (codes "metar")
            then came_filled (codes "auto_metar") (x.metar dest)
            else [])
          ++ (if one_of kinds (codes "taf")
              then came_filled (codes "auto_taf") (x.taf dest)
              else []))

-- `_INFOREQ_PREFIX`, for an airport.
unfoldable pub inforeq_prefix : Text → Text → Option Text
inforeq_prefix ticket_type icao =
    if text_eq ticket_type (codes "auto_atis")
    then some (codes "VATATIS " ++ (icao ++ codes "_A"))
    else if text_eq ticket_type (codes "auto_atis_ivao")
    then some (codes "IVAOATIS " ++ icao)
    else if text_eq ticket_type (codes "auto_metar")
    then some (codes "METAR " ++ icao)
    else if text_eq ticket_type (codes "auto_taf")
    then some (codes "TAF " ++ icao)
    else none

first_of : List Text → Text
first_of [] = []
first_of (t ∷ ts) = t

has_prefix : Text → Bool
has_prefix first =
    any (λ p. starts_with p first)
      (codes "VATATIS"
        ∷ codes "IVAOATIS"
        ∷ codes "METAR"
        ∷ codes "TAF"
        ∷ codes "SHORTTAF"
        ∷ codes "SHORTFAF"
        ∷ codes "ATIS"
        ∷ [])

with_prefix : Option Text → Text → Text
unfolding first_of has_prefix
with_prefix none text = text
with_prefix (some template) text =
    if has_prefix (upper (strip (first_of (split_on b'\n' text))))
    then text
    else template ++ (b'\n' ∷ text)

unfoldable pub as_inforeq_payload : Text → Text → Text → Text
unfolding with_prefix
as_inforeq_payload ticket_type icao body =
    with_prefix (inforeq_prefix ticket_type icao) (strip body)

unfoldable pub synthetic_inforeq : Text → Text → Text → StoredMessage
synthetic_inforeq callsign payload received_at = record {
  id = 0;
  fingerprint = some (codes "auto-wx");
  direction = codes "in";
  callsign = callsign;
  sender = some (codes "AUTO-WX");
  recipient = some callsign;
  to_station = none;
  message_type = codes "inforeq";
  raw_payload = payload;
  normalized_body = payload;
  min = none;
  mrn = none;
  ra = none;
  send_status = none;
  received_at = received_at;
}

-- The registration of the settings, or else the plan's.
unfoldable pub printer_settings_for : PrinterSettings → FlightPlan → PrinterSettings
printer_settings_for settings plan =
    let registration = upper (strip plan.aircraft_reg) in
    if not (is_empty (strip (or_else settings.aircraft_registration [])))
    then settings
    else if is_empty registration || text_eq registration (codes "N/A")
    then settings
    else record settings { aircraft_registration = some registration }

or_filled : Text → Text → Text
or_filled [] other = other
or_filled (c ∷ text) other = c ∷ text

pub printed_dest : Text → Result Text → Text
unfolding or_filled
printed_dest icao (ok dest) = dest
printed_dest icao (raise e) =
    or_filled (upper (strip (or_filled icao (codes "XXXX")))) (codes "XXXX")

unfoldable pub wx_callsign : FlightPlan → Text
wx_callsign plan =
    if is_empty plan.callsign || text_eq plan.callsign (codes "N/A")
    then codes "WX"
    else plan.callsign

module _ {C : Type 0} where
  unfoldable pub wx_strip : Skies C → PrinterSettings → Text → Text → Text × Text → WxStrip
  wx_strip x settings callsign dest (ticket_type, body) =
      let payload = as_inforeq_payload ticket_type dest body in
      record {
        ticket_type = ticket_type;
        callsign = callsign;
        text = format x.stamp (synthetic_inforeq callsign payload x.received_at) settings;
        settings = settings;
      }

  unfoldable pub one_more : Option ℕ × AutoWx C → Option ℕ × AutoWx C
  one_more (none, a) = (none, a)
  one_more (some count, a) = (some (suc count), a)

  -- `_print_bodies`: how many strips, or `none` for an exception of `print_ticket`, which ends the loop;
  -- and the strips that it handed over after the others.
  unfoldable pub print_bodies :
      Skies C → SettingsStore → FlightPlan → List (Text × Text) → AutoWx C → Option ℕ × AutoWx C
  unfolding printed_dest one_more
  print_bodies x s plan [] a = (some 0, a)
  print_bodies x s plan (body ∷ bodies) a =
      let settings = printer_settings_for (as_printer_settings none x.bitmap_columns s) plan in
      let dest = printed_dest plan.dest_icao (normalize_icao plan.dest_icao) in
      let strip = wx_strip x settings (wx_callsign plan) dest body in
      let handed = record a { strips = a.strips ++ strip ∷ [] } in
      let rest = print_bodies x s plan bodies handed in
      if x.print_raises strip then (none, handed) else one_more rest
