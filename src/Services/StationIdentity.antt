-- ===== src/Services/StationIdentity.antt =====
-- src/acars_bridge/services/station_identity.py: the callsign that the bridge sends from.
use acars_printer.Prelude.{Option, none, some, List, [], ◌∷◌, not, ◌&&◌, or_else, if◌then◌else◌}
use acars_printer.Text.{Text, codes, is_empty, text_eq, one_of, upper, strip}
use acars_printer.Models.Messages.{StoredMessage, Database, list_recent}
use acars_printer.Models.Settings.Store.{SettingsStore}
use acars_printer.Models.Settings.Names.{callsign, station_callsign, set_station_callsign}

pub data CallsignSource : Type 0 where
  network : CallsignSource
  simbrief : CallsignSource
  message : CallsignSource
  remembered : CallsignSource

pub record StationIdentity : Type 0 where
  pub callsign : Option Text
  pub source : Option CallsignSource

-- `(value or "").strip().upper()`.
unfoldable pub tidy : Option Text → Text
tidy value = upper (strip (or_else value []))

known_as : Text → CallsignSource → StationIdentity
known_as cs source = record { callsign = some cs; source = some source }

remembered_as : Option Text → StationIdentity
remembered_as none = record { callsign = none; source = none }
remembered_as (some cs) = record { callsign = some cs; source = some CallsignSource.remembered }

from_settings : SettingsStore → StationIdentity × SettingsStore
unfolding remembered_as
from_settings s = (remembered_as (station_callsign s), s)

no_callsigns : List Text
no_callsigns = codes "UNKNOWN" ∷ codes "N/A" ∷ codes "WX" ∷ codes "OFP" ∷ codes "TEST" ∷ []

from_recent : List StoredMessage → SettingsStore → StationIdentity × SettingsStore
unfolding known_as no_callsigns from_settings
from_recent [] s = from_settings s
from_recent (m ∷ ms) s =
    let cs = upper (strip m.callsign) in
    if not (is_empty cs) && not (one_of no_callsigns cs)
    then (known_as cs CallsignSource.message, set_station_callsign cs s)
    else from_settings s

from_plan : Option Text → Database → SettingsStore → StationIdentity × SettingsStore
unfolding known_as from_recent
from_plan plan_callsign db s =
    let sb = tidy plan_callsign in
    if not (is_empty sb) && not (text_eq sb (codes "N/A"))
    then (known_as sb CallsignSource.simbrief, set_station_callsign sb s)
    else from_recent (list_recent 1 db) s

-- The callsign of the plan that the watcher follows is an argument, `none` without one.
unfoldable pub resolve_station_identity :
    Option Text → Database → SettingsStore → StationIdentity × SettingsStore
unfolding known_as from_plan from_recent from_settings no_callsigns remembered_as
resolve_station_identity plan_callsign db s =
    let filter = tidy (callsign s) in
    if not (is_empty filter)
    then (known_as filter CallsignSource.network, s)
    else from_plan plan_callsign db s
