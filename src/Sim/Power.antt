-- ===== src/Sim/Power.antt =====
-- `aircraft_is_powered` and `_xplane_is_powered` of src/acars_bridge/simconnect/monitor.py, with
-- `electrical_sources_live` of src/acars_bridge/xplane/protocol.py. Volts and per cents are in
-- thousandths. `none` means that no usable sample is there yet.
use acars_printer.Prelude.{
  String, Bool, true, false, Option, none, some, List, [], ◌∷◌, not, ◌||◌, any, is_some, or_else,
  str_eq, if◌then◌else◌,
}
use acars_printer.Prelude.Int.{ℤ, pos, leb_ℤ}
use acars_printer.Sim.Snapshot.{SimSnapshot, is_true}

abbrev pub Electrical : Type 0
Electrical = List (String × ℤ)

unfoldable pub num : String → Electrical → Option ℤ
num key [] = none
num key ((k, v) ∷ elec) = if str_eq k key then some v else num key elec

abbrev half : ℤ
half = pos 500

abbrev pub powered_bus_volts : ℤ
powered_bus_volts = pos 18000

abbrev apu_n1_running : ℤ
apu_n1_running = pos 50000

abbrev engine_n1_running : ℤ
engine_n1_running = pos 15000

-- A sampled value is there and reaches the limit.
abbrev pub reaches : ℤ → Option ℤ → Bool
reaches limit none = false
reaches limit (some v) = leb_ℤ limit v

abbrev pub on : Electrical → List String → Bool
on elec = any (λ key. reaches half (num key elec))

abbrev pub bus_live : Electrical → List String → Bool
bus_live elec = any (λ key. reaches powered_bus_volts (num key elec))

abbrev pub sampled : Electrical → List String → Bool
sampled elec = any (λ key. is_some (num key elec))

abbrev external_power_keys : List String
external_power_keys = "EXTERNAL POWER ON" ∷ "EXTERNAL POWER ON:1" ∷ []

abbrev external_volts_keys : List String
external_volts_keys =
    "ELECTRICAL EXTERNAL POWER VOLTAGE" ∷ "ELECTRICAL EXTERNAL POWER VOLTAGE:1" ∷ []

abbrev avionics_bus_keys : List String
avionics_bus_keys =
    "ELECTRICAL AVIONICS BUS VOLTAGE" ∷ "ELECTRICAL BUS VOLTAGE:1" ∷ "ELECTRICAL BUS VOLTAGE:2"
    ∷ "ELECTRICAL BUS VOLTAGE:3" ∷ "ELECTRICAL BUS VOLTAGE:4" ∷ []

abbrev fenix_keys : List String
fenix_keys =
    "L:B_ELEC_BUS_POWER_DC_ESS" ∷ "L:I_OH_ELEC_EXT_PWR_L" ∷ "L:I_OH_ELEC_APU_GEN_L"
    ∷ "L:B_ELEC_BUS_POWER_AC1" ∷ "L:B_ELEC_BUS_POWER_AC2" ∷ []

abbrev pub decisive : List String
decisive =
    "EXTERNAL POWER ON" ∷ "EXTERNAL POWER ON:1" ∷ "ELECTRICAL EXTERNAL POWER VOLTAGE"
    ∷ "ELECTRICAL EXTERNAL POWER VOLTAGE:1" ∷ "APU GENERATOR SWITCH" ∷ "APU VOLTS"
    ∷ "CIRCUIT GENERAL PANEL ON" ∷ "ELECTRICAL AVIONICS BUS VOLTAGE" ∷ "ELECTRICAL BUS VOLTAGE:1"
    ∷ "ELECTRICAL BUS VOLTAGE:2" ∷ "ELECTRICAL BUS VOLTAGE:3" ∷ "ELECTRICAL BUS VOLTAGE:4"
    ∷ "L:B_ELEC_BUS_POWER_DC_ESS" ∷ "L:I_OH_ELEC_EXT_PWR_L" ∷ "L:I_OH_ELEC_APU_GEN_L"
    ∷ "L:B_ELEC_BUS_POWER_AC1" ∷ "L:B_ELEC_BUS_POWER_AC2" ∷ []

abbrev legacy_buses : List String
legacy_buses =
    "ELECTRICAL MAIN BUS VOLTAGE" ∷ "ELECTRICAL GENALT BUS VOLTAGE"
    ∷ "ELECTRICAL GENALT BUS VOLTAGE:1" ∷ "ELECTRICAL GENALT BUS VOLTAGE:2" ∷ []

abbrev source_on_keys : List String
source_on_keys =
    "XP GENERATOR ON:1" ∷ "XP GENERATOR ON:2" ∷ "APU GENERATOR SWITCH" ∷ "XP APU RUNNING"
    ∷ "XP APU RUNNING LEGACY" ∷ "XP APU GEN LEGACY" ∷ "XP GPU ON" ∷ "XP GPU ON LEGACY"
    ∷ "XP ENG RUNNING:1" ∷ "XP ENG RUNNING:2" ∷ "XP ENG RUNNING:3" ∷ "XP ENG RUNNING:4"
    ∷ "XP TOLISS APU AVAIL" ∷ []

abbrev source_n1_keys : List String
source_n1_keys = "XP APU N1" ∷ "XP ENG N1:1" ∷ "XP ENG N1:2" ∷ "XP ENG N1:3" ∷ "XP ENG N1:4" ∷ []

n1_limit : String → ℤ
n1_limit key = if str_eq key "XP APU N1" then apu_n1_running else engine_n1_running

-- `electrical_sources_live`; an empty dictionary is false in Python, like None.
unfoldable pub electrical_sources_live : Electrical → Option Bool
unfolding n1_limit
electrical_sources_live elec =
    if on elec source_on_keys || any (λ key. reaches (n1_limit key) (num key elec)) source_n1_keys
    then some true
    else if sampled elec source_on_keys || sampled elec source_n1_keys
    then some false
    else none

unfoldable pub xplane_is_powered : SimSnapshot → Option Bool
xplane_is_powered s =
    if is_true s.external_power_on || is_true s.apu_generator_on
    then some true
    else electrical_sources_live (or_else s.electrical [])

-- The sources that count on every MSFS airframe.
unfoldable pub source_live : SimSnapshot → Electrical → Bool
source_live s elec =
    is_true s.external_power_on
    || on elec external_power_keys
    || bus_live elec external_volts_keys
    || (is_true s.apu_generator_on || on elec ("APU GENERATOR SWITCH" ∷ []))
    || bus_live elec ("APU VOLTS" ∷ [])
    || on elec ("CIRCUIT GENERAL PANEL ON" ∷ [])
    || bus_live elec avionics_bus_keys
    || on elec fenix_keys

-- `NEW ELECTRICAL SYSTEM` airframes: the main bus and the avionics circuit are not believed.
unfoldable pub fenix_powered : SimSnapshot → Electrical → Option Bool
fenix_powered s elec =
    if sampled elec decisive || is_some s.external_power_on || is_some s.apu_generator_on
    then some false
    else none

unfoldable pub legacy_powered : SimSnapshot → Electrical → Option Bool
legacy_powered s elec =
    if on elec ("CIRCUIT AVIONICS ON" ∷ [])
    then some true
    else if bus_live elec legacy_buses || reaches powered_bus_volts s.main_bus_voltage
    then some true
    else if sampled elec legacy_buses
        || is_some s.main_bus_voltage
        || is_some (num "CIRCUIT GENERAL PANEL ON" elec)
        || is_some (num "CIRCUIT AVIONICS ON" elec)
    then some false
    else none

unfoldable pub msfs_powered : SimSnapshot → Electrical → Option Bool
msfs_powered s elec =
    if source_live s elec
    then some true
    else if on elec ("NEW ELECTRICAL SYSTEM" ∷ [])
    then fenix_powered s elec
    else legacy_powered s elec

unfoldable pub powered_of : SimSnapshot → Option Bool
powered_of s =
    if not s.connected
    then none
    else if str_eq s.source "simconnect"
    then (if is_true s.in_session then msfs_powered s (or_else s.electrical []) else none)
    else if str_eq s.source "xplane"
    then xplane_is_powered s
    else msfs_powered s (or_else s.electrical [])

unfoldable pub aircraft_is_powered : Option SimSnapshot → Option Bool
unfolding powered_of
aircraft_is_powered none = none
aircraft_is_powered (some s) = powered_of s
