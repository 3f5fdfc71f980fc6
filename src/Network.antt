-- ===== src/Network.antt =====
-- src/acars_bridge/network.py: the networks and what is known of each.
use acars_printer.Prelude.{Bool, false, Option, List, [], ◌∷◌, ◌++◌, or_else, if◌then◌else◌}
use acars_printer.Text.{Text, codes, text_eq, one_of, lower, strip}

pub data AcarsNetwork : Type 0 where
  hoppie : AcarsNetwork
  sayintentions : AcarsNetwork
  pmdg_gfo : AcarsNetwork

pub data WireFormat : Type 0 where
  hoppie_format : WireFormat
  gfo_format : WireFormat

-- `value` of the enumeration.
unfoldable pub network_value : AcarsNetwork → Text
network_value AcarsNetwork.hoppie = codes "hoppie"
network_value AcarsNetwork.sayintentions = codes "sayintentions"
network_value AcarsNetwork.pmdg_gfo = codes "pmdg_gfo"

-- `AcarsNetwork(raw)`, where the default takes the place of the `ValueError`.
network_of : Text → AcarsNetwork
network_of raw =
    if text_eq raw (codes "sayintentions")
    then AcarsNetwork.sayintentions
    else if text_eq raw (codes "pmdg_gfo")
    then AcarsNetwork.pmdg_gfo
    else AcarsNetwork.hoppie

-- `parse_network` of a text.
unfoldable pub parse_network : Option Text → AcarsNetwork
unfolding network_of
parse_network value = network_of (lower (strip (or_else value [])))

pub record NetworkProfile : Type 0 where
  pub id : AcarsNetwork
  pub label : Text
  pub primary_host : Text
  pub tap_hosts : List Text
  pub connect_path : Text
  pub wire_format : WireFormat
  pub hosts_redirect : Bool
  pub divert_process_allowlist : List Text
  pub divert_process_denylist : List Text

sim_process_allowlist : List Text
sim_process_allowlist =
    codes "flightsimulator"
    ∷ codes "prepar3d"
    ∷ codes "x-plane"
    ∷ codes "xplane"
    ∷ codes "fsx"
    ∷ codes "p3d"
    ∷ []

sayintentions_denylist : List Text
sayintentions_denylist = codes "sayintentions" ∷ codes "say-intentions" ∷ []

unfoldable pub profile_for : AcarsNetwork → NetworkProfile
unfolding sim_process_allowlist sayintentions_denylist
profile_for AcarsNetwork.hoppie = record {
  id = AcarsNetwork.hoppie;
  label = codes "Hoppie";
  primary_host = codes "www.hoppie.nl";
  tap_hosts = codes "www.hoppie.nl" ∷ codes "hoppie.nl" ∷ [];
  connect_path = codes "/acars/system/connect.html";
  wire_format = WireFormat.hoppie_format;
  hosts_redirect = false;
  divert_process_allowlist = sim_process_allowlist;
  divert_process_denylist = [];
}
profile_for AcarsNetwork.sayintentions = record {
  id = AcarsNetwork.sayintentions;
  label = codes "SayIntentions.AI";
  primary_host = codes "acars.sayintentions.ai";
  tap_hosts = codes "acars.sayintentions.ai" ∷ [];
  connect_path = codes "/acars/system/connect.html";
  wire_format = WireFormat.hoppie_format;
  hosts_redirect = false;
  divert_process_allowlist = sim_process_allowlist;
  divert_process_denylist = sayintentions_denylist;
}
profile_for AcarsNetwork.pmdg_gfo = record {
  id = AcarsNetwork.pmdg_gfo;
  label = codes "PMDG GFO";
  primary_host = codes "gfo.pmdg.com";
  tap_hosts = codes "gfo.pmdg.com" ∷ [];
  connect_path = codes "/api/datalink/uplink";
  wire_format = WireFormat.gfo_format;
  hosts_redirect = false;
  divert_process_allowlist = sim_process_allowlist;
  divert_process_denylist = [];
}

unfoldable pub connect_url : NetworkProfile → Text
connect_url p = codes "https://" ++ p.primary_host ++ p.connect_path

unfoldable pub all_profiles : List NetworkProfile
all_profiles =
    profile_for AcarsNetwork.hoppie
    ∷ profile_for AcarsNetwork.sayintentions
    ∷ profile_for AcarsNetwork.pmdg_gfo
    ∷ []

-- The hosts of a profile that were not seen yet go behind those that were.
add_hosts : List Text → List Text → List Text
add_hosts seen [] = seen
add_hosts seen (host ∷ hosts) =
    add_hosts (if one_of seen host then seen else seen ++ (host ∷ [])) hosts

hosts_of : List Text → List NetworkProfile → List Text
unfolding add_hosts
hosts_of seen [] = seen
hosts_of seen (p ∷ profiles) = hosts_of (add_hosts seen p.tap_hosts) profiles

unfoldable pub all_tap_hosts : List Text
unfolding hosts_of add_hosts
all_tap_hosts = hosts_of [] all_profiles
