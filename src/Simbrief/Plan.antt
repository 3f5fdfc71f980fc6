-- ===== src/Simbrief/Plan.antt =====
-- The fields of `SimBriefFlightPlan` of src/acars_bridge/simbrief/models.py that decide when its tickets
-- print and which weather does, with `is_eligible_for_autoprint` and `is_fenix_aircraft`. A time is in seconds.
use acars_printer.Prelude.{
  ℕ, ◌+◌, Bool, false, Option, none, some, [], not, ◌&&◌, leb, if◌then◌else◌, or_else,
}
use acars_printer.Text.{Text, codes, is_empty, text_eq, contains, upper}

pub record FlightPlan : Type 0 where
  pub ofp_id : Text
  pub callsign : Text
  pub aircraft_name : Text
  pub aircraft_reg : Text
  pub origin_icao : Text
  pub dest_icao : Text
  pub sched_out_utc : Option ℕ

still_usable : ℕ → ℕ → Option ℕ → Bool
still_usable now late_grace none = false
still_usable now late_grace (some sched_out) = leb now (sched_out + late_grace)

-- `last_ofp_id and plan.ofp_id == last_ofp_id`.
unfoldable pub is_last : Option Text → FlightPlan → Bool
is_last last_ofp_id plan =
    let last = or_else last_ofp_id [] in not (is_empty last) && text_eq plan.ofp_id last

unfoldable pub is_eligible_for_autoprint : FlightPlan → ℕ → Option Text → ℕ → Bool
unfolding still_usable
is_eligible_for_autoprint plan now last_ofp_id late_grace =
    if is_last last_ofp_id plan then false else still_usable now late_grace plan.sched_out_utc

unfoldable pub is_fenix_aircraft : FlightPlan → Bool
is_fenix_aircraft plan = contains (codes "FENIX") (upper plan.aircraft_name)
