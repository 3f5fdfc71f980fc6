-- ===== src/Tests/Exchange.antt =====
-- An intercepted exchange, the vault, and a stale reading of the gate at concrete inputs.
use acars_printer.Prelude.{ℕ, ◌≡◌, refl, true, false, Option, none, some, All}
use acars_printer.Text.{Text, codes, is_empty, upper, strip, lstrip, rstrip, is_space, text_eq}
use acars_printer.Tap.Extract.{Form, callsign_text, messages_from_hoppie_exchange}
use acars_printer.Tap.Extract.About.{About, messages_from_hoppie_exchange-About}
use acars_printer.Services.WireSession.{WireSessionVault, new_vault, is_accepted, update}
use acars_printer.Sterile.Gate.{
  SterileGate, sample_of, begin_update, commit_update, set_require_powered, new_gate,
}
use acars_printer.Sterile.Compute.{compute_unpowered}
use acars_printer.Sim.Power.{aircraft_is_powered}
use acars_printer.Sterile.Stale.{stale_reading}

abbrev form : Form
form = record {
  kind = some (codes "inforeq");
  from_field = some (codes "dlh1 ");
  packet = some (codes "vatatis  eddf");
}

abbrev filter_text : Option Text
filter_text = some (codes "DLH1")

given : is_empty (callsign_text filter_text) ≡ false
unfolding upper strip lstrip rstrip is_space
given = refl

messages_from_hoppie_exchange-About_example :
    All
      (About (callsign_text filter_text))
      (messages_from_hoppie_exchange form (codes "ok {acars info {EDDF ATIS A}}") filter_text).0
messages_from_hoppie_exchange-About_example =
    messages_from_hoppie_exchange-About form (codes "ok {acars info {EDDF ATIS A}}") filter_text
      given

accepted : is_accepted (codes " abc ") (codes "dlh1") ≡ true
unfolding upper strip lstrip rstrip is_space text_eq
accepted = refl

abbrev vault : WireSessionVault
vault = update (codes " abc ") (codes "dlh1") (codes "hoppie") 100 (new_vault 1200)

abbrev cold_gate : SterileGate ℕ
cold_gate = new_gate none true 2 1 3

requires : cold_gate.require_powered ≡ true
unfolding new_gate
requires = refl

cold_sample : compute_unpowered none true ≡ true
unfolding compute_unpowered aircraft_is_powered
cold_sample = refl

stale_reading_example :
    ((set_require_powered false cold_gate).0.blocking ≡ cold_gate.sterile)
    × ((commit_update
          (sample_of (begin_update cold_gate) none 7)
          (set_require_powered false cold_gate).0).0.require_powered
        ≡ false)
    × ((commit_update
          (sample_of (begin_update cold_gate) none 7)
          (set_require_powered false cold_gate).0).0.blocking
        ≡ true)
stale_reading_example = stale_reading cold_gate none 7 requires cold_sample
