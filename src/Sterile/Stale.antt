-- ===== src/Sterile/Stale.antt =====
-- An update that read the setting before it was switched off.
use acars_printer.Prelude.{ℕ, ◌≡◌, true, false, Option, arith}
use acars_printer.Sim.Snapshot.{SimSnapshot}
use acars_printer.Sterile.Compute.{compute_unpowered}
use acars_printer.Sterile.Gate.{
  SterileGate, sample_of, begin_update, commit_update, set_require_powered,
}

module _ {J : Type 0} where
  -- While an update of a gate that requires power computes from a cold aircraft, another thread
  -- switches the requirement off: the gate then blocks just if it is sterile, but the update, which
  -- commits what it computed from its old reading, leaves it blocking with power not required.
  pub stale_reading :
      (g : SterileGate J) (snapshot : Option SimSnapshot) (now : ℕ)
      → g.require_powered ≡ true
      → compute_unpowered snapshot true ≡ true
      → ((set_require_powered false g).0.blocking ≡ g.sterile)
        × ((commit_update
              (sample_of (begin_update g) snapshot now)
              (set_require_powered false g).0).0.require_powered
            ≡ false)
        × ((commit_update
              (sample_of (begin_update g) snapshot now)
              (set_require_powered false g).0).0.blocking
            ≡ true)
  unfolding set_require_powered commit_update sample_of begin_update
  stale_reading g snapshot now r cold = (ground arith, ground arith, rw (r, cold) (ground arith))
