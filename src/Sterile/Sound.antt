-- ===== src/Sterile/Sound.antt =====
-- The invariant of the gate (src/acars_bridge/services/sterile.py), kept by every method however the
-- threads interleave: an update commits what it computed from any earlier reading.
use acars_printer.Prelude.{
  ℕ, ◌≤◌, ◌≡◌, ◌⊎◌, inr, refl, Bool, true, false, Option, List, [], ◌∷◌, ◌||◌, ◌&&◌, arith, length,
  length-append, is_some,
}
use acars_printer.Sterile.Compute.{SterileThresholds}
use acars_printer.Sterile.Gate.{
  SterileGate, Sample, settle_step, new_gate, set_thresholds, set_require_powered, commit_update,
  enqueue, run_or_defer_acars, run_or_defer_simbrief,
}

-- A held queue has waiting jobs only while the gate blocks, and never more than its limit.
abbrev pub Holds : {J : Type 0} → Bool → ℕ → List J → Type 0
Holds blocking limit queue = ((blocking ≡ true) ⊎ (queue ≡ [])) × (length queue ≤ limit)

pub record IsSound {J : Type 0} (g : SterileGate J) : Type 0 where
  pub blocks : g.blocking ≡ (g.sterile || g.unpowered || g.settling)
  pub settles : g.settling ≡ is_some g.power_ready_at
  pub apart : (g.settling && g.unpowered) ≡ false
  pub room : 1 ≤ g.max_queue
  pub acars : Holds g.blocking g.max_queue g.acars_queue
  pub simbrief : Holds g.blocking g.max_queue g.simbrief_queue

settle_step_lem :
    (u : Bool) (r : Option ℕ) (x : Sample)
    → ((settle_step u r x).settling ≡ is_some (settle_step u r x).power_ready_at)
      × (((settle_step u r x).settling && x.unpowered) ≡ false)
unfolding settle_step
settle_step_lem u r x = ground arith

module _ {J : Type 0} where
  enqueue-fits :
      (limit : ℕ) (queue : List J) (job : J)
      → 1 ≤ limit
      → length queue ≤ limit
      → length (enqueue limit queue job) ≤ limit
  unfolding enqueue
  enqueue-fits limit [] job r f = omega arith
  enqueue-fits limit (x ∷ queue) job r f = ground (arith, length-append queue (job ∷ []))

  pub new_gate-IsSound :
      (t : Option SterileThresholds) (b : Bool) (limit stagger settle : ℕ)
      → IsSound (new_gate {J = J} t b limit stagger settle)
  unfolding new_gate
  new_gate-IsSound t b limit stagger settle = record {
    blocks = ground arith;
    settles = refl;
    apart = refl;
    room = omega arith;
    acars = (inr refl, omega arith);
    simbrief = (inr refl, omega arith);
  }

  pub set_require_powered-IsSound :
      (b : Bool) {g : SterileGate J} → IsSound g → IsSound (set_require_powered b g).0
  unfolding set_require_powered
  set_require_powered-IsSound b {g} s = ground arith

  pub commit_update-IsSound :
      (x : Sample) {g : SterileGate J} → IsSound g → IsSound (commit_update x g).0
  unfolding commit_update
  commit_update-IsSound x {g} s = ground (arith, settle_step_lem g.unpowered g.power_ready_at x)

  pub run_or_defer_acars-IsSound :
      (job : J) {g : SterileGate J} → IsSound g → IsSound (run_or_defer_acars job g).1
  unfolding run_or_defer_acars
  run_or_defer_acars-IsSound job {g} s = ground (arith, enqueue-fits g.max_queue g.acars_queue job)

  pub run_or_defer_simbrief-IsSound :
      (job : J) {g : SterileGate J} → IsSound g → IsSound (run_or_defer_simbrief job g).1
  unfolding run_or_defer_simbrief
  run_or_defer_simbrief-IsSound job {g} s =
      ground (arith, enqueue-fits g.max_queue g.simbrief_queue job)

-- One locked block of a method, in whichever thread it runs.
pub data Step {J : Type 0} (g h : SterileGate J) : Type 0 where
  thresholds_set : (t : SterileThresholds) → h ≡ set_thresholds t g → Step g h
  power_set : (b : Bool) → h ≡ (set_require_powered b g).0 → Step g h
  committed : (x : Sample) → h ≡ (commit_update x g).0 → Step g h
  acars : (job : J) → h ≡ (run_or_defer_acars job g).1 → Step g h
  simbrief : (job : J) → h ≡ (run_or_defer_simbrief job g).1 → Step g h

pub data Reach {J : Type 0} (g : SterileGate J) : SterileGate J → Type 0 where
  here : Reach g g
  next : {h k : SterileGate J} → Reach g h → Step h k → Reach g k

module _ {J : Type 0} where
  set_thresholds-IsSound :
      (t : SterileThresholds) {g : SterileGate J} → IsSound g → IsSound (set_thresholds t g)
  unfolding set_thresholds
  set_thresholds-IsSound t s = record {
    blocks = s.blocks;
    settles = s.settles;
    apart = s.apart;
    room = s.room;
    acars = s.acars;
    simbrief = s.simbrief;
  }

  Step-IsSound : {g h : SterileGate J} → Step g h → IsSound g → IsSound h
  Step-IsSound (thresholds_set t e) s = rw e (set_thresholds-IsSound t s)
  Step-IsSound (power_set b e) s = rw e (set_require_powered-IsSound b s)
  Step-IsSound (committed x e) s = rw e (commit_update-IsSound x s)
  Step-IsSound (acars job e) s = rw e (run_or_defer_acars-IsSound job s)
  Step-IsSound (simbrief job e) s = rw e (run_or_defer_simbrief-IsSound job s)

  pub Reach-IsSound_from : {g h : SterileGate J} → IsSound g → Reach g h → IsSound h
  Reach-IsSound_from s here = s
  Reach-IsSound_from s (next r st) = Step-IsSound st (Reach-IsSound_from s r)

  -- A new gate, after any methods in any interleaving, blocks exactly when it is sterile, unpowered
  -- or settling; settles exactly while a deadline is set, never while unpowered; holds a job only
  -- while it blocks; and keeps each queue within its limit, which is at least one.
  pub Reach-IsSound :
      (t : Option SterileThresholds) (b : Bool) (limit stagger settle : ℕ) {h : SterileGate J}
      → Reach (new_gate t b limit stagger settle) h
      → IsSound h
  Reach-IsSound t b limit stagger settle =
      Reach-IsSound_from (new_gate-IsSound t b limit stagger settle)
