-- ===== src/Sterile/Settle.antt =====
-- The settle window after power comes on, and a gate with no simulator.
use acars_printer.Prelude.{
  ℕ, ◌+◌, ◌≤◌, ◌<◌, ◌≡◌, true, false, none, some, List, [], ◌∷◌, ◌++◌, arith, All,
}
use acars_printer.Sim.Power.{aircraft_is_powered}
use acars_printer.Sterile.Compute.{compute_sterile, compute_unpowered}
use acars_printer.Sterile.Gate.{
  SterileGate, Sample, settle_step, sample_of, begin_update, commit_update, update_from_snapshot,
}
use acars_printer.Sterile.Sound.{IsSound}
use acars_printer.Sterile.Flush.{started, started-dispatch_from}

-- A sample of a powered aircraft, while power is required.
abbrev pub IsPowered : Sample → Type 0
IsPowered x = (x.require_powered ≡ true) × (x.unpowered ≡ false)

abbrev pub commits : {J : Type 0} → List Sample → SterileGate J → SterileGate J
commits [] g = g
commits (x ∷ xs) g = commits xs (commit_update x g).0

abbrev IsWaiting : {J : Type 0} → ℕ → SterileGate J → Type 0
IsWaiting deadline g =
    (g.unpowered ≡ false) × (g.power_ready_at ≡ some deadline) × (g.blocking ≡ true)

module _ {J : Type 0} where
  power_on :
      (x : Sample) (g : SterileGate J)
      → g.unpowered ≡ true
      → IsPowered x
      → 1 ≤ x.settle
      → IsWaiting (x.now + x.settle) (commit_update x g).0
  unfolding commit_update settle_step
  power_on x g u p s = (ground arith, ground arith, ground arith)

  keep-IsWaiting :
      (deadline : ℕ) (x : Sample) (g : SterileGate J)
      → IsWaiting deadline g
      → IsPowered x
      → x.now < deadline
      → IsWaiting deadline (commit_update x g).0
  unfolding commit_update settle_step
  keep-IsWaiting deadline x g w p s = (ground arith, ground arith, ground arith)

  commits-IsWaiting :
      (deadline : ℕ) (xs : List Sample) (g : SterileGate J)
      → IsWaiting deadline g
      → All (λ x. IsPowered x × (x.now < deadline)) xs
      → IsWaiting deadline (commits xs g)
  commits-IsWaiting deadline [] g w h = w
  commits-IsWaiting deadline (x ∷ xs) g w h =
      commits-IsWaiting deadline xs (commit_update x g).0
        (keep-IsWaiting deadline x g w h.0.0 h.0.1) h.1

  open_after :
      (deadline : ℕ) (y : Sample) (g : SterileGate J)
      → IsWaiting deadline g
      → IsPowered y
      → deadline ≤ y.now
      → (commit_update y g).0.blocking ≡ y.sterile
  unfolding commit_update settle_step
  open_after deadline y g w p s = ground arith

  -- From an unpowered gate, a powered sample with power required and some settle time opens a settle
  -- window. After such samples whose clock is before the deadline the gate still blocks, and one at
  -- or after the deadline then leaves it blocking just if that sample is sterile.
  pub settle_window :
      (g : SterileGate J) (x : Sample) (xs : List Sample) (y : Sample)
      → g.unpowered ≡ true
      → IsPowered x
      → 1 ≤ x.settle
      → All (λ z. IsPowered z × (z.now < x.now + x.settle)) xs
      → IsPowered y
      → x.now + x.settle ≤ y.now
      → ((commits (x ∷ xs) g).blocking ≡ true)
        × ((commit_update y (commits (x ∷ xs) g)).0.blocking ≡ y.sterile)
  settle_window g x xs y u p s h q late =
      let waiting =
        commits-IsWaiting (x.now + x.settle) xs (commit_update x g).0 (power_on x g u p s) h in
      (waiting.2, open_after (x.now + x.settle) y (commits (x ∷ xs) g) waiting q late)

  -- With power not required, an update with no simulator opens a sound gate, empties both queues and
  -- starts the waiting jobs, the ACARS ones first.
  pub no_sim_releases :
      (now : ℕ) (g : SterileGate J)
      → IsSound g
      → g.require_powered ≡ false
      → ((update_from_snapshot none now g).0.blocking ≡ false)
        × ((update_from_snapshot none now g).0.acars_queue ≡ [])
        × ((update_from_snapshot none now g).0.simbrief_queue ≡ [])
        × (started (update_from_snapshot none now g).1 ≡ g.acars_queue ++ g.simbrief_queue)
  unfolding update_from_snapshot commit_update settle_step sample_of begin_update compute_sterile
      compute_unpowered aircraft_is_powered
  no_sim_releases now g s r =
      let all = started-dispatch_from g.flush_stagger 0 (g.acars_queue ++ g.simbrief_queue) in
      (ground arith, ground arith, ground arith, ground (arith, all))
