-- ===== src/Sterile/Gate.antt =====
-- `SterileGate` of src/acars_bridge/services/sterile.py. A method returns the new gate and what it
-- did outside: the jobs that it ran or handed to the flush runner, and the calls of the listeners.
-- The clock counts in ticks. A job is a value of any type.
use acars_printer.Prelude.{
  ℕ, ◌+◌, ◌*◌, String, Bool, true, false, Option, none, some, List, [], ◌∷◌, ◌++◌, not, ◌&&◌, ◌||◌,
  length, max, leb, eqb, or_else, if◌then◌else◌,
}
use acars_printer.Sim.Snapshot.{SimSnapshot, is_true}
use acars_printer.Sim.Power.{aircraft_is_powered}
use acars_printer.Sterile.Compute.{
  SterileThresholds, default_thresholds, compute_sterile, compute_unpowered,
}

pub record SterileGate (J : Type 0) : Type 0 where
  pub thresholds : SterileThresholds
  pub require_powered : Bool
  pub max_queue : ℕ
  pub flush_stagger : ℕ
  pub power_on_settle : ℕ
  pub sterile : Bool
  pub unpowered : Bool
  pub settling : Bool
  pub power_ready_at : Option ℕ
  pub blocking : Bool
  pub battery_on : Option Bool
  pub acars_queue : List J
  pub simbrief_queue : List J
  pub dropped : ℕ

-- `run` is a call of the job in place, `dispatch` one handed to the flush runner with its delay.
pub data Event (J : Type 0) : Type 0 where
  run : J → Event J
  dispatch : J → ℕ → Event J
  notify : Bool → Event J

-- What `update_from_snapshot` reads under the lock before it computes.
pub record Reading : Type 0 where
  pub thresholds : SterileThresholds
  pub require_powered : Bool
  pub settle : ℕ

-- What it has computed when it takes the lock again.
pub record Sample : Type 0 where
  pub sterile : Bool
  pub unpowered : Bool
  pub battery_on : Option Bool
  pub now : ℕ
  pub require_powered : Bool
  pub settle : ℕ

pub record Settle : Type 0 where
  pub power_ready_at : Option ℕ
  pub settling : Bool

unfoldable pub sample_of : Reading → Option SimSnapshot → ℕ → Sample
sample_of r snapshot now = record {
  sterile = compute_sterile snapshot (some r.thresholds);
  unpowered = compute_unpowered snapshot r.require_powered;
  battery_on = aircraft_is_powered snapshot;
  now = now;
  require_powered = r.require_powered;
  settle = r.settle;
}

wait_until : ℕ → Option ℕ → Settle
wait_until now none = record { power_ready_at = none; settling = false }
wait_until now (some ready) =
    if leb ready now
    then record { power_ready_at = none; settling = false }
    else record { power_ready_at = some ready; settling = true }

-- The settle window, from the state before the sample.
unfoldable pub settle_step : Bool → Option ℕ → Sample → Settle
unfolding wait_until
settle_step was_unpowered ready_at x =
    if not x.require_powered || x.unpowered
    then record { power_ready_at = none; settling = false }
    else if was_unpowered && not x.unpowered
    then (if leb 1 x.settle
        then record { power_ready_at = some (x.now + x.settle); settling = true }
        else record { power_ready_at = none; settling = false })
    else wait_until x.now ready_at

or_blocked : List String → List String
or_blocked [] = "blocked" ∷ []
or_blocked parts = parts

module _ {J : Type 0} where
  unfoldable pub new_gate : Option SterileThresholds → Bool → ℕ → ℕ → ℕ → SterileGate J
  new_gate thresholds require_powered max_queue stagger settle = record {
    thresholds = or_else thresholds default_thresholds;
    require_powered = require_powered;
    max_queue = max 1 max_queue;
    flush_stagger = stagger;
    power_on_settle = settle;
    sterile = false;
    unpowered = require_powered;
    settling = false;
    power_ready_at = none;
    blocking = require_powered;
    battery_on = none;
    acars_queue = [];
    simbrief_queue = [];
    dropped = 0;
  }

  unfoldable pub set_thresholds : SterileThresholds → SterileGate J → SterileGate J
  set_thresholds t g = record g { thresholds = t }

  -- `for index, job in enumerate(combined)`, from `index` on.
  unfoldable pub dispatch_from : ℕ → ℕ → List J → List (Event J)
  dispatch_from stagger index [] = []
  dispatch_from stagger index (job ∷ jobs) =
      dispatch job (index * stagger) ∷ dispatch_from stagger (index + 1) jobs

  -- Both queues, emptied into the flush runner.
  flushed : SterileGate J → List (Event J)
  unfolding dispatch_from
  flushed g = dispatch_from g.flush_stagger 0 (g.acars_queue ++ g.simbrief_queue)

  emptied : SterileGate J → SterileGate J
  emptied g = record g { acars_queue = []; simbrief_queue = [] }

  unfoldable pub set_require_powered : Bool → SterileGate J → SterileGate J × List (Event J)
  unfolding flushed emptied
  set_require_powered enabled g =
      let g' = record g { require_powered = enabled } in
      if enabled && not (is_true g.battery_on)
      then (
        record g' { unpowered = true; settling = false; power_ready_at = none; blocking = true },
        [],
      )
      else if not enabled
      then (let h = record g' {
        unpowered = false;
        settling = false;
        power_ready_at = none;
        blocking = g.sterile;
      } in
          if g.blocking && not g.sterile then (emptied h, flushed h) else (h, []))
      else (g', [])

  unfoldable pub begin_update : SterileGate J → Reading
  begin_update g = record {
    thresholds = g.thresholds;
    require_powered = g.require_powered;
    settle = g.power_on_settle;
  }

  -- The second locked block, and what follows it.
  unfoldable pub commit_update : Sample → SterileGate J → SterileGate J × List (Event J)
  unfolding flushed emptied
  commit_update x g =
      let w = settle_step g.unpowered g.power_ready_at x in
      let blocking = x.sterile || x.unpowered || w.settling in
      let h = record g {
        sterile = x.sterile;
        unpowered = x.unpowered;
        battery_on = x.battery_on;
        power_ready_at = w.power_ready_at;
        settling = w.settling;
        blocking = blocking;
      } in
      let notified = if eqb x.sterile g.sterile then [] else notify x.sterile ∷ [] in
      if g.blocking && not blocking then (emptied h, notified ++ flushed h) else (h, notified)

  unfoldable pub update_from_snapshot :
      Option SimSnapshot → ℕ → SterileGate J → SterileGate J × List (Event J)
  update_from_snapshot snapshot now g = commit_update (sample_of (begin_update g) snapshot now) g

  -- The queue that `_enqueue` leaves.
  unfoldable pub enqueue : ℕ → List J → J → List J
  enqueue limit [] job = job ∷ []
  enqueue limit (oldest ∷ queue) job =
      if leb limit (length (oldest ∷ queue))
      then queue ++ job ∷ []
      else oldest ∷ (queue ++ job ∷ [])

  -- How many jobs `_enqueue` drops.
  unfoldable pub overflow : ℕ → List J → ℕ
  overflow limit queue = if leb limit (length queue) then 1 else 0

  unfoldable pub run_or_defer_acars : J → SterileGate J → Bool × SterileGate J × List (Event J)
  unfolding overflow
  run_or_defer_acars job g =
      if g.blocking
      then (
        true,
        record g {
          acars_queue = enqueue g.max_queue g.acars_queue job;
          dropped = g.dropped + overflow g.max_queue g.acars_queue;
        },
        [],
      )
      else (false, g, run job ∷ [])

  unfoldable pub run_or_defer_simbrief : J → SterileGate J → Bool × SterileGate J × List (Event J)
  unfolding overflow
  run_or_defer_simbrief job g =
      if g.blocking
      then (
        true,
        record g {
          simbrief_queue = enqueue g.max_queue g.simbrief_queue job;
          dropped = g.dropped + overflow g.max_queue g.simbrief_queue;
        },
        [],
      )
      else (false, g, run job ∷ [])

  -- `block_reason`: the parts that it joins with `+`.
  unfoldable pub block_reason : SterileGate J → List String
  unfolding or_blocked
  block_reason g =
      if not g.blocking
      then []
      else (let held =
            (if g.sterile then "sterile" ∷ [] else [])
            ++ (if g.unpowered
                then "unpowered" ∷ []
                else if g.settling
                then "settling" ∷ []
                else []) in
          or_blocked held)

  unfoldable pub queue_sizes : SterileGate J → ℕ × ℕ
  queue_sizes g = (length g.acars_queue, length g.simbrief_queue)
