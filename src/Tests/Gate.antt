-- ===== src/Tests/Gate.antt =====
-- The gate of src/acars_bridge/services/sterile.py at concrete events.
use acars_printer.Prelude.{
  List, ◌++◌, ℕ, ◌+◌, ◌≡◌, refl, Bool, true, false, none, some, [], ◌∷◌, length, arith,
}
use acars_printer.Sterile.Gate.{
  SterileGate, Sample, settle_step, new_gate, set_require_powered, commit_update,
  update_from_snapshot, run_or_defer_acars, run_or_defer_simbrief, enqueue,
}
use acars_printer.Sterile.Sound.{
  IsSound, here, next, acars, committed, new_gate-IsSound, Reach-IsSound,
}
use acars_printer.Sterile.Flush.{started, defer_conserves, release_conserves}
use acars_printer.Sterile.Queue.{defer_acars, defer_simbrief, deferred_then_flushed}
use acars_printer.Sterile.Settle.{commits, settle_window, no_sim_releases}

-- A gate at start, with queues of two jobs.
abbrev cold : SterileGate ℕ
cold = new_gate none true 2 1 3

abbrev sample : Bool → Bool → ℕ → ℕ → Sample
sample sterile unpowered now settle = record {
  sterile = sterile;
  unpowered = unpowered;
  battery_on = some true;
  now = now;
  require_powered = true;
  settle = settle;
}

Reach-IsSound_example :
    IsSound (commit_update (sample false false 9 0) (run_or_defer_acars 7 cold).1).0
Reach-IsSound_example =
    Reach-IsSound none true 2 1 3
      (next (next here (acars 7 refl)) (committed (sample false false 9 0) refl))

cold-IsSound : IsSound cold
cold-IsSound = new_gate-IsSound none true 2 1 3

cold_blocks : cold.blocking ≡ true
unfolding new_gate
cold_blocks = refl

cold_acars : cold.acars_queue ≡ []
unfolding new_gate
cold_acars = refl

cold_simbrief : cold.simbrief_queue ≡ []
unfolding new_gate
cold_simbrief = refl

abbrev offered : SterileGate ℕ
offered = defer_simbrief (4 ∷ []) (defer_acars (1 ∷ 2 ∷ 3 ∷ []) cold)

opens : (commit_update (sample false false 9 0) offered).0.blocking ≡ false
unfolding commit_update settle_step run_or_defer_acars run_or_defer_simbrief new_gate
opens = refl

deferred_then_flushed_example :
    started (commit_update (sample false false 9 0) offered).1 ≡ 2 ∷ 3 ∷ 4 ∷ []
unfolding new_gate
deferred_then_flushed_example =
    deferred_then_flushed cold (1 ∷ 2 ∷ 3 ∷ []) (4 ∷ []) (sample false false 9 0) cold-IsSound
      cold_blocks cold_acars cold_simbrief opens

cold_unpowered : cold.unpowered ≡ true
unfolding new_gate
cold_unpowered = refl

settle_window_example :
    ((commits (sample false false 10 5 ∷ sample true false 12 5 ∷ []) cold).blocking ≡ true)
    × ((commit_update
          (sample false false 15 5)
          (commits (sample false false 10 5 ∷ sample true false 12 5 ∷ []) cold)).0.blocking
        ≡ false)
settle_window_example =
    settle_window cold (sample false false 10 5) (sample true false 12 5 ∷ [])
      (sample false false 15 5) cold_unpowered (refl, refl) (omega arith)
      (((refl, refl), omega arith), tt) (refl, refl) (omega arith)

abbrev lenient : SterileGate ℕ
lenient = new_gate none false 2 1 3

-- Sterile, with one ACARS job that waits.
abbrev held : SterileGate ℕ
held = (run_or_defer_acars 7 (commit_update (sample true false 9 0) lenient).0).1

held-IsSound : IsSound held
held-IsSound =
    Reach-IsSound none false 2 1 3
      (next (next here (committed (sample true false 9 0) refl)) (acars 7 refl))

held_lenient : held.require_powered ≡ false
unfolding commit_update settle_step run_or_defer_acars new_gate
held_lenient = refl

held_waits : held.acars_queue ≡ 7 ∷ []
unfolding commit_update settle_step run_or_defer_acars new_gate enqueue
held_waits = refl

no_sim_releases_example :
    ((update_from_snapshot none 20 held).0.blocking ≡ false)
    × ((update_from_snapshot none 20 held).0.acars_queue ≡ [])
    × ((update_from_snapshot none 20 held).0.simbrief_queue ≡ [])
    × (started (update_from_snapshot none 20 held).1 ≡ 7 ∷ [])
unfolding commit_update settle_step run_or_defer_acars new_gate enqueue
no_sim_releases_example = no_sim_releases 20 held held-IsSound held_lenient

defer_conserves_example :
    let (blocked, after, events) = run_or_defer_acars 9 held in
    let (blocked', after', events') = run_or_defer_simbrief 9 held in
    (gone : List ℕ) × (gone' : List ℕ) × (gone ++ (after.acars_queue ++ started events)
      ≡ held.acars_queue ++ 9 ∷ [])
    × (after.simbrief_queue ≡ held.simbrief_queue)
    × (after.dropped ≡ held.dropped + length gone)
    × (gone' ++ (after'.simbrief_queue ++ started events') ≡ held.simbrief_queue ++ 9 ∷ [])
    × (after'.acars_queue ≡ held.acars_queue)
    × (after'.dropped ≡ held.dropped + length gone')
defer_conserves_example = defer_conserves 9 held-IsSound

release_conserves_example :
    (started (commit_update (sample false false 9 0) held).1
        ++ ((commit_update (sample false false 9 0) held).0.acars_queue
            ++ (commit_update (sample false false 9 0) held).0.simbrief_queue)
      ≡ held.acars_queue ++ held.simbrief_queue)
    × ((commit_update (sample false false 9 0) held).0.dropped ≡ held.dropped)
    × (started (set_require_powered false held).1
          ++ ((set_require_powered false held).0.acars_queue
              ++ (set_require_powered false held).0.simbrief_queue)
        ≡ held.acars_queue ++ held.simbrief_queue)
    × ((set_require_powered false held).0.dropped ≡ held.dropped)
release_conserves_example = release_conserves (sample false false 9 0) false held
