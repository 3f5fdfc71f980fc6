-- ===== src/Sterile/Queue.antt =====
-- The queues of `SterileGate` against their specification: the newest jobs that were deferred, in
-- the order in which they came, started ACARS first once the gate opens.
use acars_printer.Prelude.{
  ℕ, suc, ◌+◌, ◌-◌, ◌≤◌, ◌≡◌, refl, sym, ap, ◌∙◌, inl, inr, true, false, List, [], ◌∷◌, ◌++◌,
  Bool-cases, leb, leb→le, arith, length, length-append, length-drop, drop, drop-drop,
  drop-append_le, append_assoc, append-nil,
}
use acars_printer.Sterile.Gate.{
  SterileGate, Sample, commit_update, enqueue, run_or_defer_acars, run_or_defer_simbrief,
}
use acars_printer.Sterile.Sound.{IsSound}
use acars_printer.Sterile.Flush.{started, started-dispatch_from}

-- The last `limit` of the jobs.
abbrev pub newest : {J : Type 0} → ℕ → List J → List J
newest limit jobs = drop (length jobs - limit) jobs

abbrev pub defer_acars : {J : Type 0} → List J → SterileGate J → SterileGate J
defer_acars [] g = g
defer_acars (job ∷ jobs) g = defer_acars jobs (run_or_defer_acars job g).1

abbrev pub defer_simbrief : {J : Type 0} → List J → SterileGate J → SterileGate J
defer_simbrief [] g = g
defer_simbrief (job ∷ jobs) g = defer_simbrief jobs (run_or_defer_simbrief job g).1

module _ {J : Type 0} where
  newest-newest_append :
      (limit : ℕ) (a b : List J) → newest limit (newest limit a ++ b) ≡ newest limit (a ++ b)
  newest-newest_append limit a b =
      let k = length a - limit in
      let short : k ≤ length a = omega arith in
      let lengths : length (drop k a ++ b) - limit ≡ length b - (limit - (length a - k)) =
        omega (arith, length-append (drop k a) b, length-drop k a) in
      let total : k + (length (drop k a ++ b) - limit) ≡ length (a ++ b) - limit =
        omega (arith, length-append (drop k a) b, length-append a b, length-drop k a) in
      ap (drop (length (drop k a ++ b) - limit)) (sym (drop-append_le k a b short))
      ∙ drop-drop (length (drop k a ++ b) - limit) k (a ++ b)
      ∙ ap (λ n. drop n (a ++ b)) total

  enqueue-newest :
      (limit : ℕ) (queue : List J) (job : J)
      → 1 ≤ limit
      → length queue ≤ limit
      → enqueue limit queue job ≡ newest limit (queue ++ job ∷ [])
  unfolding enqueue
  enqueue-newest limit [] job r f =
      let e : 1 - limit ≡ 0 = omega arith in ap (λ n. drop n (job ∷ [])) (sym e)
  enqueue-newest limit (x ∷ queue) job r f = elim (Bool-cases (leb limit (suc (length queue)))) [
    | inl full ↦
        let e : length (x ∷ queue ++ job ∷ []) - limit ≡ 1 =
          omega (arith, length-append queue (job ∷ []), leb→le limit (suc (length queue)) full) in
        rw full (sym (ap (λ n. drop n (x ∷ queue ++ job ∷ [])) e))
    | inr open_place ↦
        let e : length (x ∷ queue ++ job ∷ []) - limit ≡ 0 =
          ground (arith, length-append queue (job ∷ [])) in
        rw open_place (sym (ap (λ n. drop n (x ∷ queue ++ job ∷ [])) e))
  ]

  newest-fits : (limit : ℕ) (jobs : List J) → length (newest limit jobs) ≤ limit
  newest-fits limit jobs = omega (arith, length-drop (length jobs - limit) jobs)

  newest_all : (limit : ℕ) (jobs : List J) → length jobs ≤ limit → newest limit jobs ≡ jobs
  newest_all limit jobs f = let e : length jobs - limit ≡ 0 = omega arith in ap (λ n. drop n jobs) e

  newest_step :
      (limit : ℕ) (queue : List J) (job : J) (jobs : List J)
      → 1 ≤ limit
      → length queue ≤ limit
      → newest limit (enqueue limit queue job ++ jobs) ≡ newest limit (queue ++ job ∷ jobs)
  newest_step limit queue job jobs r f =
      ap (λ q. newest limit (q ++ jobs)) (enqueue-newest limit queue job r f)
      ∙ newest-newest_append limit (queue ++ job ∷ []) jobs
      ∙ ap (newest limit) (append_assoc queue (job ∷ []) jobs)

  -- What deferring leaves alone, and the queue that it fills.
  record HoldsNewest (limit : ℕ) (a b : List J) (g : SterileGate J) : Type 0 where
    blocks : g.blocking ≡ true
    limits : g.max_queue ≡ limit
    acars : g.acars_queue ≡ a
    simbrief : g.simbrief_queue ≡ b

  first_acars :
      (limit : ℕ) (job : J) (a b : List J) (g : SterileGate J)
      → HoldsNewest limit a b g
      → HoldsNewest limit (enqueue limit a job) b (run_or_defer_acars job g).1
  unfolding run_or_defer_acars
  first_acars limit job a b g h = ground arith

  first_simbrief :
      (limit : ℕ) (job : J) (a b : List J) (g : SterileGate J)
      → HoldsNewest limit a b g
      → HoldsNewest limit a (enqueue limit b job) (run_or_defer_simbrief job g).1
  unfolding run_or_defer_simbrief
  first_simbrief limit job a b g h = ground arith

  defer_acars-HoldsNewest :
      (limit : ℕ) (jobs a b : List J) (g : SterileGate J)
      → 1 ≤ limit
      → length a ≤ limit
      → HoldsNewest limit a b g
      → HoldsNewest limit (newest limit (a ++ jobs)) b (defer_acars jobs g)
  defer_acars-HoldsNewest limit [] a b g r f h = rw (append-nil) (rw (newest_all limit a f) h)
  defer_acars-HoldsNewest limit (job ∷ jobs) a b g r f h =
      let h' : HoldsNewest limit (enqueue limit a job) b (run_or_defer_acars job g).1 =
        first_acars limit job a b g h in
      rw (← newest_step limit a job jobs r f) (
        defer_acars-HoldsNewest limit jobs (enqueue limit a job) b (run_or_defer_acars job g).1 r
          (rw (enqueue-newest limit a job r f) (newest-fits limit (a ++ job ∷ []))) h')

  defer_simbrief-HoldsNewest :
      (limit : ℕ) (jobs a b : List J) (g : SterileGate J)
      → 1 ≤ limit
      → length b ≤ limit
      → HoldsNewest limit a b g
      → HoldsNewest limit a (newest limit (b ++ jobs)) (defer_simbrief jobs g)
  defer_simbrief-HoldsNewest limit [] a b g r f h = rw (append-nil) (rw (newest_all limit b f) h)
  defer_simbrief-HoldsNewest limit (job ∷ jobs) a b g r f h =
      let h' : HoldsNewest limit a (enqueue limit b job) (run_or_defer_simbrief job g).1 =
        first_simbrief limit job a b g h in
      rw (← newest_step limit b job jobs r f) (
        defer_simbrief-HoldsNewest limit jobs a (enqueue limit b job)
          (run_or_defer_simbrief job g).1 r
          (rw (enqueue-newest limit b job r f) (newest-fits limit (b ++ job ∷ []))) h')

  flush_order :
      (x : Sample) {limit : ℕ} {a b : List J} (g : SterileGate J)
      → HoldsNewest limit a b g
      → (commit_update x g).0.blocking ≡ false
      → started (commit_update x g).1 ≡ a ++ b
  unfolding commit_update
  flush_order x g h c =
      ground (arith, started-dispatch_from g.flush_stagger 0 (g.acars_queue ++ g.simbrief_queue))

  -- A sound gate that blocks with empty queues is offered ACARS jobs and then SimBrief jobs; an
  -- update that opens it then starts the newest ACARS jobs, as many as a queue holds,
  -- and after them the newest SimBrief jobs, each kind in the order in which it came.
  pub deferred_then_flushed :
      (g : SterileGate J) (a b : List J) (x : Sample)
      → IsSound g
      → g.blocking ≡ true
      → g.acars_queue ≡ []
      → g.simbrief_queue ≡ []
      → (commit_update x (defer_simbrief b (defer_acars a g))).0.blocking ≡ false
      → started (commit_update x (defer_simbrief b (defer_acars a g))).1
        ≡ newest g.max_queue a ++ newest g.max_queue b
  deferred_then_flushed g a b x s block no_acars no_simbrief clear =
      let start : HoldsNewest g.max_queue [] [] g = record {
        blocks = block;
        limits = refl;
        acars = no_acars;
        simbrief = no_simbrief;
      } in
      flush_order x (defer_simbrief b (defer_acars a g))
        (defer_simbrief-HoldsNewest g.max_queue b _ [] (defer_acars a g) s.room (omega arith)
          (defer_acars-HoldsNewest g.max_queue a [] [] g s.room (omega arith) start))
        clear
