-- ===== src/Sterile/Flush.antt =====
-- What becomes of a deferred job: none is lost but those counted in `dropped`, a queue keeps the
-- newest jobs in their order, and a flush starts them ACARS first.
use acars_printer.Prelude.{
  true, false, leb, append-nil, Bool-cases, inl, inr, if◌then◌else◌, ℕ, ◌+◌, ◌≤◌, ◌≡◌, refl, ap,
  ◌∙◌, Bool, List, [], ◌∷◌, ◌++◌, arith, length,
}
use acars_printer.Sterile.Gate.{
  SterileGate, Event, run, dispatch, notify, Sample, dispatch_from, set_require_powered,
  commit_update, enqueue, overflow, run_or_defer_acars, run_or_defer_simbrief,
}
use acars_printer.Sterile.Sound.{IsSound}

-- The jobs that were started, in order.
abbrev pub started : {J : Type 0} → List (Event J) → List J
started [] = []
started (run job ∷ es) = job ∷ started es
started (dispatch job delay ∷ es) = job ∷ started es
started (notify s ∷ es) = started es

module _ {J : Type 0} where
  pub started-append : (es fs : List (Event J)) → started (es ++ fs) ≡ started es ++ started fs
  started-append [] fs = refl
  started-append (run job ∷ es) fs = ap (◌∷◌ job) (started-append es fs)
  started-append (dispatch job d ∷ es) fs = ap (◌∷◌ job) (started-append es fs)
  started-append (notify s ∷ es) fs = started-append es fs

  pub started-dispatch_from :
      (stagger i : ℕ) (jobs : List J) → started (dispatch_from stagger i jobs) ≡ jobs
  unfolding dispatch_from
  started-dispatch_from stagger i [] = refl
  started-dispatch_from stagger i (j ∷ jobs) =
      ap (◌∷◌ j) (started-dispatch_from stagger (i + 1) jobs)

  -- The job that a full queue loses: the oldest one.
  unfoldable pub lost : ℕ → List J → List J
  lost limit [] = []
  lost limit (x ∷ queue) = if leb limit (length (x ∷ queue)) then x ∷ [] else []

  one_lost :
      (b : Bool) (x : J) (rest : List J)
      → ((if b then x ∷ [] else []) ++ (if b then rest else x ∷ rest) ≡ x ∷ rest)
        × (length (if b then x ∷ [] else []) ≡ (if b then 1 else 0))
  one_lost true x rest = (refl, refl)
  one_lost false x rest = (refl, refl)

  lost-enqueue :
      (limit : ℕ) (queue : List J) (job : J)
      → 1 ≤ limit
      → (lost limit queue ++ enqueue limit queue job ≡ queue ++ job ∷ [])
        × (length (lost limit queue) ≡ overflow limit queue)
  unfolding enqueue overflow lost
  lost-enqueue limit [] job r = (refl, ground arith)
  lost-enqueue limit (x ∷ queue) job r =
      one_lost (leb limit (length (x ∷ queue))) x (queue ++ job ∷ [])

  -- A print that is offered to a sound gate with a queue: the jobs that the queue lost, the ones that wait
  -- in it then, and the one that was started are those that waited and the new one, in their order; as many
  -- are counted as dropped as were lost, and the other queue is as it was.
  pub defer_conserves :
      (job : J) {g : SterileGate J}
      → IsSound g
      → let (blocked, after, events) = run_or_defer_acars job g in
        let (blocked', after', events') = run_or_defer_simbrief job g in
        (gone : List J) × (gone' : List J) × (gone ++ (after.acars_queue ++ started events)
          ≡ g.acars_queue ++ job ∷ [])
        × (after.simbrief_queue ≡ g.simbrief_queue)
        × (after.dropped ≡ g.dropped + length gone)
        × (gone' ++ (after'.simbrief_queue ++ started events') ≡ g.simbrief_queue ++ job ∷ [])
        × (after'.acars_queue ≡ g.acars_queue)
        × (after'.dropped ≡ g.dropped + length gone')
  unfolding run_or_defer_acars run_or_defer_simbrief
  defer_conserves job {g} s =
      let roomy = s.room in
      let (acars, acars_count) = lost-enqueue g.max_queue g.acars_queue job roomy in
      let (brief, brief_count) = lost-enqueue g.max_queue g.simbrief_queue job roomy in
      elim (Bool-cases g.blocking) [
        | inl held ↦ rw held (
          lost g.max_queue g.acars_queue,
          lost g.max_queue g.simbrief_queue,
          ap (λ q. lost g.max_queue g.acars_queue ++ q) (append-nil _) ∙ acars,
          refl,
          omega (arith, acars_count),
          ap (λ q. lost g.max_queue g.simbrief_queue ++ q) (append-nil _) ∙ brief,
          refl,
          omega (arith, brief_count),
        )
        | inr open_gate ↦ rw open_gate ([], [], refl, refl, omega arith, refl, refl, omega arith)
      ]

  -- An update or a change of the setting starts every job that it takes out of a queue, once and in order:
  -- the jobs that it started and those that wait then are the ones that waited, the ACARS ones first, and
  -- none is dropped.
  pub release_conserves :
      (x : Sample) (b : Bool) (g : SterileGate J)
      → (started (commit_update x g).1
            ++ ((commit_update x g).0.acars_queue ++ (commit_update x g).0.simbrief_queue)
          ≡ g.acars_queue ++ g.simbrief_queue)
        × ((commit_update x g).0.dropped ≡ g.dropped)
        × (started (set_require_powered b g).1
              ++ ((set_require_powered b g).0.acars_queue
                  ++ (set_require_powered b g).0.simbrief_queue)
            ≡ g.acars_queue ++ g.simbrief_queue)
        × ((set_require_powered b g).0.dropped ≡ g.dropped)
  unfolding commit_update set_require_powered
  release_conserves x b g =
      let all = started-dispatch_from g.flush_stagger 0 (g.acars_queue ++ g.simbrief_queue) in
      let none_left = append-nil (g.acars_queue ++ g.simbrief_queue) in
      (ground (arith, all, none_left), ground arith, ground (arith, all, none_left), ground arith)
