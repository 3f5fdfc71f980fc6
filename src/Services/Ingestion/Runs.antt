-- ===== src/Services/Ingestion/Runs.antt =====
-- What a print does to the service, whether at once or through the gate, and how it is counted.
use acars_printer.Prelude.{
  ℕ, ◌+◌, ◌≤◌, ◌≡◌, refl, Bool, true, false, Option, none, some, List, arith,
}
use acars_printer.Text.{Text}
use acars_printer.Models.Messages.Ids.{has_id}
use acars_printer.Sterile.Gate.{SterileGate, Event, run_or_defer_acars}
use acars_printer.Services.PrintManager.{Printing, Outcome, printed, failed, deferred}
use acars_printer.Services.PrintManager.Jobs.{print_message-IsRecorded}
use acars_printer.Services.Ingestion.{
  Stats, Job, Service, Plan, count_new, run_job, gated, at_gate, counted,
}

-- The messages that were new, and all of them.
abbrev pub fresh : Stats → ℕ
fresh s = s.stored + s.printed_count + s.failed_prints

abbrev pub total : Stats → ℕ
total s = fresh s + s.duplicates

pub record Ran (s : Service) (r : Option Outcome × Service) : Type 0 where
  pub outcome : Outcome
  pub returned : r.0 ≡ some outcome
  pub messages : r.1.world.database.messages ≡ s.world.database.messages

module _ (p : Printing) (plan : Plan) where
  run_job-Ran :
      (job : Job) (stamp : Text) (s : Service)
      → has_id job.message.id s.world.database.messages ≡ true
      → Ran s (run_job p plan job stamp s)
  unfolding run_job
  run_job-Ran job stamp s known =
      let r =
        print_message-IsRecorded p job.message plan.settings job.is_reprint stamp s.world known in
      record { outcome = _; returned = r.outcome; messages = r.messages }

  gated-Ran :
      (job : Job) (stamp : Text) (s : Service) (x : Bool × SterileGate Job × List (Event Job))
      → has_id job.message.id s.world.database.messages ≡ true
      → Ran s (gated p plan job stamp s x)
  unfolding gated
  gated-Ran job stamp s (true, g, events) known = record {
    outcome = deferred;
    returned = refl;
    messages = refl;
  }
  gated-Ran job stamp s (false, g, events) known = run_job-Ran job stamp s known

  pub at_gate-Ran :
      (job : Job) (stamp : Text) (s : Service) (g : Option (SterileGate Job))
      → has_id job.message.id s.world.database.messages ≡ true
      → Ran s (at_gate p plan job stamp s g)
  unfolding at_gate
  at_gate-Ran job stamp s none known = run_job-Ran job stamp s known
  at_gate-Ran job stamp s (some g) known = gated-Ran job stamp s (run_or_defer_acars job g) known

  pub counted-some :
      (t : Stats) (o : Outcome) (r : Option Outcome × Service)
      → r.0 ≡ some o
      → counted p plan count_new t r ≡ some (count_new o t, r.1)
  unfolding counted
  counted-some t o (none, s) e = cc
  counted-some t o (some x, s) e = let same : x ≡ o = cc in rw same

  pub count_new_lem :
      (o : Outcome) (t : Stats)
      → (total (count_new o t) ≡ total t + 1)
        × (fresh (count_new o t) ≡ fresh t + 1)
        × ((count_new o t).deferred_count + t.stored ≤ t.deferred_count + (count_new o t).stored)
  unfolding count_new
  count_new_lem printed t = (omega arith, omega arith, omega arith)
  count_new_lem failed t = (omega arith, omega arith, omega arith)
  count_new_lem deferred t = (omega arith, omega arith, omega arith)
