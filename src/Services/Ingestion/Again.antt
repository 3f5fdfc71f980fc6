-- ===== src/Services/Ingestion/Again.antt =====
-- A batch that comes a second time.
use acars_printer.Prelude.{
  ℕ, suc, ◌+◌, ◌≡◌, refl, ap, ◌∙◌, Bool, true, false, Option, none, some, List, [], ◌∷◌, length,
  arith, All,
}
use acars_printer.Text.{Text}
use acars_printer.Hoppie.Types.{HoppieMessage}
use acars_printer.Models.Messages.{taken, fits_row}
use acars_printer.Models.Messages.Lookup.{inserted-taken, insert_inbound-fits}
use acars_printer.Services.PrintManager.{Printing}
use acars_printer.Services.Ingestion.{
  Stats, no_stats, Service, Plan, wants_print, handled, after_insert, ingest_one, ingest_from,
  ingest,
}
use acars_printer.Services.Ingestion.Counts.{
  AllFit, fingerprint, fingerprints, step_Takes, ingest_from-Takes,
}

-- The messages of a batch, each at another time.
abbrev pub at_times :
    (HoppieMessage → ℕ × Text)
    → List (HoppieMessage × (ℕ × Text))
    → List (HoppieMessage × (ℕ × Text))
at_times clock [] = []
at_times clock ((m, time) ∷ ms) = (m, clock m) ∷ at_times clock ms

-- The loop over messages that are known: they are counted as duplicates, and only the cooldowns of
-- the service may change.
record Skips (n : ℕ) (t : Stats) (s : Service) (r : Option (Stats × Service)) : Type 0 where
  service : Service
  returned : r ≡ some (record t { duplicates = t.duplicates + n }, service)
  world : service.world ≡ s.world
  gate : service.gate ≡ s.gate

module _ (p : Printing) (plan : Plan) where
  handled_duplicate :
      (m : HoppieMessage) (fp stamp : Text) (wants : Bool) (t : Stats) (s : Service)
      → plan.force_print ≡ false
      → handled p plan m fp stamp wants t s none
        ≡ some (record t { duplicates = t.duplicates + 1 }, s)
  unfolding handled
  handled_duplicate m fp stamp wants t s calm = ground arith

  ingest_one-Skips :
      (m : HoppieMessage) (now : ℕ) (stamp : Text) (t : Stats) (s : Service)
      → plan.force_print ≡ false
      → fits_row m ≡ true
      → taken (fingerprint p m) s.world.database.messages ≡ true
      → Skips 1 t s (ingest_one p plan m now stamp t s)
  unfolding ingest_one after_insert
  ingest_one-Skips m now stamp t s calm fits old =
      let after : Service = record s { recent = (wants_print plan m now s.recent).1 } in
      rw
        (
          insert_inbound-fits m (fingerprint p m) stamp s.world.database fits,
          inserted-taken m (fingerprint p m) stamp s.world.database old,
        )
        (record {
          service = after;
          returned =
              handled_duplicate m (fingerprint p m) stamp (wants_print plan m now s.recent).0 t
                after calm;
          world = refl;
          gate = refl;
        })

  ingest_from-Skips :
      (clock : HoppieMessage → ℕ × Text) (ms : List (HoppieMessage × (ℕ × Text))) (t : Stats)
      (s : Service)
      → plan.force_print ≡ false
      → AllFit ms
      → All (λ f. taken f s.world.database.messages ≡ true) (fingerprints p ms)
      → Skips (length ms) t s (ingest_from p plan (at_times clock ms) t s)
  ingest_from-Skips clock [] t s calm fits h = record {
    service = s;
    returned =
        let none_more : t.duplicates ≡ t.duplicates + 0 = omega arith in
        unfold ingest_from in ap (λ d. some (record t { duplicates = d }, s)) none_more;
    world = refl;
    gate = refl;
  }
  ingest_from-Skips clock ((m, time) ∷ ms) t s calm fits h =
      let one = ingest_one-Skips m (clock m).0 (clock m).1 t s calm fits.0 h.0 in
      let counted_one : Stats = record t { duplicates = t.duplicates + 1 } in
      let rest =
        ingest_from-Skips clock ms counted_one one.service calm fits.1 (rw one.world h.1) in
      let more : t.duplicates + 1 + length ms ≡ t.duplicates + suc (length ms) = omega arith in
      record {
        service = rest.service;
        returned =
            step_Takes p plan m (clock m).0 (clock m).1 (at_times clock ms) t counted_one s
              one.service one.returned
            ∙ rest.returned
            ∙ ap (λ d. some (record t { duplicates = d }, rest.service)) more;
        world = rest.world ∙ one.world;
        gate = rest.gate ∙ one.gate;
      }

  -- With no forced print, a batch whose numbers fit into an INTEGER, that is ingested and comes again, at
  -- any times, returns and is counted as duplicates only; the second ingest stores, prints, records and defers nothing.
  pub ingest_again :
      (clock : HoppieMessage → ℕ × Text) (ms : List (HoppieMessage × (ℕ × Text))) (s : Service)
      → plan.force_print ≡ false
      → AllFit ms
      → (t : Stats) × (s' : Service) × (s'' : Service) × (ingest p plan ms s ≡ some (t, s'))
        × (ingest p plan (at_times clock ms) s'
            ≡ some (record no_stats { duplicates = length ms }, s''))
        × (s''.world ≡ s'.world)
        × (s''.gate ≡ s'.gate)
  unfolding ingest
  ingest_again clock ms s calm fits =
      let first = ingest_from-Takes p plan ms no_stats s calm fits in
      let second = ingest_from-Skips clock ms no_stats first.service calm fits first.known.stored in
      let all : 0 + length ms ≡ length ms = omega arith in
      (
        first.stats,
        first.service,
        second.service,
        first.returned,
        second.returned ∙ ap (λ d. some (record no_stats { duplicates = d }, second.service)) all,
        second.world,
        second.gate,
      )
