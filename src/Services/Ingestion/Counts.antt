-- ===== src/Services/Ingestion/Counts.antt =====
-- The statistics of an ingested batch against the batch and the table of messages.
use acars_printer.Prelude.{
  ℕ, ◌+◌, ◌≤◌, ◌≡◌, refl, ap, ◌∙◌, inl, inr, Bool, true, false, Option, none, some, List, [], ◌∷◌,
  length, Bool-cases, arith, All,
}
use acars_printer.Text.{Text}
use acars_printer.Hoppie.Types.{HoppieMessage}
use acars_printer.Models.Messages.{StoredMessage, fits_row, taken, inbound_row, push_row}
use acars_printer.Models.Messages.Ids.{has_id}
use acars_printer.Models.Messages.Lookup.{
  inserted-free, inserted-taken, insert_inbound-fits, taken-push_row,
}
use acars_printer.Services.Fingerprint.{fingerprint_basis}
use acars_printer.Services.PrintManager.{Printing}
use acars_printer.Services.Ingestion.{
  Stats, no_stats, Job, Service, Plan, wants_print, count_new, at_gate, print_after_delay, handled,
  after_insert, ingest_one, ingest_from, ingest,
}
use acars_printer.Services.Ingestion.Runs.{fresh, total, at_gate-Ran, counted-some, count_new_lem}

abbrev pub rows : Service → ℕ
rows s = length s.world.database.messages

-- What is stored stays, and the fingerprints of a batch are stored.
pub record Knows (fps : List Text) (s s' : Service) : Type 0 where
  pub still :
      (f : Text)
      → taken f s.world.database.messages ≡ true
      → taken f s'.world.database.messages ≡ true
  pub stored : All (λ f. taken f s'.world.database.messages ≡ true) fps

Knows-same :
    (fps : List Text) (before s s' : Service)
    → s'.world.database.messages ≡ s.world.database.messages
    → Knows fps before s
    → Knows fps before s'
Knows-same fps before s s' same k = record {
  still = λ f h. rw same (k.still f h);
  stored = rw same k.stored;
}

taken-cons :
    (f : Text) (row : StoredMessage) (ms : List StoredMessage)
    → taken f ms ≡ true
    → taken f (row ∷ ms) ≡ true
unfolding taken
taken-cons f row ms h = ground arith

-- The numbers of each message fit into an INTEGER.
abbrev pub AllFit : List (HoppieMessage × (ℕ × Text)) → Type 0
AllFit = All (λ (timed : HoppieMessage × (ℕ × Text)). fits_row timed.0 ≡ true)

abbrev pub fingerprint : Printing → HoppieMessage → Text
fingerprint p m = p.sha256 (fingerprint_basis m)

abbrev pub fingerprints : Printing → List (HoppieMessage × (ℕ × Text)) → List Text
fingerprints p [] = []
fingerprints p ((m, clock) ∷ ms) = fingerprint p m ∷ fingerprints p ms

-- From one state of the loop to a later one: how many messages it took, and that each new row was
-- counted as stored, printed or failed.
pub record Counts (n : ℕ) (t : Stats) (s : Service) (t' : Stats) (s' : Service) : Type 0 where
  pub all_counted : total t' ≡ total t + n
  pub rows_counted : rows s' + fresh t ≡ rows s + fresh t'
  pub held_stored : t'.deferred_count + t.stored ≤ t.deferred_count + t'.stored

module _ (p : Printing) (plan : Plan) where
  -- One message is taken from one state to a later one.
  pub record Takes (t : Stats) (s : Service) (r : Option (Stats × Service)) (n : ℕ)
      (fps : List Text) : Type 0 where
    pub stats : Stats
    pub service : Service
    pub returned : r ≡ some (stats, service)
    pub counts : Counts n t s stats service
    pub known : Knows fps s service

  handled_duplicate-Takes :
      (m : HoppieMessage) (fp stamp : Text) (wants : Bool) (t : Stats) (before s : Service)
      → plan.force_print ≡ false
      → rows s ≡ rows before
      → Knows (fp ∷ []) before s
      → Takes t before (handled p plan m fp stamp wants t s none) 1 (fp ∷ [])
  unfolding handled
  handled_duplicate-Takes m fp stamp wants t before s calm same known = record {
    stats = record t { duplicates = t.duplicates + 1 };
    service = s;
    returned = ground arith;
    counts = record {
      all_counted = omega arith;
      rows_counted = omega (arith, same);
      held_stored = omega arith;
    };
    known = known;
  }

  -- `before` is the service before the row of the message was inserted.
  handled_new-Takes :
      (m : HoppieMessage) (fp stamp : Text) (wants : Bool) (t : Stats) (before s : Service)
      (row : StoredMessage)
      → has_id row.id s.world.database.messages ≡ true
      → rows s ≡ rows before + 1
      → Knows (fp ∷ []) before s
      → Takes t before (handled p plan m fp stamp wants t s (some row)) 1 (fp ∷ [])
  unfolding handled print_after_delay
  handled_new-Takes m fp stamp true t before s row known one kept =
      let job : Job = record { message = row; is_reprint = false } in
      let ran = at_gate-Ran p plan job stamp s s.gate known in
      let (all, new, held) = count_new_lem p plan ran.outcome t in
      let same = ap length ran.messages in
      record {
        stats = count_new ran.outcome t;
        service = (at_gate p plan job stamp s s.gate).1;
        returned =
            counted-some p plan t ran.outcome (at_gate p plan job stamp s s.gate) ran.returned;
        counts = record {
          all_counted = all;
          rows_counted = omega (arith, same, one, new);
          held_stored = held;
        };
        known =
            Knows-same (fp ∷ []) before s (at_gate p plan job stamp s s.gate).1 ran.messages kept;
      }
  handled_new-Takes m fp stamp false t before s row known one kept = record {
    stats = record t { stored = t.stored + 1 };
    service = s;
    returned = refl;
    counts = record {
      all_counted = omega arith;
      rows_counted = omega arith;
      held_stored = omega arith;
    };
    known = kept;
  }

  pub ingest_one-Takes :
      (m : HoppieMessage) (now : ℕ) (stamp : Text) (t : Stats) (s : Service)
      → plan.force_print ≡ false
      → fits_row m ≡ true
      → Takes t s (ingest_one p plan m now stamp t s) 1 (fingerprint p m ∷ [])
  unfolding ingest_one after_insert
  ingest_one-Takes m now stamp t s calm fits =
      let fp = p.sha256 (fingerprint_basis m) in
      let db = s.world.database in
      let row = inbound_row m fp stamp db.next_message in
      let wants = (wants_print plan m now s.recent).0 in
      let recent = (wants_print plan m now s.recent).1 in
      elim (Bool-cases (taken fp db.messages)) [
        | inl old ↦
            rw (insert_inbound-fits m fp stamp db fits, inserted-taken m fp stamp db old)
              (handled_duplicate-Takes m fp stamp wants t s (record s { recent = recent }) calm refl
                (record { still = λ f h. h; stored = (old, tt) }))
        | inr new ↦
            let after : Service = record s {
              world = record s.world { database = push_row row db };
              recent = recent;
            } in
            let known : has_id row.id after.world.database.messages ≡ true = ground arith in
            rw (insert_inbound-fits m fp stamp db fits, inserted-free m fp stamp db new)
              (handled_new-Takes m fp stamp wants t s after row known (omega arith) (record {
                still = λ f h. taken-cons f row db.messages h;
                stored = (taken-push_row row fp db.messages (unfold inbound_row in refl), tt);
              }))
      ]

  pub step_Takes :
      (m : HoppieMessage) (now : ℕ) (stamp : Text) (ms : List (HoppieMessage × (ℕ × Text)))
      (t t' : Stats) (s s' : Service)
      → ingest_one p plan m now stamp t s ≡ some (t', s')
      → ingest_from p plan ((m, (now, stamp)) ∷ ms) t s ≡ ingest_from p plan ms t' s'
  unfolding ingest_from
  step_Takes m now stamp ms t t' s s' e = rw (ingest_from, e)

  pub ingest_from-Takes :
      (ms : List (HoppieMessage × (ℕ × Text))) (t : Stats) (s : Service)
      → plan.force_print ≡ false
      → AllFit ms
      → Takes t s (ingest_from p plan ms t s) (length ms) (fingerprints p ms)
  ingest_from-Takes [] t s calm fits = record {
    stats = t;
    service = s;
    returned = unfold ingest_from in refl;
    counts = record { all_counted = omega arith; rows_counted = refl; held_stored = omega arith };
    known = record { still = λ f h. h; stored = tt };
  }
  ingest_from-Takes ((m, (now, stamp)) ∷ ms) t s calm fits =
      let one = ingest_one-Takes m now stamp t s calm fits.0 in
      let rest = ingest_from-Takes ms one.stats one.service calm fits.1 in
      let a = one.counts in
      let b = rest.counts in
      record {
        stats = rest.stats;
        service = rest.service;
        returned = step_Takes m now stamp ms t one.stats s one.service one.returned ∙ rest.returned;
        counts = record {
          all_counted = omega (arith, a.all_counted, b.all_counted);
          rows_counted = omega (arith, a.rows_counted, b.rows_counted);
          held_stored = omega (arith, a.held_stored, b.held_stored);
        };
        known = record {
          still = λ f h. rest.known.still f (one.known.still f h);
          stored = (rest.known.still (fingerprint p m) one.known.stored.0, rest.known.stored);
        };
      }

  -- With no forced print, the ingest of a batch whose numbers fit into an INTEGER always returns. Each
  -- message of the batch is then counted once, as stored, printed, failed or duplicate; the table of messages has grown by those
  -- that are not duplicates; and each print that waits is among the stored.
  pub ingest_counts :
      (ms : List (HoppieMessage × (ℕ × Text))) (s : Service)
      → plan.force_print ≡ false
      → AllFit ms
      → (t : Stats) × (s' : Service) × (ingest p plan ms s ≡ some (t, s'))
        × (fresh t + t.duplicates ≡ length ms)
        × (rows s' ≡ rows s + fresh t)
        × (t.deferred_count ≤ t.stored)
  unfolding ingest
  ingest_counts ms s calm fits =
      let r = ingest_from-Takes ms no_stats s calm fits in
      let c = r.counts in
      (
        r.stats,
        r.service,
        r.returned,
        omega (arith, c.all_counted),
        omega (arith, c.rows_counted),
        omega (arith, c.held_stored),
      )
