-- ===== src/Services/PrintManager/Once.antt =====
-- The pairing code is on one strip at most until it is asked for again.
use acars_printer.Prelude.{
  sym, subst, ◌||◌, ◌+◌, Option, some, ℕ, ◌≡◌, refl, ap, ◌∙◌, Bool, true, false, none, List, [],
  ◌∷◌, not, ◌&&◌, is_some, or_else, any, arith, suc, take, length, ◌⊎◌, inl, inr, if◌then◌else◌,
}
use acars_printer.Text.{Text, codes, text_eq, lower, strip, is_empty}
use acars_printer.Printing.Format.{PrinterSettings}
use acars_printer.Models.Messages.{StoredMessage, Database}
use acars_printer.Services.PrintManager.{
  Pairing, Strip, Paper, World, Printing, Outcome, printed, recorded, answered, emit,
  ticket_emitted, print_ticket, print_tickets, push_outcome, paired, should_emit_pairing_qr,
  take_pairing_url, with_pairing,
}

-- The strips on paper with a pairing code.
abbrev pub coded : List Paper → ℕ
coded [] = 0
coded (s ∷ ss) = (if is_some s.settings.pairing_url then 1 else 0) + coded ss

abbrev pub is_plan : (Text × Text) × (Text × Text) → Bool
is_plan ((ticket_type, body), stamps) = text_eq (lower (strip ticket_type)) (codes "flight_plan")

-- A code is due.
abbrev pub ready : Pairing → Bool
ready p = not p.emitted && not (is_empty (strip (or_else p.url [])))

is_empty-strip_nil : is_empty (strip []) ≡ true
unfolding strip
is_empty-strip_nil = refl

-- A strip has the code just if one is due and it is a flight plan's, and then no code is due any more.
record IsPaired (due : Bool) (p : Pairing) (s : Strip) : Type 0 where
  marked : is_some s.settings.pairing_url ≡ due
  later : ready s.pairing ≡ (ready p && not due)

with_pairing-IsPaired :
    (settings : PrinterSettings) (ticket_type body : Text) (p : Pairing)
    → settings.pairing_url ≡ none
    → IsPaired
        (ready p && text_eq (lower (strip ticket_type)) (codes "flight_plan"))
        p
        (with_pairing body settings ticket_type p)
unfolding with_pairing should_emit_pairing_qr take_pairing_url paired
with_pairing-IsPaired settings ticket_type body p plain = record {
  marked = ground (arith, is_empty-strip_nil);
  later = ground (arith, is_empty-strip_nil);
}

-- Of the tickets, so many were printed, and the code is on one strip of theirs if it was due and a
-- flight plan is among them.
pub record IsCodedOnce (ts : List ((Text × Text) × (Text × Text))) (w : World)
    (r : Option (List Outcome) × World) : Type 0 where
  pub count : ℕ
  pub sheets : length r.1.paper ≡ length w.paper + count
  pub codes_counted :
      coded r.1.paper
      ≡ coded w.paper + (if ready w.pairing && any is_plan (take count ts) then 1 else 0)
  pub all_or_raised : (r.0 ≡ none) ⊎ (count ≡ length ts)

count_step :
    (due later some_plan plan : Bool) (a b c : ℕ)
    → later ≡ (due && not (due && plan))
    → c ≡ a + (if later && some_plan then 1 else 0)
    → a ≡ (if due && plan then 1 else 0) + b
    → c ≡ b + (if due && (plan || some_plan) then 1 else 0)
count_step due later some_plan plan a b c l e f = ground arith

module _ (p : Printing)
    (takes : (m : StoredMessage) (text : Text) (s : PrinterSettings)
      → p.print m text s ≡ none) where
  -- A ticket that was printed puts its strip on the paper.
  record IsOnPaper (strip : Strip) (w after : World) : Type 0 where
    counted :
        coded after.paper ≡ (if is_some strip.settings.pairing_url then 1 else 0) + coded w.paper
    one_sheet : length after.paper ≡ suc (length w.paper)
    pairing : after.pairing ≡ strip.pairing

  recorded-paper :
      (o : Option Database) (w : World)
      → ((recorded printed o w).1.paper ≡ w.paper) × ((recorded printed o w).1.pairing ≡ w.pairing)
  unfolding recorded
  recorded-paper none w = (refl, refl)
  recorded-paper (some db) w = (refl, refl)

  answered-IsOnPaper :
      (m : StoredMessage) (strip : Strip) (now : Text) (w : World) (db : Database)
      (answer : Option Text)
      → answer ≡ none
      → IsOnPaper strip w
          (answered p m strip.body strip.settings false now
            (record w { database = db; pairing = strip.pairing })
            answer).1
  unfolding answered
  answered-IsOnPaper m strip now w db none n =
      let (paper, kept) = recorded-paper _ _ in
      record { counted = ap coded paper; one_sheet = ap length paper; pairing = kept }
  answered-IsOnPaper m strip now w db (some error) n = cc

  -- A ticket raises before it is printed, or is on the paper.
  Emitted : Strip → World → Option Outcome × World → Type 0
  Emitted strip w r = ((r.0 ≡ none) × (r.1 ≡ w)) ⊎ IsOnPaper strip w r.1

  ticket_emitted-Emitted :
      (body ticket_type now : Text) (settings : PrinterSettings) (w : World)
      (o : Option (StoredMessage × Database))
      → Emitted
          (with_pairing body settings ticket_type w.pairing)
          w
          (ticket_emitted p body settings ticket_type false now w o)
  unfolding Emitted ticket_emitted emit
  ticket_emitted-Emitted body ticket_type now settings w none = inl (refl, refl)
  ticket_emitted-Emitted body ticket_type now settings w (some (m, db)) =
      let strip = with_pairing body settings ticket_type w.pairing in
      inr (
        answered-IsOnPaper m strip now w db (p.print m strip.body strip.settings)
          (takes m strip.body strip.settings))

  push_outcome-IsCodedOnce :
      (outcome : Outcome) (ts : List ((Text × Text) × (Text × Text))) (w : World)
      (r : Option (List Outcome) × World)
      → IsCodedOnce ts w r
      → IsCodedOnce ts w (push_outcome p outcome r)
  unfolding push_outcome
  push_outcome-IsCodedOnce outcome ts w (none, after) c = c
  push_outcome-IsCodedOnce outcome ts w (some outcomes, after) c = record {
    count = c.count;
    sheets = c.sheets;
    codes_counted = c.codes_counted;
    all_or_raised = elim c.all_or_raised [ inl e ↦ absurd cc | inr e ↦ inr e ];
  }

  -- The first ticket, and then the others.
  more-IsCodedOnce :
      (settings : PrinterSettings) (ticket_type body : Text) (stamps : Text × Text)
      (ts : List ((Text × Text) × (Text × Text))) (w after : World)
      (r : Option (List Outcome) × World)
      → settings.pairing_url ≡ none
      → IsOnPaper (with_pairing body settings ticket_type w.pairing) w after
      → IsCodedOnce ts after r
      → IsCodedOnce (((ticket_type, body), stamps) ∷ ts) w r
  more-IsCodedOnce settings ticket_type body stamps ts w after r plain on_paper c =
      let one = with_pairing-IsPaired settings ticket_type body w.pairing plain in
      record {
        count = suc c.count;
        sheets = omega (arith, c.sheets, on_paper.one_sheet);
        codes_counted =
            count_step (ready w.pairing) (ready after.pairing) (any is_plan (take c.count ts))
              (text_eq (lower (strip ticket_type)) (codes "flight_plan")) (coded after.paper)
              (coded w.paper) (coded r.1.paper) (ap ready on_paper.pairing ∙ one.later)
              c.codes_counted
              (on_paper.counted ∙ ap (λ b. (if b then 1 else 0) + coded w.paper) one.marked);
        all_or_raised = elim c.all_or_raised [ inl e ↦ inl e | inr e ↦ inr (ap suc e) ];
      }

  raised-IsCodedOnce :
      (ts : List ((Text × Text) × (Text × Text))) (w : World) → IsCodedOnce ts w (none, w)
  raised-IsCodedOnce ts w = record {
    count = 0;
    sheets = omega arith;
    codes_counted = ground arith;
    all_or_raised = inl refl;
  }

  ticket-IsCodedOnce :
      (settings : PrinterSettings) (ticket_type body : Text) (stamps : Text × Text)
      (ts : List ((Text × Text) × (Text × Text))) (w : World) (x : Option Outcome) (after : World)
      (k : Outcome → Option (List Outcome) × World)
      → settings.pairing_url ≡ none
      → Emitted (with_pairing body settings ticket_type w.pairing) w (x, after)
      → ((o : Outcome) → IsCodedOnce ts after (k o))
      → IsCodedOnce
          (((ticket_type, body), stamps) ∷ ts)
          w
          (elim x as (λ y. Option (List Outcome) × World) [
            | none ↦ (none, after)
            | some outcome ↦ k outcome
          ])
  unfolding Emitted
  ticket-IsCodedOnce settings ticket_type body stamps ts w none after k plain (inl (e, same))
        later =
      subst (λ v. IsCodedOnce (((ticket_type, body), stamps) ∷ ts) w (none, v)) (sym same)
        (raised-IsCodedOnce _ w)
  ticket-IsCodedOnce settings ticket_type body stamps ts w none after k plain (inr on_paper) later =
      more-IsCodedOnce settings ticket_type body stamps ts w after (none, after) plain on_paper
        (raised-IsCodedOnce ts after)
  ticket-IsCodedOnce settings ticket_type body stamps ts w (some o) after k plain (inl (e, same))
        later =
      cc
  ticket-IsCodedOnce settings ticket_type body stamps ts w (some o) after k plain (inr on_paper)
        later =
      more-IsCodedOnce settings ticket_type body stamps ts w after (k o) plain on_paper (later o)

  -- With a printer that takes every strip, and settings that have no code, `print_tickets` prints all of
  -- the tickets, or raises and has printed the first ones of them. On their strips, the pairing code is
  -- exactly once if a code was due and one of them is a flight plan, and on none otherwise.
  pub coded-print_tickets :
      (settings : PrinterSettings)
      → settings.pairing_url ≡ none
      → (callsign sender : Text) (ts : List ((Text × Text) × (Text × Text))) (w : World)
      → IsCodedOnce ts w (print_tickets p settings callsign sender ts w)
  unfolding print_tickets print_ticket
  coded-print_tickets settings plain callsign sender [] w = record {
    count = 0;
    sheets = omega arith;
    codes_counted = ground arith;
    all_or_raised = inr refl;
  }
  coded-print_tickets settings plain callsign sender (((ticket_type, body), (stamp, now)) ∷ ts) w =
      let one = print_ticket p body settings callsign ticket_type sender false stamp now w in
      let rest = print_tickets p settings callsign sender ts one.1 in
      ticket-IsCodedOnce settings ticket_type body (stamp, now) ts w one.0 one.1
        (λ o. push_outcome p o rest) plain
        (ticket_emitted-Emitted body ticket_type now settings w _)
        (λ o.
          push_outcome-IsCodedOnce o ts one.1 rest
            (coded-print_tickets settings plain callsign sender ts one.1))
