-- ===== src/Services/Ingestion/Cooldown.antt =====
-- The cooldown of the replies that say an ATIS is not available.
use acars_printer.Prelude.{
  ℕ, ◌-◌, ◌≡◌, refl, sym, ◌∙◌, inl, inr, false, List, [], ◌∷◌, ltb, or_else, Bool-cases, arith,
}
use acars_printer.Text.{Text, codes, upper, text_eq_iff}
use acars_printer.Hoppie.Types.{HoppieMessage}
use acars_printer.Hoppie.AtisText.{vatatis_airport_key}
use acars_printer.Services.Ingestion.{Seen, prune_unavailable, seen_before, suppress_unavailable}

-- The key of a reply: the callsign and the airport, with one name for all that name no airport.
abbrev pub airport_of : HoppieMessage → Text
airport_of m = or_else (vatatis_airport_key m.normalized_body) (codes "_bare")

module _ (callsign airport : Text) where
  seen_before-prune_unavailable :
      (now : ℕ) (recent : List Seen)
      → seen_before callsign airport recent ≡ false
      → seen_before callsign airport (prune_unavailable now recent) ≡ false
  unfolding seen_before prune_unavailable
  seen_before-prune_unavailable now [] h = refl
  seen_before-prune_unavailable now (seen ∷ recent) h =
      ground (arith, seen_before-prune_unavailable now recent)

  seen_before-cons :
      (now later : ℕ) (recent : List Seen)
      → seen_before callsign airport recent ≡ false
      → seen_before callsign airport (
          prune_unavailable later
            (record { callsign = callsign; airport = airport; at = now } ∷ recent))
        ≡ ltb (later - now) 120
  unfolding seen_before prune_unavailable
  seen_before-cons now later recent h =
      let gone = seen_before-prune_unavailable later recent h in
      let c = (text_eq_iff callsign callsign).1 refl in
      let a = (text_eq_iff airport airport).1 refl in
      elim (Bool-cases (ltb (later - now) 120)) [
        | inl young ↦ rw young (rw (c, a) refl)
        | inr old ↦ rw old gone
      ]

suppress_unavailable_seen :
    (m : HoppieMessage) (now : ℕ) (recent : List Seen)
    → (suppress_unavailable m now recent).0
      ≡ seen_before (upper m.callsign) (airport_of m) (prune_unavailable now recent)
unfolding suppress_unavailable
suppress_unavailable_seen m now recent = ground arith

suppress_unavailable_new :
    (m : HoppieMessage) (now : ℕ) (recent : List Seen)
    → seen_before (upper m.callsign) (airport_of m) (prune_unavailable now recent) ≡ false
    → (suppress_unavailable m now recent).1
      ≡ record { callsign = upper m.callsign; airport = airport_of m; at = now }
        ∷ prune_unavailable now recent
unfolding suppress_unavailable
suppress_unavailable_new m now recent h = rw h refl

-- After a reply that was let through, the next one with the same callsign, in any case, and the same
-- airport is held back just if it comes less than 120 seconds later.
pub suppress_unavailable_again :
    (m n : HoppieMessage) (now later : ℕ) (recent : List Seen)
    → upper n.callsign ≡ upper m.callsign
    → airport_of n ≡ airport_of m
    → (suppress_unavailable m now recent).0 ≡ false
    → (suppress_unavailable n later (suppress_unavailable m now recent).1).0 ≡ ltb (later - now) 120
suppress_unavailable_again m n now later recent same_callsign same_airport through =
    let fresh = sym (suppress_unavailable_seen m now recent) ∙ through in
    let after = suppress_unavailable_new m now recent fresh in
    suppress_unavailable_seen n later (suppress_unavailable m now recent).1
    ∙ rw (same_callsign, same_airport, after)
        (seen_before-cons (upper m.callsign) (airport_of m) now later (prune_unavailable now recent)
          fresh)
