-- ===== src/Weather/AutoWx/Once.antt =====
-- How often the weather prints for a plan.
use acars_printer.Prelude.{
  Option, none, some, ℕ, ◌+◌, ◌≤◌, ◌≡◌, refl, sym, ap, ◌∙◌, Bool, true, false, List, [], ◌∷◌, ◌&&◌,
  ltb, if◌then◌else◌, arith, inl, inr, Bool-cases,
}
use acars_printer.Text.{Text, text_eq, text_eq_iff, text_eq_sym, one_of, strip}
use acars_printer.Sim.Snapshot.{SimSnapshot}
use acars_printer.Models.Settings.Store.{SettingsStore}
use acars_printer.Simbrief.Plan.{FlightPlan}
use acars_printer.Weather.Strips.{Skies, AutoWx}
use acars_printer.Weather.AutoWx.{consider}
use acars_printer.Weather.AutoWx.Marks.{
  Marks, quiet, printed, raised, consider-Marks, consider_again,
}

-- One call of `consider`.
pub record Sight (C : Type 0) : Type 0 where
  pub skies : Skies C
  pub settings : SettingsStore
  pub blocking : Bool
  pub snap : SimSnapshot
  pub plan : FlightPlan

-- How often a plan may print still, from the plans that are done.
left_among : Text → List Text → ℕ
left_among id done = if one_of done id then 0 else 1

-- A call that returned that it printed.
abbrev pub has_printed : Option ℕ → Bool
has_printed none = false
has_printed (some n) = ltb 0 n

count_none : (b : Bool) → ◌≡◌ {A = ℕ} (if b && false then 1 else 0) 0
count_none true = refl
count_none false = refl

count_below : (b c : Bool) → (if b && c then 1 else 0) ≤ (if b then 1 else 0)
count_below b c = ground arith

left_among-cons :
    (id other : Text) (done : List Text)
    → one_of done other ≡ false
    → (if text_eq other id then 1 else 0) + left_among id (other ∷ done) ≤ left_among id done
unfolding left_among
left_among-cons id other done fresh = elim (Bool-cases (text_eq other id)) [
  | inl same ↦
      let own = sym (text_eq_sym other id) ∙ same in
      let new = ap (λ t. one_of done t) (sym ((text_eq_iff other id).0 same)) ∙ fresh in
      rw (same, own, new) (omega arith)
  | inr apart ↦ let own = sym (text_eq_sym other id) ∙ apart in rw (apart, own) (omega arith)
]

module _ {C : Type 0} where
  unfoldable pub see : Sight C → AutoWx C → Option ℕ × AutoWx C
  see m a = consider m.skies m.settings m.blocking m.snap m.plan a

  -- How often a run printed for a plan, by its identifier without the space around it.
  unfoldable pub prints_of : Text → List (Sight C) → AutoWx C → ℕ
  prints_of id [] a = 0
  prints_of id (m ∷ ms) a =
      (if text_eq (strip m.plan.ofp_id) id && has_printed (see m a).0 then 1 else 0)
      + prints_of id ms (see m a).1

  -- How often it may print still.
  unfoldable pub left_of : Text → AutoWx C → ℕ
  unfolding left_among
  left_of id a = left_among id a.printed_ofp_ids

  step_below :
      (id : Text) (snap : SimSnapshot) (blocking : Bool) (plan : FlightPlan) (a : AutoWx C)
      (r : Option ℕ × AutoWx C) (rest : ℕ)
      → one_of a.printed_ofp_ids (strip plan.ofp_id) ≡ false
      → Marks snap blocking plan a r
      → rest ≤ left_of id r.1
      → (if text_eq (strip plan.ofp_id) id && has_printed r.0 then 1 else 0) + rest ≤ left_of id a
  unfolding left_of
  step_below id snap blocking plan a r rest fresh (quiet ids) h =
      let same = ap (λ done. left_among id done) ids in
      let nothing = count_none (text_eq (strip plan.ofp_id) id) in omega arith
  step_below id snap blocking plan a r rest fresh (raised ids) h =
      let same = ap (λ done. left_among id done) ids in
      let nothing = count_none (text_eq (strip plan.ofp_id) id) in omega arith
  step_below id snap blocking plan a r rest fresh (printed air gate ids) h =
      let now_left = ap (λ done. left_among id done) ids in
      let before = left_among-cons id (strip plan.ofp_id) a.printed_ofp_ids fresh in
      let counted = count_below (text_eq (strip plan.ofp_id) id) (has_printed r.0) in omega arith

  -- In any run of the service, whatever the settings, the gate, the snapshots, the plans and the answers
  -- of other servers are, and whether `print_ticket` raises or not, at most one call returns that it printed
  -- for a plan's identifier, and none does for one that was done before.
  pub prints_once :
      (id : Text) (sights : List (Sight C)) (a : AutoWx C) → prints_of id sights a ≤ left_of id a
  unfolding prints_of see
  prints_once id [] a = omega arith
  prints_once id (m ∷ ms) a = elim (Bool-cases (one_of a.printed_ofp_ids (strip m.plan.ofp_id))) [
    | inl done ↦
        let nothing = count_none (text_eq (strip m.plan.ofp_id) id) in
        let rest = prints_once id ms a in
        rw (consider_again m.skies m.settings m.blocking m.snap m.plan a done) (omega arith)
    | inr fresh ↦
        step_below id m.snap m.blocking m.plan a _ _ fresh
          (consider-Marks m.skies m.settings m.blocking m.snap m.plan a)
          (prints_once id ms (see m a).1)
  ]
