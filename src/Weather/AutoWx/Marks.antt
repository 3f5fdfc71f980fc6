-- ===== src/Weather/AutoWx/Marks.antt =====
-- What one call of `consider` does to the plans that are done.
use acars_printer.Prelude.{
  Bool-cases, inl, inr, zero, ◌++◌, ℕ, suc, ◌*◌, ◌≡◌, refl, ap, ◌∙◌, Bool, true, false, Option,
  none, some, List, [], ◌∷◌, not, ◌&&◌, if◌then◌else◌, arith,
}
use acars_printer.Text.{Text, one_of, strip}
use acars_printer.Hoppie.Types.{Result, ok, raise}
use acars_printer.Hoppie.Requests.{normalize_icao}
use acars_printer.Sim.Snapshot.{SimSnapshot}
use acars_printer.Models.Settings.Store.{SettingsStore}
use acars_printer.Models.Settings.Printer.{as_printer_settings}
use acars_printer.Models.Settings.Numbers.{wx_auto_nm}
use acars_printer.Models.Settings.Kinds.{wx_auto_kinds}
use acars_printer.Simbrief.Plan.{FlightPlan}
use acars_printer.Weather.Strips.{
  one_more, printer_settings_for, printed_dest, wx_strip, wx_callsign, Skies, AutoWx, print_bodies,
  fetch_bodies,
}
use acars_printer.Weather.AutoWx.{
  consider, is_ready, routed, arrived, remembered, airport_coords, cached, known, lookup,
  should_trigger_dest_wx,
}

triggered_in_air :
    (distance origin threshold : ℕ) (on_ground blocking : Bool)
    → (should_trigger_dest_wx distance origin threshold on_ground && not blocking) ≡ true
    → (on_ground ≡ false) × (blocking ≡ false)
unfolding should_trigger_dest_wx
triggered_in_air distance origin threshold on_ground blocking h = (ground arith, ground arith)

module _ {C : Type 0} where
  -- What a call does to the plans that are done: nothing when it prints nothing or raises, and else it adds
  -- its own, in the air and with the gate open.
  pub data Marks (snap : SimSnapshot) (blocking : Bool) (plan : FlightPlan) (a : AutoWx C)
      : Option ℕ × AutoWx C → Type 0 where
    quiet :
        {b : AutoWx C}
        → b.printed_ofp_ids ≡ a.printed_ofp_ids
        → Marks snap blocking plan a (some 0, b)
    raised :
        {b : AutoWx C}
        → b.printed_ofp_ids ≡ a.printed_ofp_ids
        → Marks snap blocking plan a (none, b)
    printed :
        {n : ℕ} {b : AutoWx C}
        → snap.on_ground ≡ false
        → blocking ≡ false
        → b.printed_ofp_ids ≡ strip plan.ofp_id ∷ a.printed_ofp_ids
        → Marks snap blocking plan a (some (suc n), b)

  one_more-ids : (r : Option ℕ × AutoWx C) → (one_more r).1 ≡ r.1
  unfolding one_more
  one_more-ids (none, a) = refl
  one_more-ids (some n, a) = refl

  print_bodies-ids :
      (x : Skies C) (s : SettingsStore) (plan : FlightPlan) (bodies : List (Text × Text))
      (a : AutoWx C)
      → (print_bodies x s plan bodies a).1.printed_ofp_ids ≡ a.printed_ofp_ids
  unfolding print_bodies
  print_bodies-ids x s plan [] a = refl
  print_bodies-ids x s plan (body ∷ bodies) a =
      let settings = printer_settings_for (as_printer_settings none x.bitmap_columns s) plan in
      let dest = printed_dest plan.dest_icao (normalize_icao plan.dest_icao) in
      let strip = wx_strip x settings (wx_callsign plan) dest body in
      let handed = record a { strips = a.strips ++ strip ∷ [] } in
      elim (Bool-cases (x.print_raises strip)) [
        | inl fails ↦ rw fails refl
        | inr prints ↦ rw prints (
            ap (λ (b : AutoWx C). b.printed_ofp_ids)
              (one_more-ids (print_bodies x s plan bodies handed))
            ∙ print_bodies-ids x s plan bodies handed)
      ]

  -- Two services with the same plans done.
  record SameDone (a b : AutoWx C) : Type 0 where
    ids : b.printed_ofp_ids ≡ a.printed_ofp_ids

  cached-SameDone :
      (icao : Text) (coords : Option C) (a : AutoWx C) → SameDone a (cached icao coords a).1
  unfolding cached
  cached-SameDone icao none a = record { ids = refl }
  cached-SameDone icao (some coords) a = record { ids = refl }

  known-SameDone :
      (x : Skies C) (icao : Text) (a : AutoWx C) (coords : Option C)
      → SameDone a (known x icao a coords).1
  unfolding known
  known-SameDone x icao a none = cached-SameDone icao (x.airport_coords icao) a
  known-SameDone x icao a (some coords) = record { ids = refl }

  airport_coords-SameDone :
      (x : Skies C) (icao : Text) (a : AutoWx C) → SameDone a (airport_coords x icao a).1
  unfolding airport_coords
  airport_coords-SameDone x icao a = known-SameDone x icao a (lookup icao a.coord_cache)

  SameDone-Marks :
      (snap : SimSnapshot) (blocking : Bool) (plan : FlightPlan) (a b : AutoWx C)
      (r : Option ℕ × AutoWx C)
      → SameDone a b
      → Marks snap blocking plan b r
      → Marks snap blocking plan a r
  SameDone-Marks snap blocking plan a b r h (quiet ids) = quiet (ids ∙ h.ids)
  SameDone-Marks snap blocking plan a b r h (raised ids) = raised (ids ∙ h.ids)
  SameDone-Marks snap blocking plan a b r h (printed air gate ids) =
      printed air gate (ids ∙ ap (λ done. strip plan.ofp_id ∷ done) h.ids)

  if-Marks :
      (snap : SimSnapshot) (blocking : Bool) (plan : FlightPlan) (a : AutoWx C) (b : Bool)
      (r : Option ℕ × AutoWx C)
      → (b ≡ true → Marks snap blocking plan a r)
      → Marks snap blocking plan a (if b then r else (some 0, a))
  if-Marks snap blocking plan a true r h = h refl
  if-Marks snap blocking plan a false r h = quiet refl

  remembered-Marks :
      (snap : SimSnapshot) (blocking : Bool) (plan : FlightPlan) (a : AutoWx C)
      (r : Option ℕ × AutoWx C)
      → snap.on_ground ≡ false
      → blocking ≡ false
      → r.1.printed_ofp_ids ≡ a.printed_ofp_ids
      → Marks snap blocking plan a (remembered (strip plan.ofp_id) r)
  unfolding remembered
  remembered-Marks snap blocking plan a (none, b) air gate ids = raised ids
  remembered-Marks snap blocking plan a (some zero, b) air gate ids = quiet ids
  remembered-Marks snap blocking plan a (some (suc n), b) air gate ids =
      printed air gate (ap (λ done. strip plan.ofp_id ∷ done) ids)

  arrived-Marks :
      (x : Skies C) (s : SettingsStore) (blocking : Bool) (snap : SimSnapshot) (plan : FlightPlan)
      (dest : Text) (here there : Option C) (a : AutoWx C)
      → Marks snap blocking plan a (arrived x s blocking snap plan dest here there a)
  unfolding arrived
  arrived-Marks x s blocking snap plan dest none there a = quiet refl
  arrived-Marks x s blocking snap plan dest (some here) none a = quiet refl
  arrived-Marks x s blocking snap plan dest (some here) (some there) a =
      let far = x.distance snap there in
      let near = x.distance snap here in
      let limit = wx_auto_nm s * 1000 in
      let bodies = fetch_bodies x s dest (wx_auto_kinds s) in
      if-Marks snap blocking plan a
        (should_trigger_dest_wx near far limit snap.on_ground && not blocking)
        (remembered (strip plan.ofp_id) (print_bodies x s plan bodies a))
        λ h.
          let (air, gate) = triggered_in_air near far limit snap.on_ground blocking h in
          remembered-Marks snap blocking plan a (print_bodies x s plan bodies a) air gate
            (print_bodies-ids x s plan bodies a)

  routed-Marks :
      (x : Skies C) (s : SettingsStore) (blocking : Bool) (snap : SimSnapshot) (plan : FlightPlan)
      (dest origin : Result Text) (a : AutoWx C)
      → Marks snap blocking plan a (routed x s blocking snap plan dest origin a)
  unfolding routed
  routed-Marks x s blocking snap plan (raise e) origin a = quiet refl
  routed-Marks x s blocking snap plan (ok dest) (raise e) a = quiet refl
  routed-Marks x s blocking snap plan (ok dest) (ok origin) a =
      let near = airport_coords x dest a in
      let far = airport_coords x origin near.1 in
      SameDone-Marks snap blocking plan a near.1 _ (airport_coords-SameDone x dest a) (
        SameDone-Marks snap blocking plan near.1 far.1 _ (airport_coords-SameDone x origin near.1)
          (arrived-Marks x s blocking snap plan dest near.0 far.0 far.1))

  stale_is_idle :
      (s : SettingsStore) (snap : SimSnapshot) (plan : FlightPlan) (a : AutoWx C)
      → one_of a.printed_ofp_ids (strip plan.ofp_id) ≡ true
      → is_ready s snap plan a ≡ false
  unfolding is_ready
  stale_is_idle s snap plan a h = ground arith

  pub consider-Marks :
      (x : Skies C) (s : SettingsStore) (blocking : Bool) (snap : SimSnapshot) (plan : FlightPlan)
      (a : AutoWx C)
      → Marks snap blocking plan a (consider x s blocking snap plan a)
  unfolding consider
  consider-Marks x s blocking snap plan a =
      if-Marks snap blocking plan a (is_ready s snap plan a) _ λ h.
        routed-Marks x s blocking snap plan (normalize_icao plan.dest_icao)
          (normalize_icao plan.origin_icao) a

  pub consider_again :
      (x : Skies C) (s : SettingsStore) (blocking : Bool) (snap : SimSnapshot) (plan : FlightPlan)
      (a : AutoWx C)
      → one_of a.printed_ofp_ids (strip plan.ofp_id) ≡ true
      → consider x s blocking snap plan a ≡ (some 0, a)
  unfolding consider
  consider_again x s blocking snap plan a h = rw (stale_is_idle s snap plan a h) refl
