-- ===== src/Simbrief/Watcher/Account.antt =====
-- Every step of the watcher keeps the account: no more final loadsheets than locks.
use acars_printer.Prelude.{
  ℕ, ◌+◌, ◌≤◌, ◌≡◌, refl, ap, ◌∙◌, Bool, true, false, Option, none, some, [], ◌∷◌, not, ◌&&◌, ◌||◌,
  arith, Bool-cases, inl, inr,
}
use acars_printer.Text.{codes, text_eq}
use acars_printer.Models.Settings.Kinds.{simbrief_ofp_ticket_enabled}
use acars_printer.Sim.Snapshot.{SimSnapshot}
use acars_printer.Simbrief.Plan.{FlightPlan, is_fenix_aircraft}
use acars_printer.Simbrief.Watcher.{
  WatcherState, WatcherConfig, Watcher, Label, final_trigger, missed_final, is_polling, is_locked,
  is_post_landing, print_bundle, print_final,
}
use acars_printer.Simbrief.Watcher.Final.{should_print_final}
use acars_printer.Simbrief.Watcher.Steps.{missed_now, missed_step, final_of, final_now, final_step}
use acars_printer.Simbrief.Watcher.Sound.{
  is_final, final_tickets, finals, locks, owed, is_consistent, is_flying, IsCalm, SameMarks,
  SameMarks-IsCalm, should_print_final-SameMarks, should_print_final-open,
}

pub record IsSound (w : Watcher) : Type 0 where
  pub account : finals w.bundles + owed w.state ≤ locks w.bundles
  pub consistent : is_consistent w.state ≡ true

-- A step of the state alone.
pub calm-IsSound :
    (w w' : Watcher) → w'.bundles ≡ w.bundles → IsCalm w.state w'.state → IsSound w → IsSound w'
calm-IsSound w w' b c h =
    let owing = c.owing in
    let account = h.account in
    let finals_kept = ap finals b in
    let locks_kept = ap locks b in
    record { account = omega arith; consistent = c.consistent h.consistent }

-- What `_print_final` may add to the account.
record AddsFinal (w w' : Watcher) : Type 0 where
  more : finals w'.bundles ≤ finals w.bundles + 1
  same : locks w'.bundles ≡ locks w.bundles
  state_kept : w'.state ≡ w.state

print_bundle-AddsFinal :
    (label : Label) (w : Watcher)
    → is_final label ≡ true
    → AddsFinal w (print_bundle label (codes "loadsheet_final" ∷ []) w)
unfolding print_bundle finals final_tickets text_eq locks
print_bundle-AddsFinal label w f = record {
  more = omega arith;
  same = rw f (omega arith);
  state_kept = refl;
}

print_final-AddsFinal :
    (label : Label) (plan : FlightPlan) (w : Watcher)
    → is_final label ≡ true
    → AddsFinal w (print_final label plan w)
unfolding print_final
print_final-AddsFinal label plan w f =
    let none_added : AddsFinal w w = record {
      more = omega arith;
      same = refl;
      state_kept = refl;
    } in
    elim (Bool-cases (is_fenix_aircraft plan)) [
      | inl fenix ↦ rw fenix none_added
      | inr other ↦
          rw other
            (elim (Bool-cases (simbrief_ofp_ticket_enabled (codes "loadsheet_final") w.settings)) [
              | inl on ↦ rw on (print_bundle-AddsFinal label w f)
              | inr off ↦ rw off none_added
            ])
    ]

locked_consistent :
    (st : WatcherState)
    → is_locked st.phase ≡ true
    → is_consistent st ≡ true
    → (st.missed_final_pending ≡ false) × (is_polling st.phase ≡ false)
unfolding is_locked is_consistent is_flying is_polling
locked_consistent st l h = (ground arith, ground arith)

-- A state that owes a final and one that does not.
settled-IsSound :
    (w w' : Watcher) (st : WatcherState)
    → IsSound w
    → AddsFinal w w'
    → owed w.state ≡ 1
    → owed st ≡ 0
    → is_consistent st ≡ true
    → IsSound (record w' { state = st })
settled-IsSound w w' st h a o z c =
    let account = h.account in
    let more = a.more in let same = a.same in record { account = omega arith; consistent = c }

missed_owed :
    (st : WatcherState)
    → is_post_landing st.phase ≡ true
    → st.missed_final_pending ≡ true
    → is_consistent st ≡ true
    → owed st ≡ 1
unfolding is_post_landing is_consistent is_flying owed is_polling
missed_owed st p m c = ground arith

missed_now-IsSound :
    (w : Watcher) (plan : Option FlightPlan)
    → owed w.state ≡ 1
    → IsSound w
    → IsSound (missed_now w plan)
unfolding missed_now
missed_now-IsSound w none o h = h
missed_now-IsSound w (some plan) o h =
    elim (Bool-cases (is_fenix_aircraft plan || w.gate.sterile)) [
      | inl held ↦ rw held h
      | inr free ↦ rw free (
          settled-IsSound w (print_final missed_final plan w) _ h
            (print_final-AddsFinal missed_final plan w (unfold is_final in refl)) o
            (unfold owed in ground arith) (unfold is_consistent in refl))
    ]

pub missed_step-IsSound : (w : Watcher) → IsSound w → IsSound (missed_step w)
unfolding missed_step
missed_step-IsSound w h =
    elim (Bool-cases (is_post_landing w.state.phase && w.state.missed_final_pending)) [
      | inl missed ↦
          let p : is_post_landing w.state.phase ≡ true = ground arith in
          let m : w.state.missed_final_pending ≡ true = ground arith in
          rw missed (missed_now-IsSound w w.state.plan (missed_owed w.state p m h.consistent) h)
      | inr not_missed ↦ rw not_missed h
    ]

final_of-IsSound :
    (plan : FlightPlan) (w : Watcher) (r : Bool × WatcherState)
    → SameMarks w.state r.1
    → (r.0 ≡ true → w.state.final_printed ≡ false)
    → is_locked w.state.phase ≡ true
    → IsSound w
    → IsSound (final_of plan w r)
unfolding final_of
final_of-IsSound plan w (false, st) s f l h =
    calm-IsSound w (record w { state = st }) refl (SameMarks-IsCalm w.state st s) h
final_of-IsSound plan w (true, st) s f l h =
    let seen : Watcher = record w { state = st } in
    let marked = calm-IsSound w seen refl (SameMarks-IsCalm w.state st s) h in
    let added = print_final-AddsFinal final_trigger plan seen (unfold is_final in refl) in
    let not_printed : st.final_printed ≡ false = s.final_kept ∙ f refl in
    let still : is_locked st.phase ≡ true = ap is_locked s.phase_kept ∙ l in
    let facts = locked_consistent st still marked.consistent in
    settled-IsSound seen (print_final final_trigger plan seen) _ marked added
      (unfold owed in rw (facts.1, not_printed) refl) (unfold owed is_polling in refl)
      (let kept = ap (λ (x : WatcherState). x.missed_final_pending) added.state_kept in
        unfold is_consistent in rw (kept, facts.0) refl)

final_now-IsSound :
    (c : WatcherConfig) (now now_utc : ℕ) (world : Option SimSnapshot) (w : Watcher)
    (plan : Option FlightPlan)
    → is_locked w.state.phase ≡ true
    → IsSound w
    → IsSound (final_now c now now_utc world w plan)
unfolding final_now
final_now-IsSound c now now_utc world w none l h = h
final_now-IsSound c now now_utc world w (some plan) l h =
    elim (Bool-cases (is_fenix_aircraft plan && not w.state.final_printed)) [
      | inl fenix ↦ rw fenix (
          calm-IsSound w _ refl
            record {
              owing = unfold owed is_polling in omega arith;
              consistent = λ e. unfold is_consistent in refl;
            }
            h)
      | inr other ↦ rw other (
          final_of-IsSound plan w (should_print_final c now now_utc world w)
            (should_print_final-SameMarks c now now_utc world w)
            (λ e. (should_print_final-open c now now_utc world w e).0) l h)
    ]

pub final_step-IsSound :
    (c : WatcherConfig) (now now_utc : ℕ) (world : Option SimSnapshot) (w : Watcher)
    → IsSound w
    → IsSound (final_step c now now_utc world w)
unfolding final_step
final_step-IsSound c now now_utc world w h = elim (Bool-cases (is_locked w.state.phase)) [
  | inl l ↦ rw l (final_now-IsSound c now now_utc world w w.state.plan l h)
  | inr l ↦ rw l h
]
