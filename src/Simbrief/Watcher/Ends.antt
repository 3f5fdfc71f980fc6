-- ===== src/Simbrief/Watcher/Ends.antt =====
-- How a lock ends, and the pauses between polls that fail.
use acars_printer.Prelude.{
  ℕ, suc, ◌+◌, ◌≤◌, ◌<◌, ◌≡◌, refl, ap, true, false, Option, some, arith, inr, List, [], ◌∷◌, ◌++◌,
  length, ◌⊎◌,
}
use acars_printer.Text.{Text, is_empty, text_eq_iff}
use acars_printer.Sim.Snapshot.{SimSnapshot}
use acars_printer.Models.Settings.Names.{simbrief_last_ofp_id}
use acars_printer.Simbrief.Plan.{FlightPlan, is_eligible_for_autoprint, is_last}
use acars_printer.Simbrief.Watcher.{WatcherConfig, WatcherState, Watcher, polling, new_state}
use acars_printer.Simbrief.Watcher.Phases.{unlock}
use acars_printer.Simbrief.Watcher.Locks.{
  poll, poll_in, poll_polling, eligible, same_id, next_backoff, failed_poll,
}
use acars_printer.Simbrief.Watcher.Steps.{is_active, lock_expired, tick_local}

-- The plan that was handled last is not eligible.
handled_is_not_eligible :
    (plan : FlightPlan) (now_utc grace : ℕ) (last : Option Text)
    → last ≡ some plan.ofp_id
    → is_empty plan.ofp_id ≡ false
    → is_eligible_for_autoprint plan now_utc last grace ≡ false
unfolding is_eligible_for_autoprint is_last
handled_is_not_eligible plan now_utc grace last e f =
    let same = (text_eq_iff plan.ofp_id plan.ofp_id).1 refl in rw e (rw (f, same) refl)

same_id-own :
    (plan : FlightPlan) (last : Option Text) → last ≡ some plan.ofp_id → same_id last plan ≡ true
unfolding same_id
same_id-own plan last e = rw e ((text_eq_iff plan.ofp_id plan.ofp_id).1 refl)

handled_poll :
    (c : WatcherConfig) (now now_utc : ℕ) (plan : FlightPlan) (w : Watcher)
    → simbrief_last_ofp_id w.settings ≡ some plan.ofp_id
    → is_empty plan.ofp_id ≡ false
    → poll_polling c now now_utc plan w ≡ w
unfolding poll_polling eligible
handled_poll c now now_utc plan w e f =
    rw (handled_is_not_eligible plan now_utc c.sobt_late_grace _ e f, same_id-own plan _ e) refl

tick_expired :
    (c : WatcherConfig) (now now_utc : ℕ) (snapshot : Option SimSnapshot) (w : Watcher)
    → is_active w.settings ≡ true
    → lock_expired c now w.state ≡ true
    → tick_local c now now_utc snapshot w ≡ unlock false now w
unfolding tick_local
tick_expired c now now_utc snapshot w a x = rw (a, x) refl

-- The state after a poll of an unlocked watcher that locks nothing.
waiting_again : WatcherConfig → ℕ → ℕ → Watcher → Watcher
waiting_again c now later w =
    let fresh = new_state now in
    record w { state = record fresh { backoff = 0; next_poll_at = later + c.poll_ticks } }

handled_again :
    (c : WatcherConfig) (now later later_utc : ℕ) (plan : FlightPlan) (w : Watcher)
    → simbrief_last_ofp_id w.settings ≡ some plan.ofp_id
    → is_empty plan.ofp_id ≡ false
    → poll c later later_utc (some plan) (unlock false now w) ≡ waiting_again c now later w
unfolding poll poll_in unlock new_state waiting_again
handled_again c now later later_utc plan w e f =
    handled_poll c later later_utc plan (waiting_again c now later w) e f

-- A lock that is held too long ends at the next tick of an active watcher, whatever the snapshot shows:
-- nothing prints and the watcher polls again; and a poll that then answers with the plan that was
-- handled last, whose identifier is not empty, locks nothing and prints nothing.
pub lock_ends :
    (c : WatcherConfig) (now now_utc later later_utc : ℕ) (snapshot : Option SimSnapshot)
    (plan : FlightPlan) (w : Watcher)
    → is_active w.settings ≡ true
    → lock_expired c now w.state ≡ true
    → simbrief_last_ofp_id w.settings ≡ some plan.ofp_id
    → is_empty plan.ofp_id ≡ false
    → ((tick_local c now now_utc snapshot w).state.phase ≡ polling)
      × ((tick_local c now now_utc snapshot w).bundles ≡ w.bundles)
      × ((poll c later later_utc (some plan) (tick_local c now now_utc snapshot w)).state.phase
          ≡ polling)
      × ((poll c later later_utc (some plan) (tick_local c now now_utc snapshot w)).bundles
          ≡ w.bundles)
unfolding unlock new_state waiting_again
lock_ends c now now_utc later later_utc snapshot plan w a x e f =
    let ended = tick_expired c now now_utc snapshot w a x in
    let again = handled_again c now later later_utc plan w e f in
    rw ended (refl, refl, ap (λ v. v.state.phase) again, ap (λ v. v.bundles) again)

-- The polls that fail one after the other, the clock's times given.
unfoldable pub failed_polls : WatcherConfig → List ℕ → WatcherState → WatcherState
failed_polls c [] st = st
failed_polls c (now ∷ times) st = failed_polls c times (failed_poll c now st)

next_backoff_grows :
    (c : WatcherConfig) (backoff : ℕ)
    → 0 < c.first_backoff
    → (backoff < next_backoff c backoff) ⊎ (next_backoff c backoff ≡ c.max_backoff)
unfolding next_backoff
next_backoff_grows c backoff p = ground arith

next_backoff-below : (c : WatcherConfig) (backoff : ℕ) → next_backoff c backoff ≤ c.max_backoff
unfolding next_backoff
next_backoff-below c backoff = ground arith

-- The longest pause, or one error less away from it.
nearer :
    (c : WatcherConfig) (n : ℕ) (backoff : ℕ)
    → 0 < c.first_backoff
    → (backoff ≡ c.max_backoff) ⊎ (c.max_backoff ≤ suc n + backoff)
    → (next_backoff c backoff ≡ c.max_backoff) ⊎ (c.max_backoff ≤ n + next_backoff c backoff)
nearer c n backoff p h =
    let below = next_backoff-below c backoff in
    let grows = next_backoff_grows c backoff p in grind arith

failed_polls_near :
    (c : WatcherConfig) (times : List ℕ) (st : WatcherState)
    → 0 < c.first_backoff
    → (st.backoff ≡ c.max_backoff) ⊎ (c.max_backoff ≤ length times + st.backoff)
    → ((failed_polls c times st).backoff ≡ c.max_backoff)
      ⊎ (c.max_backoff ≤ (failed_polls c times st).backoff)
unfolding failed_polls failed_poll
failed_polls_near c [] st p h = grind arith
failed_polls_near c (now ∷ times) st p h =
    failed_polls_near c times (failed_poll c now st) p (nearer c (length times) st.backoff p h)

failed_polls-append :
    (c : WatcherConfig) (times : List ℕ) (last : ℕ) (st : WatcherState)
    → failed_polls c (times ++ last ∷ []) st ≡ failed_poll c last (failed_polls c times st)
unfolding failed_polls
failed_polls-append c [] last st = refl
failed_polls-append c (now ∷ times) last st =
    failed_polls-append c times last (failed_poll c now st)

settled :
    (c : WatcherConfig) (backoff : ℕ)
    → 0 < c.first_backoff
    → (backoff ≡ c.max_backoff) ⊎ (c.max_backoff ≤ backoff)
    → next_backoff c backoff ≡ c.max_backoff
settled c backoff p h =
    let below = next_backoff-below c backoff in
    let grows = next_backoff_grows c backoff p in grind arith

-- Polls that fail one after the other, at any times and at least as many as the longest pause has ticks,
-- end with that pause, when the first one is not empty; and the next poll is due that long after the last
-- of them.
pub failed_polls_settle :
    (c : WatcherConfig) (times : List ℕ) (last : ℕ) (st : WatcherState)
    → 0 < c.first_backoff
    → c.max_backoff ≤ length times
    → ((failed_polls c (times ++ last ∷ []) st).backoff ≡ c.max_backoff)
      × ((failed_polls c (times ++ last ∷ []) st).next_poll_at ≡ last + c.max_backoff)
unfolding failed_poll
failed_polls_settle c times last st p h =
    let near = failed_polls_near c times st p (inr (omega arith)) in
    let longest = settled c _ p near in
    rw (failed_polls-append c times last st) (longest, ap (λ b. last + b) longest)
