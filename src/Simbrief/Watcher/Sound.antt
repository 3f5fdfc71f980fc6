-- ===== src/Simbrief/Watcher/Sound.antt =====
-- The account of final loadsheets and locks, and the steps that change only the state.
use acars_printer.Prelude.{
  ℕ, ◌+◌, ◌≤◌, ◌≡◌, refl, ◌∙◌, Bool, true, false, Option, none, some, List, [], ◌∷◌, ◌++◌, not,
  ◌&&◌, ◌||◌, if◌then◌else◌, arith, Bool-cases, inl, inr,
}
use acars_printer.Text.{Text, codes, text_eq}
use acars_printer.Sim.Snapshot.{SimSnapshot, is_true}
use acars_printer.Models.Settings.Store.{SettingsStore}
use acars_printer.Simbrief.Plan.{FlightPlan}
use acars_printer.Simbrief.Watcher.{
  WatcherPhase, airborne, post_landing, WatcherState, WatcherConfig, Watcher, Bundle, Label,
  final_trigger, missed_final, is_polling, new_state, skips_final_loadsheet, bundle_fp_prelim,
}
use acars_printer.Simbrief.Watcher.Final.{
  should_print_final, final_wanted, after_door, door_step, doors_closed, roll_step, rolling_for,
  ground_of, door_of, is_due,
}
use acars_printer.Simbrief.Watcher.Phases.{note_motion, in_air, took_off, landed}

unfoldable pub is_final : Label → Bool
is_final final_trigger = true
is_final missed_final = true
is_final _ = false

-- How many of the tickets are final loadsheets.
unfoldable pub final_tickets : List Text → ℕ
final_tickets [] = 0
final_tickets (t ∷ ts) = (if text_eq t (codes "loadsheet_final") then 1 else 0) + final_tickets ts

-- How many final loadsheets the bundles of a list hold, and how many bundles began a lock.
unfoldable pub finals : List Bundle → ℕ
unfolding final_tickets
finals [] = 0
finals (b ∷ bs) = final_tickets b.tickets + finals bs

unfoldable pub locks : List Bundle → ℕ
locks [] = 0
locks (b ∷ bs) = (if is_final b.label then 0 else 1) + locks bs

final_tickets-append :
    (a b : List Text) → final_tickets (a ++ b) ≡ final_tickets a + final_tickets b
unfolding final_tickets
final_tickets-append [] b = omega arith
final_tickets-append (t ∷ a) b = omega (arith, final_tickets-append a b)

final_tickets-if :
    (b : Bool) (t : Text)
    → text_eq t (codes "loadsheet_final") ≡ false
    → final_tickets (if b then t ∷ [] else []) ≡ 0
unfolding final_tickets
final_tickets-if true t h = rw h refl
final_tickets-if false t h = refl

no_final_tickets :
    (a b c : List Text)
    → final_tickets a ≡ 0
    → final_tickets b ≡ 0
    → final_tickets c ≡ 0
    → final_tickets (a ++ (b ++ c)) ≡ 0
no_final_tickets a b c x y z =
    omega (arith, final_tickets-append a (b ++ c), final_tickets-append b c)

-- The tickets of a lock hold no final loadsheet.
pub final_tickets-bundle_fp_prelim :
    (s : SettingsStore) (plan : FlightPlan) → final_tickets (bundle_fp_prelim s plan) ≡ 0
unfolding bundle_fp_prelim text_eq
final_tickets-bundle_fp_prelim s plan =
    no_final_tickets _ _ _ (final_tickets-if _ (codes "flight_plan") refl)
      (final_tickets-if _ (codes "takeoff_data") refl)
      (final_tickets-if _ (codes "loadsheet_prelim") refl)

unfoldable pub is_flying : WatcherPhase → Bool
is_flying airborne = true
is_flying post_landing = true
is_flying _ = false

-- A lock may still owe one final loadsheet.
unfoldable pub owed : WatcherState → ℕ
owed st = if is_polling st.phase || st.final_printed then 0 else 1

-- A final is missed only in flight, and then it has not been printed.
unfoldable pub is_consistent : WatcherState → Bool
unfolding is_flying
is_consistent st = not st.missed_final_pending || (is_flying st.phase && not st.final_printed)

-- A step of the state that owes no more than before.
pub record IsCalm (st st' : WatcherState) : Type 0 where
  pub owing : owed st' ≤ owed st
  pub consistent : is_consistent st ≡ true → is_consistent st' ≡ true

pub IsCalm-refl : (st : WatcherState) → IsCalm st st
IsCalm-refl st = record { owing = omega arith; consistent = λ h. h }

pub IsCalm-trans : (a b c : WatcherState) → IsCalm a b → IsCalm b c → IsCalm a c
IsCalm-trans a b c h k =
    let ho = h.owing in
    let ko = k.owing in
    record { owing = omega arith; consistent = λ e. k.consistent (h.consistent e) }

pub new_state-IsCalm : (now : ℕ) (st : WatcherState) → IsCalm st (new_state now)
unfolding new_state owed is_polling is_consistent
new_state-IsCalm now st = record { owing = omega arith; consistent = λ h. refl }

pub note_motion-IsCalm :
    (c : WatcherConfig) (s : SimSnapshot) (st : WatcherState) → IsCalm st (note_motion c s st)
unfolding note_motion owed is_consistent
note_motion-IsCalm c s st = record { owing = ground arith; consistent = λ h. ground arith }

pub in_air-IsCalm : (c : WatcherConfig) (now : ℕ) (st : WatcherState) → IsCalm st (in_air c now st)
unfolding in_air took_off owed is_consistent is_polling is_flying
in_air-IsCalm c now st = record { owing = ground arith; consistent = λ h. ground arith }

pub landed-IsCalm :
    (c : WatcherConfig) (now : ℕ) (st : WatcherState)
    → is_polling st.phase ≡ false
    → IsCalm st (landed c now st)
unfolding landed owed is_consistent is_polling is_flying
landed-IsCalm c now st h = record { owing = ground arith; consistent = λ h. ground arith }

-- A step that leaves the phase and the marks of the final.
pub record SameMarks (st st' : WatcherState) : Type 0 where
  pub phase_kept : st'.phase ≡ st.phase
  pub final_kept : st'.final_printed ≡ st.final_printed
  pub pending_kept : st'.missed_final_pending ≡ st.missed_final_pending

abbrev pub same_marks : (st : WatcherState) → SameMarks st st
same_marks st = record { phase_kept = refl; final_kept = refl; pending_kept = refl }

pub SameMarks-trans : (a b c : WatcherState) → SameMarks a b → SameMarks b c → SameMarks a c
SameMarks-trans a b c h k = record {
  phase_kept = k.phase_kept ∙ h.phase_kept;
  final_kept = k.final_kept ∙ h.final_kept;
  pending_kept = k.pending_kept ∙ h.pending_kept;
}

pub SameMarks-IsCalm : (st st' : WatcherState) → SameMarks st st' → IsCalm st st'
unfolding owed is_consistent
SameMarks-IsCalm st st' h =
    let p = h.phase_kept in
    let f = h.final_kept in
    let m = h.pending_kept in
    record { owing = rw (p, f) (omega arith); consistent = λ e. rw (p, f, m) e }

door_step-SameMarks :
    (c : WatcherConfig) (now : ℕ) (door : Option Bool) (st : WatcherState)
    → SameMarks st (door_step c now door st).1
unfolding door_step doors_closed
door_step-SameMarks c now none st = record {
  phase_kept = refl;
  final_kept = refl;
  pending_kept = refl;
}
door_step-SameMarks c now (some true) st = record {
  phase_kept = refl;
  final_kept = refl;
  pending_kept = refl;
}
door_step-SameMarks c now (some false) st = record {
  phase_kept = ground arith;
  final_kept = ground arith;
  pending_kept = ground arith;
}

roll_step-SameMarks :
    (c : WatcherConfig) (now : ℕ) (ground : Option SimSnapshot) (st : WatcherState)
    → SameMarks st (roll_step c now ground st).1
unfolding roll_step rolling_for
roll_step-SameMarks c now none st = record {
  phase_kept = refl;
  final_kept = refl;
  pending_kept = refl;
}
roll_step-SameMarks c now (some s) st = record {
  phase_kept = ground arith;
  final_kept = ground arith;
  pending_kept = ground arith;
}

after_door-SameMarks :
    (c : WatcherConfig) (now now_utc : ℕ) (on : Option SimSnapshot) (plan : FlightPlan)
    (r : Bool × WatcherState)
    → SameMarks r.1 (after_door c now now_utc on plan r).1
unfolding after_door
after_door-SameMarks c now now_utc on plan (true, st) = record {
  phase_kept = refl;
  final_kept = refl;
  pending_kept = refl;
}
after_door-SameMarks c now now_utc on plan (false, st) = elim (Bool-cases (is_true (door_of on))) [
  | inl ajar ↦ rw ajar record { phase_kept = refl; final_kept = refl; pending_kept = refl }
  | inr closed ↦ rw closed (elim (Bool-cases (is_due c now_utc plan.sched_out_utc)) [
    | inl due ↦ rw due record { phase_kept = refl; final_kept = refl; pending_kept = refl }
    | inr early ↦ rw early (roll_step-SameMarks c now on st)
  ])
]

pub should_print_final-SameMarks :
    (c : WatcherConfig) (now now_utc : ℕ) (snapshot : Option SimSnapshot) (w : Watcher)
    → SameMarks w.state (should_print_final c now now_utc snapshot w).1
unfolding should_print_final final_wanted
should_print_final-SameMarks c now now_utc snapshot w = go w.state.plan
  where
    go :
        (plan : Option FlightPlan)
        → SameMarks w.state (final_wanted c now now_utc snapshot w plan).1
    go none = same_marks w.state
    go (some plan) =
        elim (Bool-cases
          (w.state.final_printed || skips_final_loadsheet w.settings plan || w.gate.blocking)) [
            | inl held ↦ rw held (same_marks w.state)
            | inr wanted ↦ rw wanted (
                SameMarks-trans _ _ _
                  (door_step-SameMarks c now (door_of (ground_of snapshot)) w.state)
                  (after_door-SameMarks c now now_utc (ground_of snapshot) plan _))
          ]

-- The final prints only when it was not printed and the gate does not block.
pub should_print_final-open :
    (c : WatcherConfig) (now now_utc : ℕ) (snapshot : Option SimSnapshot) (w : Watcher)
    → (should_print_final c now now_utc snapshot w).0 ≡ true
    → (w.state.final_printed ≡ false) × (w.gate.blocking ≡ false)
unfolding should_print_final final_wanted
should_print_final-open c now now_utc snapshot w = go w.state.plan
  where
    go :
        (plan : Option FlightPlan)
        → (final_wanted c now now_utc snapshot w plan).0 ≡ true
        → (w.state.final_printed ≡ false) × (w.gate.blocking ≡ false)
    go none h = absurd (ground arith)
    go (some plan) h = (ground arith, ground arith)
