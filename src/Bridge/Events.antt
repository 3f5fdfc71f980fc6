-- ===== src/Bridge/Events.antt =====
-- The queue of events of `BridgeRuntime` in src/acars_bridge/bridge/runtime.py, and the events that it
-- emits for messages, for the tap and for the power of the aircraft. The payload of a status is a view
-- of the state and is left out.
pub mod Latest
use acars_printer.Prelude.{
  ℕ, zero, suc, ◌+◌, ◌/◌, Bool, true, false, Option, none, some, List, [], ◌∷◌, ◌++◌, length, drop,
  not, ◌&&◌, ◌||◌, leb, ltb, ◌==◌, if◌then◌else◌,
}
use acars_printer.Prelude.Int.{ℤ}
use acars_printer.Text.{Text, codes, join, to_decimal, text_of_int}
use acars_printer.Sterile.Gate.{SterileGate}

pub data BridgeEvent : Type 0 where
  status : BridgeEvent
  toast : Text → Bool → BridgeEvent
  new_messages : ℕ → BridgeEvent
  notified : Text → BridgeEvent

abbrev pub max_events : ℕ
max_events = 200

-- `deque(maxlen=200).append`.
unfoldable pub push_event : List BridgeEvent → BridgeEvent → List BridgeEvent
push_event queue event =
    if leb max_events (length queue) then drop 1 (queue ++ event ∷ []) else queue ++ event ∷ []

unfoldable pub push_events : List BridgeEvent → List BridgeEvent → List BridgeEvent
push_events queue [] = queue
push_events queue (e ∷ events) = push_events (push_event queue e) events

-- `drain_events`: the events, and the queue that is left.
unfoldable pub drain_events : List BridgeEvent → List BridgeEvent × List BridgeEvent
drain_events queue = (queue, [])

-- `_on_new_messages`.
unfoldable pub on_new_messages : ℕ → List BridgeEvent
on_new_messages count =
    if count == 0
    then []
    else new_messages count ∷ notified (to_decimal count ++ codes " new message(s)") ∷ []

-- What `_on_tap_update` reads of the tap.
pub record TapStatus : Type 0 where
  pub running : Bool
  pub last_error : Option Text
  pub printed : ℕ
  pub stored : ℕ

error_toast : TapStatus → Option Text → List BridgeEvent
error_toast s none = []
error_toast s (some []) = []
error_toast s (some (c ∷ e)) = if s.running then [] else toast (c ∷ e) true ∷ []

counted : ℕ → Text → List Text
counted n what = if n == 0 then [] else (to_decimal n ++ what) ∷ []

-- `_on_tap_update`.
unfoldable pub on_tap_update : TapStatus → List BridgeEvent
unfolding error_toast counted
on_tap_update s =
    status
    ∷ (error_toast s s.last_error
        ++ (if s.printed == 0 && s.stored == 0
            then []
            else toast
                (join (codes ", ")
                  (counted s.printed (codes " printed") ++ counted s.stored (codes " stored")))
                false
              ∷ []))

-- `int(agl_ft)` of a number of thousandths.
negative : ℕ → ℤ
negative zero = ℤ.pos 0
negative (suc n) = ℤ.negsuc n

whole_feet : ℤ → ℤ
unfolding negative
whole_feet (ℤ.pos n) = ℤ.pos (n / 1000)
whole_feet (ℤ.negsuc n) = negative (suc n / 1000)

is_cold : Option Bool → Bool
is_cold (some false) = true
is_cold _ = false

-- `_emit_power_sterile_toasts`, with the gate before and after an update.
module _ {J : Type 0} where
  unfoldable pub power_sterile_toasts : SterileGate J → SterileGate J → List BridgeEvent
  unfolding whole_feet is_cold
  power_sterile_toasts was g =
      if was.blocking && not g.blocking
      then (if was.unpowered && is_cold was.battery_on && not was.sterile
          then toast (codes "Power on — printing queued strips") false ∷ []
          else toast (codes "Hold ended — printing queued strips") false ∷ [])
      else if was.unpowered && not g.unpowered && g.blocking && g.settling
      then toast (codes "Power on — printing in 10 seconds") false ∷ []
      else if not was.sterile && g.sterile
      then toast
          (codes "Sterile until "
            ++ (text_of_int (whole_feet g.thresholds.agl_ft) ++ codes " ft AGL"))
          false
        ∷ []
      else if not was.unpowered && g.unpowered && is_cold g.battery_on
      then toast (codes "Aircraft unpowered — prints queued") false ∷ []
      else []
