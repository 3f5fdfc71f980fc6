-- ===== src/Bridge/Events/Latest.antt =====
-- What a drain of the queue gives.
use acars_printer.Prelude.{
  ℕ, ◌+◌, ◌-◌, ◌≤◌, ◌≡◌, refl, sym, ap, ◌∙◌, List, [], ◌∷◌, ◌++◌, append-nil, append_assoc, length,
  length-append, length-drop, subst, drop, drop-drop, drop-append_le, leb, arith, Bool-cases, inl,
  inr,
}
use acars_printer.Bridge.Events.{BridgeEvent, max_events, push_event, push_events, drain_events}

-- The last ones of a list.
unfoldable pub latest : ℕ → List BridgeEvent → List BridgeEvent
latest n events = drop (length events - n) events

push_event-latest :
    (queue : List BridgeEvent) (e : BridgeEvent)
    → length queue ≤ max_events
    → push_event queue e ≡ latest max_events (queue ++ e ∷ [])
unfolding push_event latest
push_event-latest queue e h =
    let size = length-append queue (e ∷ []) in
    elim (Bool-cases (leb max_events (length queue))) [
      | inl full ↦
          let one : length (queue ++ e ∷ []) - max_events ≡ 1 = ground arith in rw (full, one) refl
      | inr room ↦
          let all : length (queue ++ e ∷ []) - max_events ≡ 0 = ground arith in rw (room, all) refl
    ]

pub latest-length : (n : ℕ) (events : List BridgeEvent) → length (latest n events) ≤ n
unfolding latest
latest-length n events = let left = length-drop (length events - n) events in omega arith

latest-append :
    (n : ℕ) (xs ys : List BridgeEvent) → latest n (latest n xs ++ ys) ≡ latest n (xs ++ ys)
unfolding latest
latest-append n xs ys =
    let k = length xs - n in
    let joined : drop k xs ++ ys ≡ drop k (xs ++ ys) = sym (drop-append_le k xs ys (omega arith)) in
    let left = length-drop k xs in
    let old = length-append (drop k xs) ys in
    let new = length-append xs ys in
    let steps : k + (length (drop k xs ++ ys) - n) ≡ length (xs ++ ys) - n = omega arith in
    ap (drop (length (drop k xs ++ ys) - n)) joined
    ∙ drop-drop (length (drop k xs ++ ys) - n) k (xs ++ ys)
    ∙ ap (λ m. drop m (xs ++ ys)) steps

latest-short :
    (queue : List BridgeEvent) → length queue ≤ max_events → latest max_events queue ≡ queue
unfolding latest
latest-short queue h =
    let all : length queue - max_events ≡ 0 = omega arith in ap (λ m. drop m queue) all

pub push_events-latest :
    (queue events : List BridgeEvent)
    → length queue ≤ max_events
    → push_events queue events ≡ latest max_events (queue ++ events)
unfolding push_events
push_events-latest queue [] h =
    sym (latest-short queue h) ∙ ap (latest max_events) (sym (append-nil queue))
push_events-latest queue (e ∷ events) h =
    let pushed = push_event-latest queue e h in
    let fits : length (push_event queue e) ≤ max_events =
      subst (λ q. length q ≤ max_events) (sym pushed)
        (latest-length max_events (queue ++ e ∷ [])) in
    push_events-latest (push_event queue e) events fits
    ∙ ap (λ q. latest max_events (q ++ events)) pushed
    ∙ latest-append max_events (queue ++ e ∷ []) events
    ∙ ap (latest max_events) (append_assoc queue (e ∷ []) events)

-- A queue that is not over its limit gives, after some events, the newest of the old and the new ones,
-- in their order, as many as the limit allows, and it is empty then.
pub drain_events-latest :
    (queue events : List BridgeEvent)
    → length queue ≤ max_events
    → drain_events (push_events queue events) ≡ (latest max_events (queue ++ events), [])
unfolding drain_events
drain_events-latest queue events h = ap (λ q. (q, [])) (push_events-latest queue events h)
