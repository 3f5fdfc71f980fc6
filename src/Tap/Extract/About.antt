-- ===== src/Tap/Extract/About.antt =====
-- Which messages an exchange gives.
use acars_printer.Prelude.{
  ℕ, ◌≡◌, refl, ◌⊎◌, inl, inr, Bool, true, false, Option, List, [], ◌∷◌, map, not, ◌&&◌, All,
  or_else, Bool-cases, arith, if◌then◌else◌,
}
use acars_printer.Text.{
  Text, codes, is_empty, text_eq, text_eq_iff, upper, upper_char, is_lower, starts_with, strip,
  lower, contains,
}
use acars_printer.Hoppie.Types.{HoppieMessage}
use acars_printer.Hoppie.Parser.{parse_response}
use acars_printer.Tap.Extract.{
  Form, callsign_text, is_about, select_about, filter_messages, asked_by, with_request_label,
  reply_messages, poll_callsign, parsed, is_parsed, no_messages, is_ok_reply, label_of, text_or,
  exchange_of, messages_from_hoppie_exchange,
}

upper_char-upper_char : (c : ℕ) → upper_char (upper_char c) ≡ upper_char c
unfolding upper_char is_lower
upper_char-upper_char c = ground arith

pub upper-upper : (s : Text) → upper (upper s) ≡ upper s
unfolding upper
upper-upper [] = refl
upper-upper (c ∷ s) = rw (upper_char-upper_char c, upper-upper s)

abbrev pub About : Text → HoppieMessage → Type 0
About callsign m = is_about callsign m ≡ true

select_about-About :
    (callsign : Text) (ms : List HoppieMessage) → All (About callsign) (select_about callsign ms)
unfolding select_about
select_about-About callsign [] = tt
select_about-About callsign (m ∷ ms) = elim (Bool-cases (is_about callsign m)) [
  | inl yes_about ↦ rw yes_about (yes_about, select_about-About callsign ms)
  | inr not_about ↦ rw not_about (select_about-About callsign ms)
]

filter_messages-About :
    (callsign : Text) (ms : List HoppieMessage)
    → is_empty callsign ≡ false
    → All (About callsign) (filter_messages callsign ms)
filter_messages-About callsign ms given =
    let about = select_about-About callsign ms in unfold filter_messages in rw given about

-- The sender of the request, once it has passed the filter.
abbrev IsSender : Text → Text → Type 0
IsSender callsign from_cs = (is_empty from_cs ≡ true) ⊎ (from_cs ≡ callsign)

asked_by_other :
    (callsign : Text) (m : HoppieMessage)
    → upper callsign ≡ callsign
    → is_empty callsign ≡ false
    → text_eq m.callsign callsign ≡ false
    → About callsign (asked_by callsign m)
unfolding asked_by
asked_by_other callsign m u given other =
    let same = (text_eq_iff (upper callsign) callsign).1 u in rw (given, other) (rw same refl)

asked_by-About :
    (callsign from_cs : Text) (m : HoppieMessage)
    → upper callsign ≡ callsign
    → is_empty callsign ≡ false
    → IsSender callsign from_cs
    → About callsign m
    → About callsign (asked_by from_cs m)
asked_by-About callsign from_cs m u given (inl unknown_sender) about =
    unfold asked_by in rw unknown_sender about
asked_by-About callsign from_cs m u given (inr same) about =
    elim (Bool-cases (text_eq m.callsign callsign)) [
      | inl kept ↦ rw same (unfold asked_by in rw (given, kept) about)
      | inr other ↦ rw same (asked_by_other callsign m u given other)
    ]

with_request_label-About :
    (callsign label : Text) (m : HoppieMessage)
    → About callsign m
    → About callsign (with_request_label label m)
unfolding with_request_label
with_request_label-About callsign label m about =
    elim (Bool-cases (starts_with label (upper m.normalized_body))) [
      | inl kept ↦ rw kept about
      | inr added ↦ rw added about
    ]

All-map :
    {P : HoppieMessage → Type 0} (f : HoppieMessage → HoppieMessage)
    → ((m : HoppieMessage) → P m → P (f m))
    → (ms : List HoppieMessage) → All P ms
    → All P (map f ms)
All-map f keeps [] h = tt
All-map f keeps (m ∷ ms) h = (keeps m h.0, All-map f keeps ms h.1)

reply_messages-About :
    (callsign from_cs label : Text) (ms : List HoppieMessage)
    → upper callsign ≡ callsign
    → is_empty callsign ≡ false
    → IsSender callsign from_cs
    → All (About callsign) ms
    → All (About callsign) (reply_messages from_cs label ms)
reply_messages-About callsign from_cs label ms u given sender about =
    let asked =
      All-map (asked_by from_cs) (λ m. asked_by-About callsign from_cs m u given sender) ms about in
    let labelled =
      All-map (with_request_label label) (with_request_label-About callsign label)
        (map (asked_by from_cs) ms) asked in
    elim (Bool-cases (is_empty label)) [
      | inl bare ↦ unfold reply_messages in rw bare asked
      | inr named ↦ unfold reply_messages in rw named labelled
    ]

All-if :
    (callsign : Text) (b : Bool) (x y : List HoppieMessage × Bool)
    → All (About callsign) x.0
    → All (About callsign) y.0
    → All (About callsign) (if b then x else y).0
All-if callsign true x y hx hy = hx
All-if callsign false x y hx hy = hy

exchange_of-About :
    (req_type from_cs callsign : Text) (packet : Option Text) (response : Text)
    → upper callsign ≡ callsign
    → is_empty callsign ≡ false
    → IsSender callsign from_cs
    → All (About callsign) (exchange_of req_type from_cs callsign packet response).0
unfolding exchange_of
exchange_of-About req_type from_cs callsign packet response u given sender =
    let result = parse_response response (poll_callsign from_cs callsign) in
    let messages = filter_messages callsign (parsed result) in
    let about = filter_messages-About callsign (parsed result) given in
    All-if callsign (text_eq req_type (codes "ping")) _ _ tt (
      All-if callsign (not (is_parsed result)) _ _ tt (
        All-if callsign (text_eq req_type (codes "inforeq")) _ _
          (All-if callsign (no_messages messages && is_ok_reply response) _ _ tt
            (reply_messages-About callsign from_cs (label_of packet) messages u given sender about))
          about))

filtered-IsSender :
    (from_cs callsign : Text)
    → (not (is_empty callsign) && not (is_empty from_cs) && not (text_eq from_cs callsign)) ≡ false
    → is_empty callsign ≡ false
    → IsSender callsign from_cs
filtered-IsSender [] callsign h given = inl refl
filtered-IsSender (c ∷ s) callsign h given =
    let same : text_eq (c ∷ s) callsign ≡ true = ground arith in
    inr ((text_eq_iff (c ∷ s) callsign).0 same)

default_sender :
    (from_cs callsign : Text)
    → IsSender callsign from_cs
    → is_empty callsign ≡ false
    → text_or from_cs (text_or callsign (codes "UNKNOWN")) ≡ callsign
default_sender [] [] sender given = cc
default_sender [] (c ∷ s) sender given = refl
default_sender (c ∷ s) callsign (inl h) given = cc
default_sender (c ∷ s) callsign (inr same) given = same

-- With a filter of some callsign, every message that an exchange gives is about that callsign: it is
-- the message's callsign, its recipient or its sender, for every type of request.
pub messages_from_hoppie_exchange-About :
    (form : Form) (response : Text) (callsign_filter : Option Text)
    → is_empty (callsign_text callsign_filter) ≡ false
    → All
        (About (callsign_text callsign_filter))
        (messages_from_hoppie_exchange form response callsign_filter).0
unfolding messages_from_hoppie_exchange
messages_from_hoppie_exchange-About form response callsign_filter given =
    let callsign = callsign_text callsign_filter in
    let from_cs = callsign_text form.from_field in
    let u = upper-upper (strip (or_else callsign_filter [])) in
    elim (Bool-cases
      (not (is_empty callsign) && not (is_empty from_cs) && not (text_eq from_cs callsign))) [
        | inl stopped ↦ rw stopped tt
        | inr passed ↦
            let sender = filtered-IsSender from_cs callsign passed given in
            rw passed (
              All-if callsign
                (is_empty (lower (strip (or_else form.kind [])))
                  && contains (codes "acars info") (lower response))
                _ _
                (exchange_of-About (codes "inforeq")
                  (text_or from_cs (text_or callsign (codes "UNKNOWN"))) callsign form.packet
                  response u given (inr (default_sender from_cs callsign sender given)))
                (exchange_of-About (lower (strip (or_else form.kind []))) from_cs callsign
                  form.packet response u given sender))
      ]
