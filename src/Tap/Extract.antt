-- ===== src/Tap/Extract.antt =====
-- `messages_from_hoppie_exchange` of src/acars_bridge/tap/extract.py, from the fields of the request's
-- form, and the bodies of PMDG messages. `none` is a field that is not there.
pub mod About
use acars_printer.Prelude.{
  ℕ, Bool, true, false, Option, none, some, List, [], ◌∷◌, ◌++◌, map, not, ◌&&◌, ◌||◌, or_else,
  if◌then◌else◌,
}
use acars_printer.Text.{
  Text, codes, is_empty, text_eq, one_of, upper, lower, strip, starts_with, contains, words, join,
}
use acars_printer.Hoppie.Types.{
  MessageType, inforeq, cpdlc, is_cpdlc, is_unknown, from_hoppie, HoppieMessage, Result, ok, raise,
}
use acars_printer.Hoppie.Parser.{parse_response}
use acars_printer.Hoppie.Sanitize.{scrub_message_body}
use acars_printer.Hoppie.Cpdlc.{CpdlcPacket, parse, display_text, expand_cpdlc_at_marks}

pub record Form : Type 0 where
  pub kind : Option Text
  pub from_field : Option Text
  pub packet : Option Text

-- `(x or "").strip().upper()`.
abbrev pub callsign_text : Option Text → Text
callsign_text o = upper (strip (or_else o []))

abbrev text_or : Text → Text → Text
text_or [] d = d
text_or (c ∷ s) d = c ∷ s

abbrev pub is_about : Text → HoppieMessage → Bool
is_about callsign m =
    text_eq (upper m.callsign) callsign
    || text_eq (upper (or_else m.recipient [])) callsign
    || text_eq (upper (or_else m.sender [])) callsign

select_about : Text → List HoppieMessage → List HoppieMessage
select_about callsign [] = []
select_about callsign (m ∷ ms) =
    let rest = select_about callsign ms in if is_about callsign m then m ∷ rest else rest

-- `_filter`; no filter is the empty text.
unfoldable pub filter_messages : Text → List HoppieMessage → List HoppieMessage
unfolding select_about
filter_messages callsign ms = if is_empty callsign then ms else select_about callsign ms

-- The messages of a response, none if it does not parse.
parsed : Result (List HoppieMessage) → List HoppieMessage
parsed (raise e) = []
parsed (ok ms) = ms

abbrev pub label_of : Option Text → Text
label_of packet = upper (strip (join (b' ' ∷ []) (words (or_else packet []))))

unfoldable pub with_request_label : Text → HoppieMessage → HoppieMessage
with_request_label label m = if starts_with label (upper m.normalized_body) then m else record m {
  normalized_body =
      if is_empty m.normalized_body then label else label ++ (b'\n' ∷ m.normalized_body);
}

unfoldable pub asked_by : Text → HoppieMessage → HoppieMessage
asked_by from_cs m = if is_empty from_cs || text_eq m.callsign from_cs then m else record m {
  callsign = from_cs;
  sender = some (text_or (or_else m.sender []) (codes "SERVER"));
  recipient = some from_cs;
  message_type = if is_unknown m.message_type then inforeq else m.message_type;
}

-- The reply to an inforeq: its messages for the aircraft that asked, with the request in front.
unfoldable pub reply_messages : Text → Text → List HoppieMessage → List HoppieMessage
reply_messages from_cs label ms =
    if is_empty label
    then map (asked_by from_cs) ms
    else map (with_request_label label) (map (asked_by from_cs) ms)

-- What `parse_response` is asked for: the sender, the filter, or neither.
abbrev poll_callsign : Text → Text → Text
poll_callsign from_cs filter_cs = text_or from_cs (text_or filter_cs (codes "UNKNOWN"))

is_ok_reply : Text → Bool
is_ok_reply response = starts_with (codes "ok") (lower (strip response))

is_parsed : Result (List HoppieMessage) → Bool
is_parsed (ok ms) = true
is_parsed (raise e) = false

no_messages : List HoppieMessage → Bool
no_messages [] = true
no_messages (m ∷ ms) = false

-- `req_type` and `from_cs` are known by now, and the sender passes the filter.
unfoldable pub exchange_of : Text → Text → Text → Option Text → Text → List HoppieMessage × Bool
unfolding parsed is_ok_reply is_parsed no_messages
exchange_of req_type from_cs filter_cs packet response =
    let result = parse_response response (poll_callsign from_cs filter_cs) in
    let messages = filter_messages filter_cs (parsed result) in
    if text_eq req_type (codes "ping")
    then ([], false)
    else if not (is_parsed result)
    then ([], false)
    else if text_eq req_type (codes "inforeq")
    then (if no_messages messages && is_ok_reply response
        then ([], false)
        else (reply_messages from_cs (label_of packet) messages, true))
    else (messages, false)

unfoldable pub messages_from_hoppie_exchange : Form → Text → Option Text → List HoppieMessage × Bool
messages_from_hoppie_exchange form response callsign_filter =
    let req_type = lower (strip (or_else form.kind [])) in
    let from_cs = callsign_text form.from_field in
    let filter_cs = callsign_text callsign_filter in
    if not (is_empty filter_cs) && not (is_empty from_cs) && not (text_eq from_cs filter_cs)
    then ([], false)
    else if is_empty req_type && contains (codes "acars info") (lower response)
    then exchange_of (codes "inforeq") (text_or from_cs (text_or filter_cs (codes "UNKNOWN")))
        filter_cs form.packet response
    else exchange_of req_type from_cs filter_cs form.packet response

-- The type and the body of a PMDG message, with its CPDLC numbers.
pub record Decoded : Type 0 where
  pub message_type : MessageType
  pub body : Text
  pub min : Option ℕ
  pub mrn : Option ℕ
  pub ra : Option Text

unfoldable pub gfo_type : Text → MessageType
gfo_type value =
    let raw = upper (strip value) in
    if one_of
      (codes "FLI" ∷ codes "INFO" ∷ codes "ATIS" ∷ codes "METAR" ∷ codes "TAF" ∷ codes "WX" ∷ [])
      raw
    then inforeq
    else from_hoppie (lower raw)

some_text : Text → Option Text
some_text [] = none
some_text (c ∷ s) = some (c ∷ s)

undecoded : Text → MessageType → Decoded
undecoded packet declared =
    let body = if is_cpdlc declared then expand_cpdlc_at_marks packet else packet in
    record {
      message_type = declared;
      body = scrub_message_body body;
      min = none;
      mrn = none;
      ra = none;
    }

decoded : Text → MessageType → Result CpdlcPacket → Decoded
unfolding undecoded some_text
decoded packet declared (raise e) = undecoded packet declared
decoded packet declared (ok p) = record {
  message_type = cpdlc;
  body = scrub_message_body (display_text p);
  min = p.min;
  mrn = p.mrn;
  ra = some_text p.ra;
}

unfoldable pub gfo_decode_body : Text → MessageType → Decoded
unfolding decoded undecoded
gfo_decode_body body declared =
    let packet = strip body in
    if starts_with (codes "/DATA2/") (upper packet)
    then decoded packet declared (parse packet)
    else undecoded packet declared
