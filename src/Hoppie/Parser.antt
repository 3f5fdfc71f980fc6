-- ===== src/Hoppie/Parser.antt =====
-- `parse_response` and its parts: src/acars_bridge/hoppie/parser.py.
pub mod Messages
pub mod Wire
use acars_printer.Prelude.{
  ℕ, suc, Bool, true, false, Option, none, some, List, [], ◌∷◌, ◌++◌, map, not, ◌&&◌, ◌||◌, ◌==◌,
  drop, take, length, all, if◌then◌else◌,
}
use acars_printer.Text.{
  Text, codes, is_digit, upper, lower, strip, lstrip, rstrip, starts_with, contains, text_eq,
  is_empty, split_on, join, replace_char, split_first, words,
}
use acars_printer.Hoppie.Types.{
  MessageType, is_cpdlc, from_hoppie, HoppieMessage, Error, hoppie_error, callsign_in_use,
  value_error, Result, ok, raise, ◌>>=◌,
}
use acars_printer.Hoppie.Sanitize.{scrub_message_body}
use acars_printer.Hoppie.Cpdlc.{CpdlcPacket, expand_cpdlc_at_marks, display_text, parse}
use acars_printer.Hoppie.Blocks.{extract_blocks}

-- `x or default` on a text.
abbrev pub text_or : Text → Text → Text
text_or [] d = d
text_or (c ∷ s) d = c ∷ s

abbrev pub error_word : Text
error_word = codes "error"

abbrev pub no_detail : Text
no_detail = codes "Hoppie returned an error."

-- `s.endswith(c)` for one character, with the text before it.
abbrev pub drop_last : Text → Text
drop_last [] = []
drop_last (c ∷ []) = []
drop_last (c ∷ d ∷ s) = c ∷ drop_last (d ∷ s)

abbrev pub ends_with_char : ℕ → Text → Bool
ends_with_char e [] = false
ends_with_char e (c ∷ []) = c == e
ends_with_char e (c ∷ d ∷ s) = ends_with_char e (d ∷ s)

count_char : ℕ → Text → ℕ
count_char e [] = 0
count_char e (c ∷ s) = if c == e then suc (count_char e s) else count_char e s

-- `detail[1:-1].strip()` where the detail is one block in braces.
unbraced : Text → Text
unfolding count_char
unbraced detail =
    if starts_with (b'{' ∷ []) detail && ends_with_char b'}' detail && count_char b'{' detail == 1
    then strip (drop_last (drop 1 detail))
    else detail

unfoldable pub hoppie_error_detail : Text → Option Text
unfolding unbraced
hoppie_error_detail raw =
    let body = strip raw in
    if not (starts_with error_word (lower body))
    then none
    else some (text_or (unbraced (strip (drop 5 body))) no_detail)

unfoldable pub hoppie_error_label : Text → Text
hoppie_error_label detail =
    let low = lower detail in
    let cleaned = join (b' ' ∷ []) (words detail) in
    if contains (codes "invalid logon") low
      || contains (codes "logon code") low
      || (contains (codes "logon") low && contains (codes "accept") low)
    then codes "Hoppie rejected logon"
    else if contains (codes "callsign already in use") low
    then codes "Hoppie callsign in use"
    else if contains (codes "no from") low
    then codes "Hoppie missing callsign"
    else if is_empty cleaned
    then codes "Hoppie error"
    else codes "Hoppie: " ++ take 42 cleaned

-- `s.replace("\r\n", "\n")`.
replace_crlf : Text → Text
replace_crlf [] = []
replace_crlf (c ∷ []) = c ∷ []
replace_crlf (c ∷ d ∷ s) =
    let past_pair = b'\n' ∷ replace_crlf s in
    let past_one = c ∷ replace_crlf (d ∷ s) in if c == 13 && d == b'\n' then past_pair else past_one

-- `while lines and lines[-1] == "": lines.pop()`.
keep_line : Text → List Text → List Text
keep_line [] [] = []
keep_line (c ∷ s) [] = (c ∷ s) ∷ []
keep_line s (r ∷ rs) = s ∷ r ∷ rs

pop_blank_lines : List Text → List Text
unfolding keep_line
pop_blank_lines [] = []
pop_blank_lines (s ∷ lines) = keep_line s (pop_blank_lines lines)

-- Line ends as `\n`, no space at the end of a line, no blank lines at the end.
unfoldable pub unify_newlines : Text → Text
unfolding replace_crlf
unify_newlines s = replace_char 13 (b'\n' ∷ []) (replace_crlf s)

unfoldable pub tidy_lines : Text → Text
unfolding pop_blank_lines
tidy_lines body = join (b'\n' ∷ []) (pop_blank_lines (map rstrip (split_on b'\n' body)))

unfoldable pub normalize_body : Text → MessageType → Text
unfolding unify_newlines tidy_lines
normalize_body packet message_type =
    let body = unify_newlines packet in
    scrub_message_body
      (tidy_lines (if is_cpdlc message_type then expand_cpdlc_at_marks body else body))

unfoldable pub push_head : ℕ → Option (Text × Text) → Option (Text × Text)
push_head c none = none
push_head c (some (head, tail)) = some (c ∷ head, tail)

-- `block.partition(" {")`: the head, and the rest where the separator stands.
unfoldable pub partition_head : Text → Option (Text × Text)
unfolding push_head
partition_head [] = none
partition_head (c ∷ s) =
    let later = push_head c (partition_head s) in
    if c == b' ' && starts_with (b'{' ∷ []) s then some ([], drop 1 s) else later

-- The block without an id of digits in front.
unfoldable pub drop_id : Text → List Text → Text
drop_id block (id ∷ rest ∷ []) = if not (is_empty id) && all is_digit id then rest else block
drop_id block _ = block

abbrev opt_text : Text → Option Text
opt_text [] = none
opt_text (c ∷ s) = some (c ∷ s)

-- The message of a CPDLC packet, or of one that does not parse.
with_cpdlc : HoppieMessage → Result CpdlcPacket → HoppieMessage
with_cpdlc m (raise e) = m
with_cpdlc m (ok p) = record m {
  normalized_body = display_text p;
  min = p.min;
  mrn = p.mrn;
  ra = some p.ra;
}

unfoldable pub build_message : Text → Text → Text → Text → Text → HoppieMessage
unfolding with_cpdlc
build_message callsign block sender type_raw packet =
    let message_type = from_hoppie type_raw in
    let plain : HoppieMessage = record {
      callsign = upper callsign;
      sender = opt_text sender;
      recipient = some (upper callsign);
      message_type = message_type;
      raw_payload = b'{' ∷ (block ++ b'}' ∷ []);
      normalized_body = normalize_body packet message_type;
      min = none;
      mrn = none;
      ra = none;
    } in
    if is_cpdlc message_type then with_cpdlc plain (parse packet) else plain

-- `head.split(None, 1)` into the sender and the type.
unfoldable pub head_message : Text → Text → Text → List Text → Option HoppieMessage
head_message callsign block packet (sender ∷ type_raw ∷ []) =
    some (build_message callsign block sender type_raw packet)
head_message callsign block packet _ = none

unfoldable pub parts_message : Text → Text → Option (Text × Text) → Option HoppieMessage
parts_message callsign block none = none
parts_message callsign block (some (head, packet_with_brace)) =
    if not (ends_with_char b'}' block)
    then none
    else head_message callsign block (drop_last packet_with_brace) (split_first head)

unfoldable pub parse_block : Text → Text → Option HoppieMessage
parse_block raw callsign =
    let block = strip raw in
    let body = drop_id block (split_first block) in
    parts_message callsign body (partition_head body)

-- `if parsed is not None: messages.append(parsed)`.
abbrev push_message : Option HoppieMessage → List HoppieMessage → List HoppieMessage
push_message none ms = ms
push_message (some m) ms = m ∷ ms

unfoldable pub parse_blocks : Text → List Text → List HoppieMessage
parse_blocks callsign [] = []
parse_blocks callsign (b ∷ bs) = push_message (parse_block b callsign) (parse_blocks callsign bs)

unfoldable pub parse_response : Text → Text → Result (List HoppieMessage)
parse_response raw callsign =
    let body = strip raw in
    let detail = strip (drop 5 body) in
    let remainder = lstrip (drop 2 body) in
    if is_empty body
    then raise (hoppie_error (codes "Empty Hoppie response."))
    else if starts_with error_word (lower body)
    then (if contains (codes "callsign already in use") (lower detail)
        then raise (callsign_in_use (text_or detail (codes "callsign already in use")))
        else raise (hoppie_error (text_or detail no_detail)))
    else if not (starts_with (codes "ok") (lower body))
    then raise (hoppie_error (codes "Malformed Hoppie response: missing ok/error status."))
    else if is_empty remainder
    then ok []
    else do blocks ← extract_blocks remainder; ok (parse_blocks callsign blocks)
