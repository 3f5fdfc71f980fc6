-- ===== src/Tap/Proxy/Patch.antt =====
-- `_patch_hoppie_credentials` of src/acars_bridge/tap/proxy.py and what it calls, with the reading of a
-- form. The coding of forms and of UTF-8 is the standard library's: a parameter.
pub mod Fields
use acars_printer.Prelude.{
  ℕ, Bool, true, false, Option, none, some, List, [], ◌∷◌, ◌++◌, length, map, any, not, ◌&&◌, ◌||◌,
  ◌==◌, if◌then◌else◌,
}
use acars_printer.Text.{
  Text, codes, is_empty, text_eq, one_of, lower, upper, strip, starts_with, contains, partition,
  split_on, join, to_decimal,
}
use acars_printer.Tap.Proxy.{Bytes, split_crlf, blank_line}

-- `parse_qsl`, `parse_qs`, `urlencode`, and the coding of text.
pub record Codec : Type 0 where
  pub parse_qsl : Text → List (Text × Text)
  pub parse_qs : Text → List (Text × List Text)
  pub urlencode : List (Text × Text) → Text
  pub decode_utf8 : Bytes → Text
  pub encode_utf8 : Text → Bytes

abbrev pub Form : Type 0
Form = List (Text × Text)

unfoldable pub field : Text → Form → Text
field key [] = []
field key ((k, v) ∷ form) = let rest = field key form in if text_eq k key then v else rest

unfoldable pub set_field : Text → Text → Form → Form
set_field key value [] = (key, value) ∷ []
set_field key value ((k, v) ∷ form) =
    let rest = set_field key value form in
    if text_eq k key then (k, value) ∷ form else (k, v) ∷ rest

first_value : List Text → Text
first_value [] = []
first_value (v ∷ vs) = v

lower_keys : List (Text × List Text) → Form → Form
unfolding first_value
lower_keys [] form = form
lower_keys ((k, vs) ∷ parsed) form = lower_keys parsed (set_field (lower k) (first_value vs) form)

-- `parse_form_body` of a text.
unfoldable pub parse_form_body : Codec → Text → Form
unfolding lower_keys
parse_form_body x text = lower_keys (x.parse_qs text) []

-- `_merge_form`: a value that is not empty wins.
unfoldable pub merge_form : Form → Form → Form
merge_form dst [] = dst
merge_form dst ((k, v) ∷ src) =
    merge_form (if is_empty v && not (is_empty (field k dst)) then dst else set_field k v dst) src

query_of : Codec → List Text → Form
query_of x (method ∷ path ∷ rest) =
    let (before, found, query) = partition b'?' path in
    if found then parse_form_body x query else []
query_of x _ = []

first_line : List Text → Text
first_line [] = []
first_line (line ∷ lines) = line

-- `_form_from_http`.
unfoldable pub form_from_http : Codec → Bytes → Bytes → Form
unfolding query_of first_line
form_from_http x head body =
    let form = merge_form [] (query_of x (split_on b' ' (first_line (split_crlf head)))) in
    if is_empty body then form else merge_form form (parse_form_body x (x.decode_utf8 body))

second : List Text → Text
second (method ∷ path ∷ rest) = path
second _ = []

-- `_request_path`.
unfoldable pub request_path : Bytes → Text
unfolding second first_line
request_path head = second (split_on b' ' (first_line (split_crlf head)))

unfoldable pub is_from : Text × Text → Bool
is_from (key, value) = text_eq (lower key) (codes "from")

unfoldable pub is_blank_from : Text × Text → Bool
unfolding is_from
is_blank_from (key, value) = is_from (key, value) && is_empty (strip value)

unfoldable pub fill_pair : Text → Text × Text → Text × Text
fill_pair fill (key, value) = if is_blank_from (key, value) then (key, fill) else (key, value)

unfoldable pub filled_pairs : Text → List (Text × Text) → List (Text × Text)
filled_pairs fill pairs =
    map (fill_pair fill) pairs ++ (if any is_from pairs then [] else (codes "from", fill) ∷ [])

-- A note for each field that is filled.
notes_for : Text → List (Text × Text) → List Text
notes_for fill [] = []
notes_for fill (p ∷ pairs) =
    let rest = notes_for fill pairs in
    if is_blank_from p then (codes "from=" ++ fill) ∷ rest else rest

unfoldable pub notes_of : Text → List (Text × Text) → List Text
unfolding notes_for
notes_of fill pairs =
    notes_for fill pairs ++ (if any is_from pairs then [] else (codes "from=" ++ fill) ∷ [])

abbrev pub no_notes : List Text → Bool
no_notes [] = true
no_notes (n ∷ notes) = false

-- `_form_patch_fields`, with a callsign to fill in.
unfoldable pub form_patch_fields : Codec → Text → Text → Text × List Text
form_patch_fields x fill urlencoded =
    let pairs = x.parse_qsl urlencoded in
    let notes = notes_of fill pairs in
    if is_empty urlencoded && length pairs == 0
    then (urlencoded, [])
    else if no_notes notes
    then (urlencoded, [])
    else (x.urlencode (filled_pairs fill pairs), notes)

patch_target : Codec → Text → Text → Text → List Text → Text → Text × List Text
patch_target x fill line method rest target =
    let (path, found, query) = partition b'?' target in
    let (new_query, notes) = form_patch_fields x fill query in
    if found && not (no_notes notes)
    then (join (b' ' ∷ []) (method ∷ (path ++ (b'?' ∷ new_query)) ∷ rest), notes)
    else (line, [])

patch_parts : Codec → Text → Text → List Text → Text × List Text
unfolding patch_target
patch_parts x fill line (method ∷ target ∷ rest) = patch_target x fill line method rest target
patch_parts x fill line _ = (line, [])

-- The request line.
unfoldable pub patch_line : Codec → Text → Text → Text × List Text
unfolding patch_parts
patch_line x fill line = patch_parts x fill line (split_on b' ' line)

-- The body, with its notes.
unfoldable pub patch_body : Codec → Text → Bytes → Bytes × List Text
patch_body x fill body =
    let text = x.decode_utf8 body in
    let (new_text, notes) = form_patch_fields x fill text in
    if is_empty body || not (contains (b'=' ∷ []) text) || no_notes notes
    then (body, [])
    else (x.encode_utf8 new_text, notes)

-- The notes of the body that are new.
new_notes : List Text → List Text → List Text
new_notes notes [] = notes
new_notes notes (n ∷ more) = new_notes (if one_of notes n then notes else notes ++ n ∷ []) more

unfoldable pub relabel : ℕ → Text → Text
relabel size line =
    if starts_with (codes "content-length:") (lower line)
    then codes "Content-Length: " ++ to_decimal size
    else line

abbrev is_line_end : ℕ → Bool
is_line_end c = c == b'\r' || c == b'\n'

drop_line_ends : Text → Text
drop_line_ends [] = []
drop_line_ends (c ∷ s) =
    let rest = drop_line_ends s in if is_empty rest && is_line_end c then [] else c ∷ rest

keep_line : Text → List Text → List Text
keep_line line [] = if is_empty line then [] else line ∷ []
keep_line line (next ∷ lines) = line ∷ next ∷ lines

drop_empty_ends : List Text → List Text
unfolding keep_line
drop_empty_ends [] = []
drop_empty_ends (line ∷ lines) = keep_line line (drop_empty_ends lines)

ends_blank : Text → Bool
ends_blank [] = false
ends_blank (c ∷ s) = text_eq (c ∷ s) blank_line || ends_blank s

-- The lines of a head, without the blank ones that end it.
unfoldable pub head_lines : Bytes → List Text
unfolding drop_empty_ends ends_blank drop_line_ends
head_lines head =
    drop_empty_ends
      (split_crlf (if ends_blank head then head else drop_line_ends head ++ blank_line))

-- The head and the body that go on, with the notes.
pub record Patched : Type 0 where
  pub head : Bytes
  pub body : Bytes
  pub notes : List Text

patched_lines : Codec → Text → Bytes → Bytes → List Text → Patched
unfolding new_notes
patched_lines x fill head body [] = record { head = head; body = body; notes = [] }
patched_lines x fill head body (first ∷ lines) =
    let (new_first, line_notes) = patch_line x fill first in
    let (new_body, body_notes) = patch_body x fill body in
    if no_notes line_notes && no_notes body_notes
    then record { head = head; body = body; notes = [] }
    else record {
      head =
          join (b'\r' ∷ b'\n' ∷ [])
            (new_first ∷ map (relabel (length new_body)) lines ++ ([] ∷ [] ∷ []));
      body = new_body;
      notes = new_notes line_notes body_notes;
    }

-- `_patch_hoppie_credentials`.
unfoldable pub patch_hoppie_credentials : Codec → Text → Bytes → Bytes → Patched
unfolding patched_lines
patch_hoppie_credentials x fill head body =
    if is_empty fill
    then record { head = head; body = body; notes = [] }
    else patched_lines x fill head body (head_lines head)
