-- ===== src/Hoppie/AtisText.antt =====
-- src/acars_bridge/hoppie/atis_text.py: replies to ATIS requests. `_STATION_RE` has at most one match
-- at a position, since no part of it can give back a character to the next one.
use acars_printer.Prelude.{
  ℕ, Bool, true, false, Option, none, some, List, [], ◌∷◌, ◌++◌, not, ◌&&◌, ◌||◌, ◌==◌, any, all,
  take, drop, length, leb, if◌then◌else◌,
}
use acars_printer.Text.{
  Text, codes, is_space, is_alpha, is_digit, is_word, is_empty, upper, strip, lstrip, starts_with,
  contains, text_eq, one_of, words, join, partition,
}

-- No character of a word at this place: `\b` after a character of a word.
abbrev pub word_ends : Text → Bool
word_ends [] = true
word_ends (c ∷ s) = not (is_word c)

abbrev request_kinds : List Text
request_kinds =
    codes "VATATIS"
    ∷ codes "METAR"
    ∷ codes "TAF"
    ∷ codes "SHORTTAF"
    ∷ codes "SHORTFAF"
    ∷ codes "ATIS"
    ∷ []

-- `_REQ_LINE_RE.match`.
unfoldable pub is_request_line : Text → Bool
is_request_line s =
    any (λ kind. starts_with kind (upper s) && word_ends (drop (length kind) s)) request_kinds

-- `" ".join(s.upper().split())`.
abbrev compact_text : Text → Text
compact_text s = join (b' ' ∷ []) (words (upper s))

says_unavailable : Text → Bool
says_unavailable compact =
    contains (codes "ATIS IS NOT AVAILABLE") compact
    || contains (codes "NO VATSIM ATIS AVAILABLE") compact
    || one_of (codes "NOT AVAILABLE" ∷ codes "NO ATIS AVAILABLE" ∷ []) compact

unfoldable pub atis_reply_unavailable : Text → Bool
unfolding says_unavailable
atis_reply_unavailable body =
    let (first, broken, rest) = partition b'\n' body in
    says_unavailable (compact_text (if broken && is_request_line (strip first) then rest else body))

is_name_char : ℕ → Bool
is_name_char c = is_alpha c || is_digit c

drop_name : Text → Text
unfolding is_name_char
drop_name [] = []
drop_name (c ∷ s) = let rest = drop_name s in if is_name_char c then rest else c ∷ s

-- `(?:_[A-Z0-9]+)?\b`, after the four letters.
station_ends : Text → Bool
unfolding drop_name is_name_char
station_ends (c ∷ d ∷ s) =
    if c == b'_' then is_name_char d && word_ends (drop_name s) else not (is_word c)
station_ends s = word_ends s

-- `\s+([A-Z]{4})(?:_[A-Z0-9]+)?\b`: the four letters.
match_airport : Text → Option Text
unfolding station_ends
match_airport [] = none
match_airport (c ∷ s) =
    let name = lstrip s in
    if is_space c
      && leb 4 (length (take 4 name))
      && all is_alpha (take 4 name)
      && station_ends (drop 4 name)
    then some (upper (take 4 name))
    else none

match_station : Text → Option Text
unfolding match_airport
match_station s =
    if starts_with (codes "VATATIS") (upper s)
    then match_airport (drop 7 s)
    else if starts_with (codes "ATIS") (upper s)
    then match_airport (drop 4 s)
    else none

first_found : Option Text → Option Text → Option Text
first_found none other = other
first_found (some a) other = some a

-- `_STATION_RE.search`, after a character that is of a word or not.
unfoldable pub search_station : Bool → Text → Option Text
unfolding first_found match_station
search_station in_word [] = none
search_station in_word (c ∷ s) =
    let later = search_station (is_word c) s in
    if in_word then later else first_found (match_station (c ∷ s)) later

unfoldable pub vatatis_airport_key : Text → Option Text
unfolding first_found
vatatis_airport_key body =
    first_found (search_station false (partition b'\n' body).0) (search_station false body)

unfoldable pub inforeq_request_label : Text → Option Text
inforeq_request_label body =
    let (first, broken, rest) = partition b'\n' body in
    let label = strip first in
    if not broken || is_empty label || not (is_request_line label) then none else some (upper label)

atis_title : Text → Text → Text
atis_title icao suffix =
    if is_empty icao
    then codes "ATIS"
    else if text_eq suffix (codes "D")
    then icao ++ codes " DEP ATIS"
    else if text_eq suffix (codes "A")
    then icao ++ codes " ARR ATIS"
    else icao ++ codes " ATIS"

abbrev second_word : List Text → Text
second_word [] = []
second_word (station ∷ parts) = station

some_text : Text → Option Text
some_text [] = none
some_text (c ∷ s) = some (c ∷ s)

title_of : Text → List Text → Option Text
unfolding atis_title some_text
title_of label [] = none
title_of label (kind ∷ parts) =
    let (before, found, after) = partition b'_' (second_word parts) in
    let icao = strip before in
    if one_of (codes "VATATIS" ∷ codes "ATIS" ∷ []) kind
    then some (atis_title icao (strip after))
    else if one_of (codes "METAR" ∷ codes "TAF" ∷ codes "SHORTTAF" ∷ codes "SHORTFAF" ∷ []) kind
    then some (if is_empty icao then kind else strip (kind ++ (b' ' ∷ icao)))
    else some_text (upper (strip label))

unfoldable pub inforeq_station_title : Text → Option Text
unfolding title_of
inforeq_station_title label = title_of label (words (upper label))
