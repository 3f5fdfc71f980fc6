-- ===== src/Printing/Format.antt =====
-- `ThermalMessageFormatter.format` of src/acars_bridge/printing/formatter.py and
-- `PrinterSettings.characters_per_line` of src/acars_bridge/printing/base.py. The stamp of the header
-- is an argument: the time of the message, as `strftime` writes it.
pub mod Fits
use acars_printer.Prelude.{
  ℕ, ◌/◌, Bool, true, false, Option, none, some, List, [], ◌∷◌, ◌++◌, map, not, ◌&&◌, ◌||◌, leb,
  ltb, length, take, max, or_else, is_some, if◌then◌else◌,
}
use acars_printer.Text.{
  Text, codes, is_empty, text_eq, one_of, contains, upper, strip, rstrip, split_on, partition, join,
  words,
}
use acars_printer.Hoppie.Sanitize.{scrub_message_body}
use acars_printer.Hoppie.AtisText.{
  atis_reply_unavailable, inforeq_request_label, inforeq_station_title,
}
use acars_printer.Models.Messages.{StoredMessage}
use acars_printer.Printing.Wrap.{wrap_lines}

-- The settings that the layout and the print manager read. `bitmap_columns` is what
-- `columns_for_bitmap` returns for them.
pub record PrinterSettings : Type 0 where
  pub destination : Text
  pub paper_width : Text
  pub character_width_override : Option ℕ
  pub aircraft_registration : Option Text
  pub font : Text
  pub render_mode : Text
  pub char_width : ℕ
  pub bitmap_columns : ℕ
  pub pairing_url : Option Text

columns : PrinterSettings → ℕ
columns s =
    if ltb 0 (or_else s.character_width_override 0)
    then or_else s.character_width_override 0
    else if text_eq s.render_mode (codes "bitmap")
    then s.bitmap_columns
    else if text_eq s.font (codes "b")
    then (if text_eq s.paper_width (codes "58") then 42 else 64)
    else if text_eq s.paper_width (codes "58")
    then 32
    else 48

unfoldable pub characters_per_line : PrinterSettings → ℕ
unfolding columns
characters_per_line s =
    if text_eq s.render_mode (codes "native") && ltb 1 s.char_width
    then max 16 (columns s / s.char_width)
    else columns s

unfoldable pub header_line : Text → Text → Text → ℕ → Text
header_line stamp registration callsign width =
    let left = if is_empty registration then codes "----" else registration ++ codes " ----" in
    let rest = if is_empty callsign then stamp else strip (callsign ++ (b' ' ∷ stamp)) in
    let line = left ++ (b' ' ∷ b' ' ∷ rest) in
    if leb (length line) width then line else take width line

-- The first word of a label, and the last word of a title.
abbrev first_word : List Text → Text
first_word [] = []
first_word (w ∷ ws) = w

abbrev last_word : List Text → Text
last_word [] = []
last_word (w ∷ []) = w
last_word (w ∷ v ∷ ws) = last_word (v ∷ ws)

abbrev text_or : Text → Text → Text
text_or [] d = d
text_or (c ∷ s) d = c ∷ s

needs_station : Text → Text → Text → Bool
needs_station label title body =
    let icao = last_word (words title) in
    one_of (codes "METAR" ∷ codes "TAF" ∷ codes "SHORTTAF" ∷ codes "SHORTFAF" ∷ [])
      (first_word (words label))
    && not (is_empty icao)
    && not (contains icao (upper body))

repeats_title : Text → Text → Bool
repeats_title title head =
    contains (upper title) head
    || (leb 4 (length title)
        && contains (upper (take 4 title)) head
        && contains (codes "ATIS") head)

titled : Text → Text → Text → Option Text × Text
unfolding needs_station repeats_title
titled label title body =
    let (first, broken, rest) = partition b'\n' body in
    if repeats_title title (upper first)
    then (none, body)
    else if atis_reply_unavailable body || is_empty (strip body)
    then (some title, text_or body (codes "NOT AVAILABLE"))
    else if needs_station label title body
    then (some title, body)
    else (none, body)

station_titled : Text → Text → Option Text → Option Text × Text
unfolding titled
station_titled label body none = (none, body)
station_titled label body (some title) =
    if is_empty title then (none, body) else titled label title body

labelled : Text → Option Text → Option Text × Text
unfolding station_titled
labelled body none = (none, body)
labelled body (some label) =
    let (first, broken, rest) = partition b'\n' body in
    station_titled label (rstrip rest) (inforeq_station_title label)

unfoldable pub title_and_body : StoredMessage → Option Text × Text
unfolding labelled
title_and_body m =
    let body = scrub_message_body m.normalized_body in
    if text_eq m.message_type (codes "inforeq")
    then labelled body (inforeq_request_label body)
    else (none, body)

abbrev wrap_all : ℕ → List Text → List Text
wrap_all width [] = []
wrap_all width (line ∷ lines) = wrap_lines width (upper line) ++ wrap_all width lines

title_rows : ℕ → Option Text → List Text
title_rows width none = []
title_rows width (some title) = if is_empty title then [] else wrap_lines width (upper title)

-- The rows that `format` joins, for a width.
unfoldable pub strip_rows : ℕ → Text → StoredMessage → PrinterSettings → List Text
unfolding title_rows
strip_rows width stamp m settings =
    let (title, body) = title_and_body m in
    let registration = upper (strip (or_else settings.aircraft_registration [])) in
    codes "ACARS BEGIN"
    ∷ header_line stamp registration (upper (strip m.callsign)) width
    ∷ (title_rows width title
        ++ (wrap_all width (split_on b'\n' body) ++ ([] ∷ codes "ACARS END" ∷ [] ∷ [])))

unfoldable pub format : Text → StoredMessage → PrinterSettings → Text
format stamp m settings =
    join (b'\n' ∷ []) (strip_rows (characters_per_line settings) stamp m settings)
