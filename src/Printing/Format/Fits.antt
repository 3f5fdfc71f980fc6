-- ===== src/Printing/Format/Fits.antt =====
-- The strip of a message against the width of the paper.
use acars_printer.Prelude.{
  ℕ, ◌≤◌, ◌<◌, inl, inr, Option, none, some, List, [], ◌∷◌, ◌++◌, leb, length, take, length-take,
  All, All-append, Bool-cases, leb→le, arith, if◌then◌else◌, or_else,
}
use acars_printer.Text.{Text, codes, is_empty, upper, strip, split_on}
use acars_printer.Models.Messages.{StoredMessage}
use acars_printer.Printing.Wrap.{wrap_lines}
use acars_printer.Printing.Wrap.Fits.{Fits, wrap_lines-Fits}
use acars_printer.Printing.Format.{
  PrinterSettings, header_line, title_and_body, title_rows, wrap_all, strip_rows,
}

take_when_long-Fits :
    (width : ℕ) (line : Text)
    → Fits width (if leb (length line) width then line else take width line)
take_when_long-Fits width line = elim (Bool-cases (leb (length line) width)) [
  | inl short ↦ rw short (leb→le (length line) width short)
  | inr long ↦ rw long (length-take width line)
]

header_line-Fits :
    (stamp registration callsign : Text) (width : ℕ)
    → Fits width (header_line stamp registration callsign width)
unfolding header_line
header_line-Fits stamp registration callsign width =
    let left = if is_empty registration then codes "----" else registration ++ codes " ----" in
    let rest = if is_empty callsign then stamp else strip (callsign ++ (b' ' ∷ stamp)) in
    take_when_long-Fits width (left ++ (b' ' ∷ b' ' ∷ rest))

wrap_all-Fits :
    (width : ℕ) (lines : List Text) → 0 < width → All (Fits width) (wrap_all width lines)
wrap_all-Fits width [] w = tt
wrap_all-Fits width (line ∷ lines) w =
    All-append (Fits width) (wrap_lines width (upper line)) (wrap_all width lines)
      (wrap_lines-Fits width (upper line) w) (wrap_all-Fits width lines w)

title_rows-Fits :
    (width : ℕ) (title : Option Text) → 0 < width → All (Fits width) (title_rows width title)
title_rows-Fits width none w = unfold title_rows in tt
title_rows-Fits width (some title) w = elim (Bool-cases (is_empty title)) [
  | inl blank ↦ unfold title_rows in rw blank tt
  | inr some_title ↦
      let fit = wrap_lines-Fits width (upper title) w in unfold title_rows in rw some_title fit
]

-- On a strip that is at least as wide as its first row, eleven characters, no row is wider than the
-- strip: the header, the title, the body and the frame.
pub strip_rows-Fits :
    (width : ℕ) (stamp : Text) (m : StoredMessage) (settings : PrinterSettings)
    → 11 ≤ width
    → All (Fits width) (strip_rows width stamp m settings)
strip_rows-Fits width stamp m settings w =
    let (title, body) = title_and_body m in
    let registration = upper (strip (or_else settings.aircraft_registration [])) in
    let titled = title_rows-Fits width title (omega arith) in
    let lines = wrap_all-Fits width (split_on b'\n' body) (omega arith) in
    let frame_end : List Text = [] ∷ codes "ACARS END" ∷ [] ∷ [] in
    let last : All (Fits width) frame_end = (omega arith, (omega arith, (omega arith, tt))) in
    let rows =
      All-append (Fits width) (title_rows width title)
        (wrap_all width (split_on b'\n' body) ++ frame_end) titled
        (All-append (Fits width) (wrap_all width (split_on b'\n' body)) frame_end lines last) in
    let head = header_line-Fits stamp registration (upper (strip m.callsign)) width in
    unfold strip_rows in (w, (head, rows))
