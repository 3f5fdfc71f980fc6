-- ===== src/Tap/Hosts.antt =====
-- `render_block`, `remove_tap_block` and `is_tap_installed` of src/acars_bridge/tap/hosts.py.
pub mod Removal
pub mod Restore
use acars_printer.Prelude.{
  ℕ, Bool, true, false, List, [], ◌∷◌, ◌++◌, map, not, ◌&&◌, ◌||◌, ◌==◌, leb, if◌then◌else◌,
}
use acars_printer.Text.{Text, codes, text_eq, strip, rstrip, contains, join, onto_first}

abbrev pub marker_begin : Text
marker_begin = codes "# acars-bridge-tap BEGIN"

abbrev pub marker_end : Text
marker_end = codes "# acars-bridge-tap END"

unfoldable pub is_tap_installed : Text → Bool
is_tap_installed body = contains marker_begin body && contains marker_end body

abbrev pub comment_line : Text
comment_line = codes "# Route ACARS upstream through ACARS Print Bridge (local forwarder)."

abbrev pub host_line : Text → Text → Text
host_line redirect_ip host = redirect_ip ++ (b' ' ∷ host)

unfoldable pub render_block : Text → List Text → Text
render_block redirect_ip hosts =
    join (b'\n' ∷ [])
      (marker_begin ∷ comment_line ∷ (map (host_line redirect_ip) hosts ++ marker_end ∷ []))
    ++ (b'\n' ∷ [])

-- A character that ends a line for `splitlines`.
unfoldable pub is_break : ℕ → Bool
is_break c = (leb 10 c && leb c 13) || (leb 28 c && leb c 30) || c == 133 || c == 8232 || c == 8233

-- `splitlines(keepends=True)`: a carriage return and a line feed end one line.
unfoldable pub lines_of : Text → List Text
lines_of [] = []
lines_of (c ∷ []) = (c ∷ []) ∷ []
lines_of (c ∷ d ∷ s) =
    let rest = lines_of (d ∷ s) in
    if is_break c && not (c == 13 && d == 10) then (c ∷ []) ∷ rest else onto_first c rest

-- The lines that are kept, while skipping or not.
unfoldable pub kept_lines : Bool → List Text → Text
kept_lines skipping [] = []
kept_lines skipping (line ∷ lines) =
    let after_begin = kept_lines true lines in
    let after_end = kept_lines false lines in
    if text_eq (strip line) marker_begin
    then after_begin
    else if text_eq (strip line) marker_end
    then after_end
    else if skipping
    then after_begin
    else line ++ after_end

unfoldable pub remove_tap_block : Text → Text
remove_tap_block text = kept_lines false (lines_of text)

unfoldable pub ends_line : Text → Bool
ends_line [] = false
ends_line (c ∷ []) = c == b'\n'
ends_line (c ∷ d ∷ s) = ends_line (d ∷ s)

-- What `install_tap_hosts` and `remove_tap_hosts` write, for the text of the file.
unfoldable pub install_tap_hosts : Text → List Text → Text → Text
install_tap_hosts redirect_ip hosts original =
    let cleaned = remove_tap_block original in
    (if ends_line cleaned then cleaned else cleaned ++ (b'\n' ∷ []))
    ++ (b'\n' ∷ render_block redirect_ip hosts)

unfoldable pub remove_tap_hosts : Text → Text
remove_tap_hosts original = rstrip (remove_tap_block original) ++ (b'\n' ∷ [])
