-- ===== src/Printing/Wrap.antt =====
-- `ThermalMessageFormatter._wrap_lines` of src/acars_bridge/printing/formatter.py, for a positive
-- width: the step of `range` is the width, and `range` refuses a step of zero.
pub mod Fits
pub mod Ink
use acars_printer.Prelude.{
  ℕ, zero, suc, List, [], ◌∷◌, ◌++◌, leb, ltb, length, take, drop, if◌then◌else◌,
}
use acars_printer.Text.{Text, is_empty, rstrip, space_runs, is_space_text}

pub record Rows : Type 0 where
  pub rows : List Text
  pub current : Text

-- `token[i : i + width]` for each `i` of `range(0, len(token), width)`, on fuel.
chunks : ℕ → ℕ → Text → List Text
chunks zero width token = []
chunks (suc fuel) width token =
    let rest = chunks fuel width (drop width token) in
    if is_empty token then [] else take width token ∷ rest

-- `if current: rows.append(current.rstrip())`.
abbrev close_row : List Text → Text → List Text
close_row rows current = if is_empty current then rows else rows ++ rstrip current ∷ []

unfoldable pub wrap_token : ℕ → Text → Rows → Rows
unfolding chunks
wrap_token width token r =
    if is_empty token
    then r
    else if is_space_text token
    then record r { current = if is_empty r.current then r.current else r.current ++ token }
    else if ltb width (length token)
    then record {
      rows = close_row r.rows r.current ++ chunks (length token) width token;
      current = [];
    }
    else let candidate = if is_empty r.current then token else r.current ++ token in
      if leb (length (rstrip candidate)) width
      then record r { current = candidate }
      else record { rows = close_row r.rows r.current; current = token }

unfoldable pub wrap_tokens : ℕ → List Text → Rows → Rows
unfolding wrap_token
wrap_tokens width [] r = r
wrap_tokens width (t ∷ ts) r = wrap_tokens width ts (wrap_token width t r)

-- `rows or [""]`.
abbrev or_blank : List Text → List Text
or_blank [] = [] ∷ []
or_blank (r ∷ rows) = r ∷ rows

-- The rows once the tokens have run out.
finish_rows : Rows → List Text
finish_rows r = or_blank (close_row r.rows r.current)

unfoldable pub wrap_lines : ℕ → Text → List Text
unfolding wrap_tokens finish_rows
wrap_lines width line =
    if is_empty line
    then [] ∷ []
    else if leb (length line) width
    then line ∷ []
    else finish_rows (wrap_tokens width (space_runs line) (record { rows = []; current = [] }))
