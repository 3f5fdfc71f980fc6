-- ===== src/Tests/Strip.antt =====
-- Lines of a strip (src/acars_bridge/printing/formatter.py) at concrete widths.
use acars_printer.Prelude.{◌≡◌, refl, [], ◌∷◌, All, arith}
use acars_printer.Text.{Text, codes, is_space, rstrip, space_runs, is_space_text}
use acars_printer.Printing.Wrap.{wrap_lines, wrap_token}
use acars_printer.Printing.Wrap.Fits.{Fits, wrap_lines-Fits}
use acars_printer.Printing.Wrap.Ink.{ink, ink_all, ink_all-wrap_lines}

abbrev line : Text
line = codes "CLRD TO EDDM ABCDEFGHIJ"

wrap_lines-Fits_example : All (Fits 8) (wrap_lines 8 line)
wrap_lines-Fits_example = wrap_lines-Fits 8 line (omega arith)

ink_all-wrap_lines_example : ink_all (wrap_lines 8 line) ≡ ink line
ink_all-wrap_lines_example = ink_all-wrap_lines 8 line (omega arith)

four_rows : wrap_lines 8 line ≡ codes "CLRD TO" ∷ codes "EDDM" ∷ codes "ABCDEFGH" ∷ codes "IJ" ∷ []
unfolding wrap_lines wrap_token space_runs is_space rstrip is_space_text
four_rows = refl
