-- ===== src/Text/Lines.antt =====
-- `split` and `join` on a one-character separator, and `partition`.
use acars_printer.Prelude.{ℕ, List, [], ◌∷◌, ◌++◌, Bool, true, false, ◌==◌, if◌then◌else◌}
use acars_printer.Text.Chars.{Text}

-- Put a character in front of the first piece.
abbrev pub onto_first : ℕ → List Text → List Text
onto_first c [] = (c ∷ []) ∷ []
onto_first c (p ∷ ps) = (c ∷ p) ∷ ps

-- `s.split(sep)`: never the empty list.
unfoldable pub split_on : ℕ → Text → List Text
split_on sep [] = [] ∷ []
split_on sep (c ∷ s) =
    let rest = split_on sep s in if c == sep then [] ∷ rest else onto_first c rest

-- `sep.join(parts)`.
unfoldable pub join : Text → List Text → Text
join sep [] = []
join sep (p ∷ []) = p
join sep (p ∷ q ∷ ps) = p ++ (sep ++ join sep (q ∷ ps))

-- `s.partition(sep)` on a one-character separator: head, whether it was there, and the tail.
unfoldable pub partition : ℕ → Text → Text × Bool × Text
partition sep [] = ([], false, [])
partition sep (c ∷ s) =
    let (head, found, tail) = partition sep s in
    if c == sep then ([], true, s) else (c ∷ head, found, tail)

-- `s.replace(c, d)` for one character by a text.
unfoldable pub replace_char : ℕ → Text → Text → Text
replace_char c d [] = []
replace_char c d (x ∷ s) = (if x == c then d else x ∷ []) ++ replace_char c d s
