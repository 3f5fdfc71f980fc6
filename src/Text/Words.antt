-- ===== src/Text/Words.antt =====
-- The runs of `re.split(r"(\s+)", …)`, `split()` and `split(None, 1)`.
use acars_printer.Prelude.{ℕ, List, [], ◌∷◌, Bool, false, eqb, if◌then◌else◌, all}
use acars_printer.Text.Chars.{Text, is_space, is_empty, lstrip}

-- A character in front of the runs: it joins the first one if that is of its kind.
unfoldable pub push_run : ℕ → List Text → List Text
push_run c [] = (c ∷ []) ∷ []
push_run c ([] ∷ runs) = (c ∷ []) ∷ runs
push_run c ((d ∷ run) ∷ runs) =
    if eqb (is_space c) (is_space d) then (c ∷ d ∷ run) ∷ runs else (c ∷ []) ∷ (d ∷ run) ∷ runs

-- The longest runs of space and of other characters, in order.
unfoldable pub space_runs : Text → List Text
unfolding push_run
space_runs [] = []
space_runs (c ∷ s) = push_run c (space_runs s)

-- `token.isspace()`: some character, and all of them space.
unfoldable pub is_space_text : Text → Bool
is_space_text [] = false
is_space_text (c ∷ s) = all is_space (c ∷ s)

unfoldable pub drop_space_runs : List Text → List Text
drop_space_runs [] = []
drop_space_runs (r ∷ runs) =
    let rest = drop_space_runs runs in if is_space_text r then rest else r ∷ rest

-- `s.split()`.
unfoldable pub words : Text → List Text
unfolding drop_space_runs space_runs
words s = drop_space_runs (space_runs s)

-- The first word of a text that does not begin with space, and what follows it.
unfoldable pub span_word : Text → Text × Text
span_word [] = ([], [])
span_word (c ∷ s) =
    let (word, rest) = span_word s in if is_space c then ([], c ∷ s) else (c ∷ word, rest)

-- `s.split(None, 1)`: no, one or two parts.
unfoldable pub two_parts : Text → Text → List Text
two_parts word tail =
    if is_empty word then [] else if is_empty tail then word ∷ [] else word ∷ tail ∷ []

unfoldable pub split_first : Text → List Text
unfolding two_parts
split_first s = let (word, rest) = span_word (lstrip s) in two_parts word (lstrip rest)
