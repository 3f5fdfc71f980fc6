-- ===== src/Hoppie/Sanitize.antt =====
-- `scrub_message_body` of src/acars_bridge/hoppie/sanitize.py. Each `re.sub` is a function: the
-- pattern of the vendor line has at most one match at a position, since its parts exclude each other.
use acars_printer.Prelude.{
  ℕ, zero, suc, ◌+◌, Bool, false, Option, none, some, [], ◌∷◌, ◌&&◌, ◌||◌, ◌==◌, leb, length, drop,
  if◌then◌else◌,
}
use acars_printer.Text.{Text, codes, upper, lstrip, strip, starts_with, span_word, is_empty}

-- The count of leading dots, and the rest.
leading_dots : Text → ℕ × Text
leading_dots [] = (0, [])
leading_dots (c ∷ s) =
    let (n, rest) = leading_dots s in if c == b'.' then (n + 1, rest) else (0, c ∷ s)

-- `\s*\.{2,}`.
dots_after_space : Text → Option Text
unfolding leading_dots
dots_after_space s = let (n, rest) = leading_dots (lstrip s) in if leb 2 n then some rest else none

abbrev prefix : Text
prefix = codes "GENERATED BY PMDG USING "

abbrev suffix : Text
suffix = codes " DATA"

-- `(?:\s*\.{2,})?`.
abbrev after_dots : Text → Option Text → Text
after_dots s none = s
after_dots s (some rest) = rest

-- ` DATA(?:\s*\.{2,})?`, after the name of the network.
match_suffix : Text → Text → Option Text
unfolding dots_after_space
match_suffix network rest =
    let tail = drop (length suffix) rest in
    if is_empty network
    then none
    else if starts_with suffix (upper rest)
    then some (after_dots tail (dots_after_space tail))
    else none

-- `GENERATED BY PMDG USING \S+ DATA(?:\s*\.{2,})?`, with no regard to case.
match_line : Text → Option Text
unfolding match_suffix
match_line s =
    let (network, rest) = span_word (drop (length prefix) s) in
    if starts_with prefix (upper s) then match_suffix network rest else none

first_of_two : Option Text → Option Text → Option Text
first_of_two none other = other
first_of_two (some rest) other = some rest

match_after : Option Text → Option Text
unfolding match_line
match_after none = none
match_after (some rest) = match_line (lstrip rest)

-- `_PMDG_NETWORK_NOISE` at this position: what follows the match.
unfoldable pub match_noise : Text → Option Text
unfolding match_line match_after first_of_two dots_after_space
match_noise s = first_of_two (match_after (dots_after_space s)) (match_line s)

-- `_PMDG_NETWORK_NOISE.sub(" ", text)`, on fuel: a match is never empty.
replace_noise : ℕ → Text → Text
unfolding match_noise
replace_noise zero s = s
replace_noise (suc fuel) [] = []
replace_noise (suc fuel) (c ∷ s) = elim (match_noise (c ∷ s)) [
  | none ↦ c ∷ replace_noise fuel s
  | some rest ↦ b' ' ∷ replace_noise fuel rest
]

is_blank : ℕ → Bool
is_blank c = c == b' ' || c == 9

starts_blank : Text → Bool
unfolding is_blank
starts_blank [] = false
starts_blank (c ∷ s) = is_blank c

-- `re.sub(r"[ \t]{2,}", " ", s)`.
unfoldable pub collapse_blanks : Text → Text
unfolding is_blank starts_blank
collapse_blanks [] = []
collapse_blanks (c ∷ s) =
    let rest = collapse_blanks s in
    if is_blank c && starts_blank s then b' ' ∷ drop 1 rest else c ∷ rest

drop_spaces : Text → Text
drop_spaces [] = []
drop_spaces (c ∷ s) = let rest = drop_spaces s in if c == b' ' then rest else c ∷ s

-- `re.sub(r" *\n *", "\n", s)`.
unfoldable pub trim_newlines : Text → Text
unfolding drop_spaces
trim_newlines [] = []
trim_newlines (c ∷ s) =
    let rest = trim_newlines s in
    if c == b'\n'
    then c ∷ drop_spaces rest
    else if c == b' ' && starts_with (b'\n' ∷ []) rest
    then rest
    else c ∷ rest

unfoldable pub scrub_message_body : Text → Text
unfolding replace_noise
scrub_message_body s = strip (trim_newlines (collapse_blanks (replace_noise (suc (length s)) s)))
