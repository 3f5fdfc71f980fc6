-- ===== src/Text/Chars.antt =====
-- Code points and the methods of `str` that look at one character after the other.
use Prim.Native.Char.{code}
use acars_printer.Prelude.{
  refl, ℕ, ◌+◌, ◌-◌, String, Bool, true, false, List, [], ◌∷◌, map, ◌&&◌, ◌||◌, ◌≡◌, ◌↔◌, leb, ◌==◌,
  if◌then◌else◌, arith, any,
}

abbrev pub Text : Type 0
Text = List ℕ

-- The code points of a literal.
abbrev pub codes : String → Text
codes String.[] = []
codes (String.◌∷◌ c s) = code c ∷ codes s

-- `str.isspace` of one character, which is also `\s` of a regular expression.
unfoldable pub is_space : ℕ → Bool
is_space c =
    (leb 9 c && leb c 13)
    || (leb 28 c && leb c 32)
    || c == 133
    || c == 160
    || c == 5760
    || (leb 8192 c && leb c 8202)
    || c == 8232
    || c == 8233
    || c == 8239
    || c == 8287
    || c == 12288

unfoldable pub is_digit : ℕ → Bool
is_digit c = leb b'0' c && leb c b'9'

unfoldable pub is_upper : ℕ → Bool
is_upper c = leb b'A' c && leb c b'Z'

unfoldable pub is_lower : ℕ → Bool
is_lower c = leb b'a' c && leb c b'z'

unfoldable pub is_alpha : ℕ → Bool
unfolding is_upper is_lower
is_alpha c = is_upper c || is_lower c

-- A character of `\w`.
unfoldable pub is_word : ℕ → Bool
unfolding is_alpha is_digit
is_word c = is_alpha c || is_digit c || c == b'_'

unfoldable pub upper_char : ℕ → ℕ
unfolding is_lower
upper_char c = if is_lower c then c - 32 else c

unfoldable pub lower_char : ℕ → ℕ
unfolding is_upper
lower_char c = if is_upper c then c + 32 else c

unfoldable pub upper : Text → Text
unfolding upper_char
upper = map upper_char

unfoldable pub lower : Text → Text
unfolding lower_char
lower = map lower_char

abbrev pub is_empty : Text → Bool
is_empty [] = true
is_empty (c ∷ s) = false

unfoldable pub lstrip : Text → Text
lstrip [] = []
lstrip (c ∷ s) = let rest = lstrip s in if is_space c then rest else c ∷ s

-- A trailing run of space goes: the rest decides whether a space is trailing.
keep_space : ℕ → Text → Text
keep_space c [] = if is_space c then [] else c ∷ []
keep_space c (d ∷ s) = c ∷ d ∷ s

unfoldable pub rstrip : Text → Text
unfolding keep_space
rstrip [] = []
rstrip (c ∷ s) = keep_space c (rstrip s)

unfoldable pub strip : Text → Text
unfolding lstrip rstrip
strip s = rstrip (lstrip s)

unfoldable pub text_eq : Text → Text → Bool
text_eq [] [] = true
text_eq [] (y ∷ t) = false
text_eq (x ∷ s) [] = false
text_eq (x ∷ s) (y ∷ t) = x == y && text_eq s t

unfoldable pub starts_with : Text → Text → Bool
starts_with [] s = true
starts_with (x ∷ p) [] = false
starts_with (x ∷ p) (y ∷ s) = x == y && starts_with p s

-- `p in s`.
unfoldable pub contains : Text → Text → Bool
unfolding starts_with
contains p [] = starts_with p []
contains p (c ∷ s) = starts_with p (c ∷ s) || contains p s

-- `s in {a, b, …}`.
abbrev pub one_of : List Text → Text → Bool
one_of choices s = any (text_eq s) choices

pub text_eq_sym : (s t : Text) → text_eq s t ≡ text_eq t s
unfolding text_eq
text_eq_sym [] [] = refl
text_eq_sym [] (y ∷ t) = refl
text_eq_sym (x ∷ s) [] = refl
text_eq_sym (x ∷ s) (y ∷ t) = ground (arith, text_eq_sym s t)

pub text_eq_iff : (s t : Text) → (text_eq s t ≡ true) ↔ (s ≡ t)
unfolding text_eq
text_eq_iff [] [] = ground arith
text_eq_iff [] (y ∷ t) = ground arith
text_eq_iff (x ∷ s) [] = ground arith
text_eq_iff (x ∷ s) (y ∷ t) = ground (arith, text_eq_iff s t)
