-- ===== src/Text/Number.antt =====
-- `int(s)` of a text that may be no number, and `str(n)` of an integer.
use acars_printer.Prelude.{
  ℕ, zero, suc, ◌+◌, ◌-◌, ◌*◌, ◌≡◌, refl, ◌∙◌, ap, sym, Bool-cases, inl, inr, Bool, true, false,
  Option, none, some, [], ◌∷◌, not, ◌&&◌, ◌||◌, ◌==◌, all, arith, if◌then◌else◌,
}
use acars_printer.Text.Chars.{
  Text, text_eq, text_eq_iff, is_digit, is_space, is_empty, strip, lstrip, rstrip,
}
use acars_printer.Text.Decimal.{
  to_decimal, of_decimal, decimal_from, of_decimal-to_decimal, to_decimal-is_digit,
  is_empty-to_decimal,
}
use acars_printer.Prelude.Int.{ℤ}

-- Digits, where one underscore may stand between two; the flag says whether a digit came just before.
is_number : Bool → Text → Bool
is_number after_digit [] = after_digit
is_number after_digit (c ∷ s) =
    (is_digit c || (c == b'_' && after_digit)) && is_number (is_digit c) s

value_from : ℕ → Text → ℕ
value_from acc [] = acc
value_from acc (c ∷ s) = value_from (if is_digit c then acc * 10 + (c - 48) else acc) s

magnitude : Text → Option ℕ
magnitude s = if is_number false s then some (value_from 0 s) else none

positive : Option ℕ → Option ℤ
positive none = none
positive (some n) = some (ℤ.pos n)

negated : Option ℕ → Option ℤ
negated none = none
negated (some zero) = some (ℤ.pos 0)
negated (some (suc n)) = some (ℤ.negsuc n)

signed : Text → Option ℤ
signed [] = none
signed (c ∷ s) =
    if c == b'-'
    then negated (magnitude s)
    else if c == b'+'
    then positive (magnitude s)
    else positive (magnitude (c ∷ s))

-- `int(s)`; `none` stands for its `ValueError`.
unfoldable pub int_of_text : Text → Option ℤ
unfolding signed magnitude is_number value_from positive negated
int_of_text s = signed (strip s)

-- `str(n)`.
unfoldable pub text_of_int : ℤ → Text
text_of_int (ℤ.pos n) = to_decimal n
text_of_int (ℤ.negsuc n) = b'-' ∷ to_decimal (suc n)

is_number-digits :
    (b : Bool) (s : Text) → all is_digit s ≡ true → is_number b s ≡ (b || not (is_empty s))
unfolding is_number
is_number-digits true [] h = refl
is_number-digits false [] h = refl
is_number-digits b (c ∷ s) h = ground (arith, is_number-digits true s)

value_from-digits :
    (acc : ℕ) (s : Text) → all is_digit s ≡ true → value_from acc s ≡ decimal_from acc s
unfolding value_from decimal_from
value_from-digits acc [] h = refl
value_from-digits acc (c ∷ s) h = ground (arith, value_from-digits (acc * 10 + (c - 48)) s)

magnitude-to_decimal : (n : ℕ) → magnitude (to_decimal n) ≡ some n
unfolding magnitude of_decimal
magnitude-to_decimal n =
    let number = is_number-digits false (to_decimal n) (to_decimal-is_digit n) in
    let value = value_from-digits 0 (to_decimal n) (to_decimal-is_digit n) in
    let read = of_decimal-to_decimal n in
    let filled = is_empty-to_decimal n in rw (number, filled) (ap some (value ∙ read))

-- A text of digits, after a sign or not, has no space to strip.
pub rstrip-solid : (s : Text) → all (λ c. not (is_space c)) s ≡ true → rstrip s ≡ s
unfolding rstrip
rstrip-solid [] h = refl
rstrip-solid (c ∷ []) h = ground arith
rstrip-solid (c ∷ d ∷ s) h = let rest = rstrip-solid (d ∷ s) in ground (arith, rest)

pub strip-solid : (s : Text) → all (λ c. not (is_space c)) s ≡ true → strip s ≡ s
unfolding strip lstrip
strip-solid [] h = refl
strip-solid (c ∷ s) h = let whole = rstrip-solid (c ∷ s) h in ground arith

digit-is_space : (c : ℕ) → is_digit c ≡ true → is_space c ≡ false
unfolding is_digit is_space
digit-is_space c h = ground arith

solid-digits : (s : Text) → all is_digit s ≡ true → all (λ c. not (is_space c)) s ≡ true
solid-digits [] h = refl
solid-digits (c ∷ s) h = ground (arith, solid-digits s, digit-is_space c)

signed-digits :
    (s : Text) → all is_digit s ≡ true → is_empty s ≡ false → signed s ≡ positive (magnitude s)
unfolding signed is_digit
signed-digits [] h e = ground arith
signed-digits (c ∷ s) h e = ground arith

-- `int(str(n))` is `n`.
pub int_of_text-text_of_int : (n : ℤ) → int_of_text (text_of_int n) ≡ some n
unfolding int_of_text text_of_int signed positive negated
int_of_text-text_of_int (ℤ.pos n) =
    let digits = to_decimal-is_digit n in
    let solid = strip-solid (to_decimal n) (solid-digits (to_decimal n) digits) in
    let unsigned = signed-digits (to_decimal n) digits (is_empty-to_decimal n) in
    ap signed solid ∙ unsigned ∙ ap positive (magnitude-to_decimal n)
int_of_text-text_of_int (ℤ.negsuc n) =
    let digits = to_decimal-is_digit (suc n) in
    let solid : strip (b'-' ∷ to_decimal (suc n)) ≡ b'-' ∷ to_decimal (suc n) = strip-solid _ (
      let d = solid-digits _ digits in
      let dash : is_space b'-' ≡ false = unfold is_space in refl in rw (dash, d)) in
    ap signed solid ∙ ap negated (magnitude-to_decimal (suc n))

pub strip-to_decimal : (n : ℕ) → strip (to_decimal n) ≡ to_decimal n
strip-to_decimal n =
    strip-solid (to_decimal n) (solid-digits (to_decimal n) (to_decimal-is_digit n))

pub int_of_text-to_decimal : (n : ℕ) → int_of_text (to_decimal n) ≡ some (ℤ.pos n)
unfolding text_of_int
int_of_text-to_decimal n = int_of_text-text_of_int (ℤ.pos n)

-- A number's text is not that of another one, nor a word.
pub to_decimal-other : (n m : ℕ) → text_eq (to_decimal n) (to_decimal m) ≡ true → n ≡ m
to_decimal-other n m h =
    let e = ap of_decimal ((text_eq_iff (to_decimal n) (to_decimal m)).0 h) in
    sym (of_decimal-to_decimal n) ∙ e ∙ of_decimal-to_decimal m

pub to_decimal-word : (n : ℕ) (w : Text) → all is_digit w ≡ false → text_eq (to_decimal n) w ≡ false
to_decimal-word n w h = elim (Bool-cases (text_eq (to_decimal n) w)) [
  | inl same ↦
      let e = ap (all is_digit) ((text_eq_iff (to_decimal n) w).0 same) in
      let digits = to_decimal-is_digit n in cc
  | inr other ↦ other
]
