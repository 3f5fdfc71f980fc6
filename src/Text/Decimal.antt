-- ===== src/Text/Decimal.antt =====
-- `str(n)` and `int(s)` on the natural numbers, with the round trip.
use acars_printer.Prelude.{
  ℕ, zero, suc, ◌+◌, ◌-◌, ◌*◌, ◌/◌, ◌%◌, ◌<◌, ◌≡◌, refl, ◌∙◌, [], ◌∷◌, ◌++◌, true, false, all, ltb,
  arith, if◌then◌else◌, Bool-cases, inl, inr,
}
use acars_printer.Text.Chars.{Text, is_digit, is_empty}

-- The digits of a number, on fuel.
digits : ℕ → ℕ → Text
digits zero n = []
digits (suc fuel) n =
    let higher = digits fuel (n / 10) in (if ltb n 10 then [] else higher) ++ (48 + n % 10) ∷ []

-- `str(n)`: a number has at most as many digits as its successor counts.
unfoldable pub to_decimal : ℕ → Text
unfolding digits
to_decimal n = digits (suc n) n

-- `int(s)` on digits, from the value of those before.
unfoldable pub decimal_from : ℕ → Text → ℕ
decimal_from acc [] = acc
decimal_from acc (c ∷ s) = decimal_from (acc * 10 + (c - 48)) s

unfoldable pub of_decimal : Text → ℕ
unfolding decimal_from
of_decimal s = decimal_from 0 s

decimal_from-append :
    (acc : ℕ) (s : Text) (c : ℕ)
    → decimal_from acc (s ++ c ∷ []) ≡ decimal_from acc s * 10 + (c - 48)
unfolding decimal_from
decimal_from-append acc [] c = refl
decimal_from-append acc (d ∷ s) c = decimal_from-append (acc * 10 + (d - 48)) s c

of_digits : (fuel n : ℕ) → n < fuel → decimal_from 0 (digits fuel n) ≡ n
unfolding digits decimal_from
of_digits zero n h = absurd (omega arith)
of_digits (suc fuel) n h = elim (Bool-cases (ltb n 10)) [
  | inl small ↦ rw small (ground arith)
  | inr large ↦
      let higher = of_digits fuel (n / 10) (ground arith) in
      rw large
        (decimal_from-append 0 (digits fuel (n / 10)) (48 + n % 10) ∙ rw higher (omega arith))
]

-- `int(str(n))` is `n`.
pub of_decimal-to_decimal : (n : ℕ) → of_decimal (to_decimal n) ≡ n
unfolding of_decimal to_decimal
of_decimal-to_decimal n = of_digits (suc n) n (omega arith)

all-append_one :
    (s : Text) (c : ℕ)
    → all is_digit s ≡ true
    → is_digit c ≡ true
    → all is_digit (s ++ c ∷ []) ≡ true
all-append_one [] c h d = ground arith
all-append_one (x ∷ s) c h d = ground (arith, all-append_one s c)

digits-is_digit : (fuel n : ℕ) → all is_digit (digits fuel n) ≡ true
unfolding digits
digits-is_digit zero n = refl
digits-is_digit (suc fuel) n =
    let last : is_digit (48 + n % 10) ≡ true = unfold is_digit in ground arith in
    elim (Bool-cases (ltb n 10)) [
      | inl small ↦ rw small (ground arith)
      | inr large ↦
          rw large (all-append_one (digits fuel (n / 10)) _ (digits-is_digit fuel (n / 10)) last)
    ]

pub to_decimal-is_digit : (n : ℕ) → all is_digit (to_decimal n) ≡ true
unfolding to_decimal
to_decimal-is_digit n = digits-is_digit (suc n) n

is_empty-append_one : (s : Text) (c : ℕ) → is_empty (s ++ c ∷ []) ≡ false
is_empty-append_one [] c = refl
is_empty-append_one (x ∷ s) c = refl

pub is_empty-to_decimal : (n : ℕ) → is_empty (to_decimal n) ≡ false
unfolding to_decimal
is_empty-to_decimal n = is_empty-append_one _ (48 + n % 10)
