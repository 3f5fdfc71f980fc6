-- ===== src/Models/Settings/Numbers/Optional.antt =====
-- The dots of a line and the columns, numbers that may be left to the printer, are read as they are
-- stored.
use acars_printer.Prelude.{
  ℕ, ◌≡◌, ◌≤◌, refl, ap, ◌∙◌, true, false, none, some, [], ◌∷◌, arith, leb, all, map, Bool-cases,
  inl, inr,
}
use acars_printer.Prelude.Int.{ℤ}
use acars_printer.Text.{
  Text, codes, text_eq, text_of_int, to_decimal, strip-to_decimal, int_of_text-to_decimal,
  is_empty-to_decimal, to_decimal-other, to_decimal-word, is_empty, is_digit, is_upper, is_space,
  lower, strip, lower_char, to_decimal-is_digit,
}
use acars_printer.Models.Settings.Store.{SettingsStore, get_key, set_key}
use acars_printer.Models.Settings.Forms.{clamp, IntArg, int_arg}
use acars_printer.Models.Settings.Numbers.{
  print_line_spacing_dots, spacing_read, spacing_of, print_columns, columns_read, columns_of,
  set_print_line_spacing_dots, spacing_arg, spacing_text, arg_in, arg_text, set_print_columns,
  columns_arg, decimal_of,
}

lower_char-digit : (c : ℕ) → is_digit c ≡ true → lower_char c ≡ c
unfolding lower_char is_upper is_digit
lower_char-digit c h = ground arith

lower-digits : (s : Text) → all is_digit s ≡ true → lower s ≡ s
unfolding lower
lower-digits [] h = refl
lower-digits (c ∷ s) h =
    let first = lower_char-digit c (ground arith) in
    let rest : map lower_char s ≡ s = lower-digits s (ground arith) in cc

text_eq-empty : (t : Text) → is_empty t ≡ false → text_eq t [] ≡ false
unfolding text_eq
text_eq-empty [] h = ground arith
text_eq-empty (c ∷ t) h = refl

clean-to_decimal : (n : ℕ) → lower (strip (to_decimal n)) ≡ to_decimal n
clean-to_decimal n =
    ap lower (strip-to_decimal n) ∙ lower-digits (to_decimal n) (to_decimal-is_digit n)

to_decimal-zero : (n : ℕ) → 1 ≤ n → text_eq (to_decimal n) (codes "0") ≡ false
to_decimal-zero n h = elim (Bool-cases (text_eq (to_decimal n) (codes "0"))) [
  | inl zero ↦ let e = to_decimal-other n 0 (unfold to_decimal in zero) in absurd (omega arith)
  | inr other ↦ other
]

spacing_of-within : (n : ℕ) → 1 ≤ n → n ≤ 255 → spacing_of (some (ℤ.pos n)) ≡ some n
unfolding spacing_of clamp
spacing_of-within n l h =
    let above : leb n 0 ≡ false = ground arith in rw above (ap some (omega arith))

spacing_read-to_decimal :
    (n : ℕ) (s : SettingsStore) → 1 ≤ n → n ≤ 255 → spacing_read s (some (to_decimal n)) ≡ some n
unfolding spacing_read is_digit
spacing_read-to_decimal n s l h =
    rw (clean-to_decimal n, text_eq-empty (to_decimal n) (is_empty-to_decimal n))
      (rw
        (
          to_decimal-word n (codes "default") refl,
          to_decimal-word n (codes "auto") refl,
          to_decimal-word n (codes "-1") refl,
          int_of_text-to_decimal n,
        )
        (spacing_of-within n l h))

columns_read-to_decimal : (n : ℕ) → 16 ≤ n → n ≤ 80 → columns_read (to_decimal n) ≡ some n
unfolding columns_read columns_of is_digit
columns_read-to_decimal n l h =
    let same = lower-digits (to_decimal n) (to_decimal-is_digit n) in
    let not_zero = to_decimal-zero n (omega arith) in
    rw (is_empty-to_decimal n, same, to_decimal-word n (codes "auto") refl, not_zero)
      (rw (int_of_text-to_decimal n) (ap some (unfold clamp in omega arith)))

pub spacing-stored :
    (n : ℕ) (s : SettingsStore)
    → get_key (codes "print_line_spacing_dots") s ≡ some (to_decimal n)
    → 1 ≤ n
    → n ≤ 255
    → print_line_spacing_dots s ≡ some n
unfolding print_line_spacing_dots
spacing-stored n s e l h = rw e (spacing_read-to_decimal n s l h)

pub spacing-default :
    (s : SettingsStore)
    → get_key (codes "print_line_spacing_dots") s ≡ some (codes "default")
    → print_line_spacing_dots s ≡ none
unfolding print_line_spacing_dots spacing_read strip lower is_space text_eq
spacing-default s e = rw e refl

pub columns-stored :
    (n : ℕ) (s : SettingsStore)
    → get_key (codes "print_columns") s ≡ some (to_decimal n)
    → 16 ≤ n
    → n ≤ 80
    → print_columns s ≡ some n
unfolding print_columns
columns-stored n s e l h = rw e (rw (strip-to_decimal n) (columns_read-to_decimal n l h))

pub columns-automatic :
    (s : SettingsStore) → get_key (codes "print_columns") s ≡ none → print_columns s ≡ none
unfolding print_columns columns_read strip
columns-automatic s e = rw e refl

pub spacing-set :
    (n : ℕ) (s : SettingsStore)
    → 1 ≤ n
    → n ≤ 255
    → set_print_line_spacing_dots (some (IntArg.int (ℤ.pos n))) s
      ≡ set_key (codes "print_line_spacing_dots") (some (to_decimal n)) s
unfolding set_print_line_spacing_dots spacing_arg spacing_text arg_in arg_text text_of_int int_arg
    is_digit
spacing-set n s l h =
    rw
      (
        clean-to_decimal n,
        text_eq-empty (to_decimal n) (is_empty-to_decimal n),
        to_decimal-word n (codes "default") refl,
        to_decimal-word n (codes "auto") refl,
        to_decimal-zero n l,
        to_decimal-word n (codes "-1") refl,
      )
      (rw (spacing_of-within n l h) refl)

pub columns-set :
    (n : ℕ) (s : SettingsStore)
    → 16 ≤ n
    → n ≤ 80
    → set_print_columns (some (IntArg.int (ℤ.pos n))) s
      ≡ set_key (codes "print_columns") (some (to_decimal n)) s
unfolding set_print_columns columns_arg arg_in arg_text text_of_int int_arg columns_of decimal_of
    is_digit
columns-set n s l h =
    let width : clamp 16 80 (ℤ.pos n) ≡ n = unfold clamp in omega arith in
    rw
      (
        clean-to_decimal n,
        text_eq-empty (to_decimal n) (is_empty-to_decimal n),
        to_decimal-word n (codes "auto") refl,
        to_decimal-zero n (omega arith),
      )
      (rw width refl)
