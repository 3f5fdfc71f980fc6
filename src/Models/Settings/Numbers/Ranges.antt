-- ===== src/Models/Settings/Numbers/Ranges.antt =====
-- The ranges of the numbers that are not of the common form, and the sizes read back.
use acars_printer.Prelude.{
  ℕ, ◌≡◌, ◌≤◌, Bool, true, false, Option, none, some, [], ◌∷◌, arith, or_else, if◌then◌else◌, leb,
  Bool-cases, inl, inr,
}
use acars_printer.Prelude.Int.{ℤ}
use acars_printer.Text.{
  Text, codes, text_eq, one_of, int_of_text, text_of_int, to_decimal, int_of_text-text_of_int,
  lower, strip,
}
use acars_printer.Models.Settings.Store.{SettingsStore, get_key}
use acars_printer.Models.Settings.Forms.{
  IntArg, int_arg, clamp, clamped_or, clamped_arg, clamp-between, clamped_or-between, int_or,
  get_or, set_number, get_key-stored,
}
use acars_printer.Models.Settings.Numbers.{
  poll_interval, at_least_45, char_size, legacy_size, print_char_width, print_char_height,
  set_print_char_width, set_print_char_height, print_line_spacing_dots, spacing_read, spacing_of,
  legacy_spacing, print_columns, columns_read, columns_of,
}

-- What an optional number is when it is there.
pub data IsWithin (lo hi : ℕ) : Option ℕ → Type 0 where
  automatic : IsWithin lo hi none
  within : (n : ℕ) → lo ≤ n → n ≤ hi → IsWithin lo hi (some n)

at_least_45-above : (n : Option ℤ) → 45 ≤ at_least_45 n
unfolding at_least_45
at_least_45-above none = omega arith
at_least_45-above (some (ℤ.pos n)) = omega arith
at_least_45-above (some (ℤ.negsuc n)) = omega arith

pub poll_interval_lem : (s : SettingsStore) → 45 ≤ poll_interval s
unfolding poll_interval
poll_interval_lem s =
    at_least_45-above (int_or (or_else (get_key (codes "poll_interval") s) (codes "60")) 60)

char_size-between :
    (wide : Text) (s : SettingsStore) (raw : Option Text)
    → (1 ≤ char_size wide s raw) × (char_size wide s raw ≤ 8)
unfolding char_size legacy_size
char_size-between wide s none = choice (
    one_of (wide ∷ codes "large" ∷ [])
      (lower (strip (get_or (codes "print_size") (codes "normal") s))))
  where
    choice : (b : Bool) → (1 ≤ (if b then 2 else 1)) × ((if b then 2 else 1) ≤ 8)
    choice true = (omega arith, omega arith)
    choice false = (omega arith, omega arith)
char_size-between wide s (some raw) =
    clamped_or-between 1 1 8 (int_of_text raw) (omega arith) (omega arith)

pub char_sizes_between :
    (s : SettingsStore)
    → (1 ≤ print_char_width s)
      × (print_char_width s ≤ 8)
      × (1 ≤ print_char_height s)
      × (print_char_height s ≤ 8)
unfolding print_char_width print_char_height
char_sizes_between s =
    let w = char_size-between (codes "wide") s (get_key (codes "print_char_width") s) in
    let h = char_size-between (codes "tall") s (get_key (codes "print_char_height") s) in
    (w.0, w.1, h.0, h.1)

spacing_of-IsWithin : (n : Option ℤ) → IsWithin 1 255 (spacing_of n)
unfolding spacing_of clamp
spacing_of-IsWithin none = automatic
spacing_of-IsWithin (some (ℤ.negsuc n)) = automatic
spacing_of-IsWithin (some (ℤ.pos n)) = elim (Bool-cases (leb n 0)) [
  | inl none_left ↦ rw none_left automatic
  | inr some_left ↦ rw some_left (within _ (omega arith) (omega arith))
]

columns_of-IsWithin : (n : Option ℤ) → IsWithin 16 80 (columns_of n)
unfolding columns_of
columns_of-IsWithin none = automatic
columns_of-IsWithin (some n) =
    let b = clamp-between 16 80 n (omega arith) in within (clamp 16 80 n) b.0 b.1

legacy_spacing-IsWithin : (legacy : Text) → IsWithin 1 255 (legacy_spacing legacy)
unfolding legacy_spacing
legacy_spacing-IsWithin legacy = elim (Bool-cases (text_eq legacy (codes "tight"))) [
  | inl t ↦ rw t (within 24 (omega arith) (omega arith))
  | inr t ↦ rw t (elim (Bool-cases (text_eq legacy (codes "normal"))) [
    | inl n ↦ rw n (within 30 (omega arith) (omega arith))
    | inr n ↦ rw n (elim (Bool-cases (text_eq legacy (codes "loose"))) [
      | inl l ↦ rw l (within 40 (omega arith) (omega arith))
      | inr l ↦ rw l automatic
    ])
  ])
]

-- A choice between no number and one in the range.
IsWithin-if :
    {lo hi : ℕ} (b : Bool) (n : Option ℕ)
    → IsWithin lo hi n
    → IsWithin lo hi (if b then none else n)
IsWithin-if true n h = automatic
IsWithin-if false n h = h

spacing_read-IsWithin :
    (s : SettingsStore) (raw : Option Text) → IsWithin 1 255 (spacing_read s raw)
unfolding spacing_read
spacing_read-IsWithin s none = legacy_spacing-IsWithin _
spacing_read-IsWithin s (some raw) =
    IsWithin-if _ _ (spacing_of-IsWithin (int_of_text (lower (strip raw))))

columns_read-IsWithin : (raw : Text) → IsWithin 16 80 (columns_read raw)
unfolding columns_read
columns_read-IsWithin raw = IsWithin-if _ _ (columns_of-IsWithin (int_of_text raw))

pub print_line_spacing_dots-IsWithin :
    (s : SettingsStore) → IsWithin 1 255 (print_line_spacing_dots s)
unfolding print_line_spacing_dots
print_line_spacing_dots-IsWithin s =
    spacing_read-IsWithin s (get_key (codes "print_line_spacing_dots") s)

pub print_columns-IsWithin : (s : SettingsStore) → IsWithin 16 80 (print_columns s)
unfolding print_columns
print_columns-IsWithin s =
    columns_read-IsWithin (strip (or_else (get_key (codes "print_columns") s) []))

-- A number inside its bounds is read as it was written.
clamped_or-to_decimal :
    (default lo hi n : ℕ)
    → lo ≤ n
    → n ≤ hi
    → clamped_or default lo hi (int_of_text (to_decimal n)) ≡ n
unfolding text_of_int
clamped_or-to_decimal default lo hi n l h =
    rw (int_of_text-text_of_int (ℤ.pos n)) (unfold clamped_or clamp in omega arith)

char_size-stored :
    (wide : Text) (n : ℕ) (s : SettingsStore) (raw : Option Text)
    → raw ≡ some (to_decimal n)
    → 1 ≤ n
    → n ≤ 8
    → char_size wide s raw ≡ n
unfolding char_size
char_size-stored wide n s raw e l h = rw e (clamped_or-to_decimal 1 1 8 n l h)

char_size-set_number :
    (wide key : Text) (argument : IntArg) (s : SettingsStore)
    → char_size wide
        (set_number key 1 1 8 argument s)
        (get_key key (set_number key 1 1 8 argument s))
      ≡ clamped_arg 1 1 8 argument
unfolding set_number clamped_arg
char_size-set_number wide key argument s =
    let n = or_else (int_arg argument) (ℤ.pos 1) in
    let between = clamp-between 1 8 n (omega arith) in
    char_size-stored wide (clamp 1 8 n) _ _ (get_key-stored key (some (to_decimal (clamp 1 8 n))) s)
      between.0 between.1

-- The sizes of a character, after they were set.
pub char_sizes_read_back :
    (argument : IntArg) (s : SettingsStore)
    → (print_char_width (set_print_char_width argument s) ≡ clamped_arg 1 1 8 argument)
      × (print_char_height (set_print_char_height argument s) ≡ clamped_arg 1 1 8 argument)
unfolding print_char_width print_char_height set_print_char_width set_print_char_height
char_sizes_read_back argument s = (
  char_size-set_number (codes "wide") (codes "print_char_width") argument s,
  char_size-set_number (codes "tall") (codes "print_char_height") argument s,
)

pub print_char_width-stored :
    (n : ℕ) (s : SettingsStore)
    → get_key (codes "print_char_width") s ≡ some (to_decimal n)
    → 1 ≤ n
    → n ≤ 8
    → print_char_width s ≡ n
unfolding print_char_width
print_char_width-stored n s = char_size-stored (codes "wide") n s _

pub print_char_height-stored :
    (n : ℕ) (s : SettingsStore)
    → get_key (codes "print_char_height") s ≡ some (to_decimal n)
    → 1 ≤ n
    → n ≤ 8
    → print_char_height s ≡ n
unfolding print_char_height
print_char_height-stored n s = char_size-stored (codes "tall") n s _
