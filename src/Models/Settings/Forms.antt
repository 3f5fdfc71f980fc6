-- ===== src/Models/Settings/Forms.antt =====
-- The forms that the methods of `SettingsStore` repeat: a text with a default, a switch and a number
-- between two bounds.
use acars_printer.Prelude.{
  ℕ, ◌≡◌, refl, ◌∙◌, ◌≤◌, Bool, true, false, Option, none, some, [], ◌∷◌, max, min, arith,
  if◌then◌else◌, or_else,
}
use acars_printer.Prelude.Int.{ℤ}
use acars_printer.Text.{
  Text, codes, text_eq, text_eq_iff, one_of, int_of_text, text_of_int, to_decimal,
  int_of_text-text_of_int, is_empty-to_decimal, is_empty,
}
use acars_printer.Models.Settings.Store.{SettingsStore, get_key, set_key, get_key-set_key}

-- `a or b` on texts.
abbrev pub text_or : Text → Text → Text
text_or [] d = d
text_or (c ∷ s) d = c ∷ s

-- `self.get(key, default) or default`.
unfoldable pub get_or : Text → Text → SettingsStore → Text
get_or key default s = text_or (or_else (get_key key s) default) default

-- A switch: `(self.get(key, default) or default) in {"1", "true", "yes", "on"}`.
unfoldable pub switch : Text → Text → SettingsStore → Bool
unfolding get_or
switch key default s =
    one_of (codes "1" ∷ codes "true" ∷ codes "yes" ∷ codes "on" ∷ []) (get_or key default s)

-- `self.set(key, "1" if enabled else "0")`.
unfoldable pub set_switch : Text → Bool → SettingsStore → SettingsStore
set_switch key enabled s = set_key key (some (if enabled then codes "1" else codes "0")) s

-- The text that was stored last under a key.
pub get_key-stored :
    (key : Text) (v : Option Text) (s : SettingsStore) → get_key key (set_key key v s) ≡ v
get_key-stored key v s =
    let same = (text_eq_iff key key).1 refl in rw (get_key-set_key key key v s, same) refl

pub switch-stored :
    (key default : Text) (enabled : Bool) (s : SettingsStore)
    → get_key key s ≡ some (if enabled then codes "1" else codes "0")
    → switch key default s ≡ enabled
unfolding switch text_eq
switch-stored key default true s e = rw e refl
switch-stored key default false s e = rw e refl

-- What a setter of a number is given: an `int`, or a `str` that may be no number.
pub data IntArg : Type 0 where
  int : ℤ → IntArg
  str : Text → IntArg

-- `int(argument)`.
unfoldable pub int_arg : IntArg → Option ℤ
int_arg (int n) = some n
int_arg (str t) = int_of_text t

-- `max(lo, min(hi, n))`, where `lo` is not negative.
unfoldable pub clamp : ℕ → ℕ → ℤ → ℕ
clamp lo hi (ℤ.pos n) = max lo (min hi n)
clamp lo hi (ℤ.negsuc n) = lo

-- `raw or default`, as an integer.
unfoldable pub int_or : Text → ℕ → Option ℤ
int_or [] default = some (ℤ.pos default)
int_or (c ∷ s) default = int_of_text (c ∷ s)

unfoldable pub clamped_or : ℕ → ℕ → ℕ → Option ℤ → ℕ
clamped_or default lo hi none = default
clamped_or default lo hi (some n) = clamp lo hi n

-- A number between two bounds: `max(lo, min(hi, int(raw or default)))`, or the default on a
-- `ValueError`.
unfoldable pub number : Text → ℕ → ℕ → ℕ → SettingsStore → ℕ
unfolding int_or clamped_or clamp
number key default lo hi s =
    clamped_or default lo hi (int_or (or_else (get_key key s) (to_decimal default)) default)

-- The text that a setter of a number stores.
unfoldable pub clamped_arg : ℕ → ℕ → ℕ → IntArg → ℕ
unfolding int_arg clamp
clamped_arg default lo hi argument = clamp lo hi (or_else (int_arg argument) (ℤ.pos default))

unfoldable pub set_number : Text → ℕ → ℕ → ℕ → IntArg → SettingsStore → SettingsStore
unfolding clamped_arg
set_number key default lo hi argument s =
    set_key key (some (to_decimal (clamped_arg default lo hi argument))) s

int_or-filled : (t : Text) (default : ℕ) → is_empty t ≡ false → int_or t default ≡ int_of_text t
unfolding int_or
int_or-filled [] default h = ground arith
int_or-filled (c ∷ t) default h = refl

int_or-to_decimal : (n default : ℕ) → int_or (to_decimal n) default ≡ some (ℤ.pos n)
unfolding text_of_int
int_or-to_decimal n default =
    int_or-filled (to_decimal n) default (is_empty-to_decimal n) ∙ int_of_text-text_of_int (ℤ.pos n)

pub clamp-between : (lo hi : ℕ) (n : ℤ) → lo ≤ hi → (lo ≤ clamp lo hi n) × (clamp lo hi n ≤ hi)
unfolding clamp
clamp-between lo hi (ℤ.pos n) h = (omega arith, omega arith)
clamp-between lo hi (ℤ.negsuc n) h = (omega arith, h)

-- A number that lies within the bounds is read as it is stored.
pub number-stored :
    (key : Text) (default lo hi n : ℕ) (s : SettingsStore)
    → get_key key s ≡ some (to_decimal n)
    → lo ≤ n
    → n ≤ hi
    → number key default lo hi s ≡ n
unfolding number
number-stored key default lo hi n s e l h =
    rw e (rw (int_or-to_decimal n default) (unfold clamped_or clamp in omega arith))

pub number-set_number :
    (key : Text) (default lo hi : ℕ) (argument : IntArg) (s : SettingsStore)
    → lo ≤ hi
    → number key default lo hi (set_number key default lo hi argument s)
      ≡ clamped_arg default lo hi argument
unfolding set_number clamped_arg
number-set_number key default lo hi argument s h =
    let between = clamp-between lo hi (or_else (int_arg argument) (ℤ.pos default)) h in
    number-stored key default lo hi _ _ (get_key-stored key _ s) between.0 between.1

pub clamped_or-between :
    (default lo hi : ℕ) (n : Option ℤ)
    → lo ≤ default
    → default ≤ hi
    → (lo ≤ clamped_or default lo hi n) × (clamped_or default lo hi n ≤ hi)
unfolding clamped_or
clamped_or-between default lo hi none l h = (l, h)
clamped_or-between default lo hi (some n) l h = clamp-between lo hi n (omega arith)

-- Whatever the table holds, a number lies between its bounds when its default does.
pub number-between :
    (key : Text) (default lo hi : ℕ) (s : SettingsStore)
    → lo ≤ default
    → default ≤ hi
    → (lo ≤ number key default lo hi s) × (number key default lo hi s ≤ hi)
unfolding number
number-between key default lo hi s l h =
    clamped_or-between default lo hi (int_or (or_else (get_key key s) (to_decimal default)) default)
      l h
