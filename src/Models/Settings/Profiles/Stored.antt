-- ===== src/Models/Settings/Profiles/Stored.antt =====
-- The words and the optional numbers of a format are read as they are stored.
use acars_printer.Prelude.{
  ◌≡◌, refl, ◌⊎◌, inl, inr, Bool-cases, arith, true, some, [], ◌∷◌, if◌then◌else◌,
}
use acars_printer.Text.{Text, codes, text_eq, text_eq_iff, one_of, lower, strip, is_space}
use acars_printer.Models.Settings.Store.{SettingsStore, get_key}
use acars_printer.Models.Settings.Forms.{get_or}
use acars_printer.Models.Settings.Choices.{paper_width, print_font, print_render_mode}

-- One of two words.
pub one_of_two : (a b w : Text) → one_of (a ∷ b ∷ []) w ≡ true → (w ≡ a) ⊎ (w ≡ b)
one_of_two a b w h = elim (Bool-cases (text_eq w a)) [
  | inl same ↦ inl ((text_eq_iff w a).0 same)
  | inr other ↦ inr ((text_eq_iff w b).0 (ground arith))
]

pub paper_width-stored :
    (w : Text) (s : SettingsStore)
    → get_key (codes "paper_width") s
      ≡ some (if text_eq w (codes "58") then codes "58" else codes "80")
    → (w ≡ codes "58") ⊎ (w ≡ codes "80")
    → paper_width s ≡ w
unfolding paper_width get_or text_eq
paper_width-stored w s e (inl a) = rw e (rw a refl)
paper_width-stored w s e (inr b) = rw e (rw b refl)

pub print_font-stored :
    (w : Text) (s : SettingsStore)
    → get_key (codes "print_font") s
      ≡ some (if text_eq (lower (strip w)) (codes "b") then codes "b" else codes "a")
    → (w ≡ codes "b") ⊎ (w ≡ codes "a")
    → print_font s ≡ w
unfolding print_font get_or text_eq lower strip is_space
print_font-stored w s e (inl a) = rw e (rw a refl)
print_font-stored w s e (inr b) = rw e (rw b refl)

pub print_render_mode-stored :
    (w : Text) (s : SettingsStore)
    → get_key (codes "print_render_mode") s
      ≡ some (if text_eq (lower (strip w)) (codes "bitmap") then codes "bitmap" else codes "native")
    → (w ≡ codes "native") ⊎ (w ≡ codes "bitmap")
    → print_render_mode s ≡ w
unfolding print_render_mode text_eq lower strip is_space
print_render_mode-stored w s e (inl a) = rw e (rw a refl)
print_render_mode-stored w s e (inr b) = rw e (rw b refl)
