-- ===== src/Models/Settings/Choices/Words.antt =====
-- The paper, the font and the drawing mode are among their words, whatever the table holds.
use acars_printer.Prelude.{◌≡◌, refl, true, [], ◌∷◌, Bool-cases, inl, inr}
use acars_printer.Text.{Text, codes, text_eq, text_eq_iff, one_of}
use acars_printer.Models.Settings.Store.{SettingsStore}
use acars_printer.Models.Settings.Choices.{one_or_other, paper_width, print_font, print_render_mode}

one_or_other-one_of : (a b w : Text) → one_of (a ∷ b ∷ []) (one_or_other a b w) ≡ true
unfolding one_or_other
one_or_other-one_of a b w = elim (Bool-cases (text_eq w a)) [
  | inl same ↦ let e = (text_eq_iff a a).1 refl in rw same (rw e refl)
  | inr other ↦
      let e = (text_eq_iff b b).1 refl in
      rw other (rw e (elim (Bool-cases (text_eq b a)) [ inl h ↦ rw h refl | inr h ↦ rw h refl ]))
]

pub words_among :
    (s : SettingsStore)
    → (one_of (codes "58" ∷ codes "80" ∷ []) (paper_width s) ≡ true)
      × (one_of (codes "b" ∷ codes "a" ∷ []) (print_font s) ≡ true)
      × (one_of (codes "native" ∷ codes "bitmap" ∷ []) (print_render_mode s) ≡ true)
unfolding paper_width print_font print_render_mode
words_among s = (
  one_or_other-one_of (codes "58") (codes "80") _,
  one_or_other-one_of (codes "b") (codes "a") _,
  one_or_other-one_of (codes "native") (codes "bitmap") _,
)
