-- ===== src/Text/Strip.antt =====
-- How stripping and splitting act on words: texts with no space in them.
use acars_printer.Prelude.{ℕ, ◌≡◌, refl, ap, ◌∙◌, true, false, [], ◌∷◌, ◌++◌, not, all, arith}
use acars_printer.Text.Chars.{Text, is_space, is_empty, lstrip, rstrip}
use acars_printer.Text.Words.{span_word, two_parts, split_first}

pub rstrip-append : (a s : Text) → is_empty (rstrip s) ≡ false → rstrip (a ++ s) ≡ a ++ rstrip s
unfolding rstrip
rstrip-append [] s h = refl
rstrip-append (c ∷ []) s h = ground arith
rstrip-append (c ∷ d ∷ a) s h = ground (arith, rstrip-append (d ∷ a) s h)

pub is_empty-append : (a s : Text) → is_empty s ≡ false → is_empty (a ++ s) ≡ false
is_empty-append [] s h = h
is_empty-append (c ∷ a) s h = refl

-- A word: not empty, and no character of it is space.
pub record IsWord (w : Text) : Type 0 where
  pub filled : is_empty w ≡ false
  pub solid : all (λ c. not (is_space c)) w ≡ true

span_word-solid :
    (w s : Text) (c : ℕ)
    → all (λ c. not (is_space c)) w ≡ true
    → is_space c ≡ true
    → span_word (w ++ c ∷ s) ≡ (w, c ∷ s)
unfolding span_word
span_word-solid [] s c h sp = rw sp
span_word-solid (d ∷ w) s c h sp = ground (arith, span_word-solid w s c)

span_word-all : (w : Text) → all (λ c. not (is_space c)) w ≡ true → span_word w ≡ (w, [])
unfolding span_word
span_word-all [] h = refl
span_word-all (d ∷ w) h = ground (arith, span_word-all w)

pub lstrip-word : (w s : Text) → IsWord w → lstrip (w ++ s) ≡ w ++ s
unfolding lstrip
lstrip-word [] s h = let e = h.filled in cc
lstrip-word (c ∷ w) s h = let e = h.solid in ground arith

lstrip_space : (c : ℕ) (s : Text) → is_space c ≡ true → lstrip (c ∷ s) ≡ lstrip s
unfolding lstrip
lstrip_space c s h = rw h

is_empty-append_left : (v s : Text) → is_empty v ≡ false → is_empty (v ++ s) ≡ false
is_empty-append_left [] s h = cc
is_empty-append_left (c ∷ v) s h = refl

-- The first word of a text, one space and another text that begins with a word.
pub split_first-words :
    (w v s : Text) (c : ℕ)
    → IsWord w
    → IsWord v
    → is_space c ≡ true
    → split_first (w ++ c ∷ (v ++ s)) ≡ w ∷ (v ++ s) ∷ []
split_first-words w v s c hw hv sp =
    let spanned =
      ap span_word (lstrip-word w (c ∷ (v ++ s)) hw) ∙ span_word-solid w (v ++ s) c hw.solid sp in
    let tail = lstrip_space c (v ++ s) sp ∙ lstrip-word v s hv in
    unfold split_first two_parts in
    rw spanned (rw (hw.filled, tail) (rw (is_empty-append_left v s hv.filled)))
