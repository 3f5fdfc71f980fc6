-- ===== src/Models/Settings/Kinds/Sets.antt =====
-- Words in a text with commas, and the members of the lists that a setter of words makes.
use acars_printer.Prelude.{
  ◌≡◌, refl, ap, subst, sym, ◌∙◌, Bool, true, false, List, [], ◌∷◌, ◌++◌, arith, all, All, map, not,
  ◌||◌, ◌&&◌, ◌==◌, Bool-cases, inl, inr,
}
use acars_printer.Text.{Text, codes, is_empty, text_eq, text_eq_iff, one_of, split_on, join}
use acars_printer.Models.Settings.Kinds.{keep_if, text_ltb, insert_sorted, sorted_set, cleaned}

-- A word that a text with commas gives back: it has no comma, is clean already and is not empty.
pub record IsPlain (w : Text) : Type 0 where
  pub whole : all (λ c. not (c == b',')) w ≡ true
  pub clean : cleaned w ≡ w
  pub some_text : is_empty w ≡ false

split_on-word : (w : Text) → all (λ c. not (c == b',')) w ≡ true → split_on b',' w ≡ w ∷ []
unfolding split_on
split_on-word [] h = refl
split_on-word (c ∷ w) h =
    let this : (c == b',') ≡ false = ground arith in
    let rest : all (λ c. not (c == b',')) w ≡ true = ground arith in
    rw (this, split_on-word w rest) refl

split_on-word_comma :
    (w s : Text)
    → all (λ c. not (c == b',')) w ≡ true
    → split_on b',' (w ++ (b',' ∷ s)) ≡ w ∷ split_on b',' s
unfolding split_on
split_on-word_comma [] s h = refl
split_on-word_comma (c ∷ w) s h =
    let this : (c == b',') ≡ false = ground arith in
    let rest : all (λ c. not (c == b',')) w ≡ true = ground arith in
    rw (this, split_on-word_comma w s rest) refl

-- `s.split(",")` undoes `",".join(words)`.
pub split_on-join :
    (w : Text) (ws : List Text)
    → All IsPlain (w ∷ ws)
    → split_on b',' (join (codes ",") (w ∷ ws)) ≡ w ∷ ws
unfolding join
split_on-join w [] h = split_on-word w h.0.whole
split_on-join w (v ∷ ws) h =
    split_on-word_comma w _ h.0.whole ∙ ap (λ rest. w ∷ rest) (split_on-join v ws h.1)

pub map-cleaned : (ws : List Text) → All IsPlain ws → map cleaned ws ≡ ws
map-cleaned [] h = refl
map-cleaned (w ∷ ws) h = let rest = map-cleaned ws h.1 in let this = h.0.clean in cc

-- Members of a list with the words that satisfy a test.
pub one_of-keep_if :
    (p : Text → Bool) (ws : List Text) (w : Text) → one_of (keep_if p ws) w ≡ (p w && one_of ws w)
unfolding keep_if
one_of-keep_if p [] w = elim (Bool-cases (p w)) [ inl h ↦ rw h refl | inr h ↦ rw h refl ]
one_of-keep_if p (x ∷ ws) w = elim (Bool-cases (text_eq w x)) [
  | inl same ↦
      let e : p w ≡ p x = ap p ((text_eq_iff w x).0 same) in
      elim (Bool-cases (p x)) [
        | inl h ↦ rw (h, same, e, h) refl
        | inr h ↦ rw (h, one_of-keep_if p ws w, e, h) refl
      ]
  | inr other ↦ elim (Bool-cases (p x)) [
    | inl h ↦ rw (h, other) (one_of-keep_if p ws w)
    | inr h ↦ rw (h, other) (one_of-keep_if p ws w)
  ]
]

one_of-insert_sorted :
    (v : Text) (ws : List Text) (w : Text)
    → one_of (insert_sorted v ws) w ≡ (text_eq w v || one_of ws w)
unfolding insert_sorted
one_of-insert_sorted v [] w = refl
one_of-insert_sorted v (x ∷ ws) w = elim (Bool-cases (text_eq v x)) [
  | inl same ↦
      let e : text_eq w v ≡ text_eq w x = ap (text_eq w) ((text_eq_iff v x).0 same) in
      rw (same, e) (elim (Bool-cases (text_eq w x)) [ inl h ↦ rw h refl | inr h ↦ rw h refl ])
  | inr other ↦ elim (Bool-cases (text_ltb v x)) [
    | inl less ↦ rw (other, less) refl
    | inr not_less ↦
        rw (other, not_less, one_of-insert_sorted v ws w)
          (elim (Bool-cases (text_eq w x)) [ inl h ↦ rw h (ground arith) | inr h ↦ rw h refl ])
  ]
]

pub one_of-sorted_set : (ws : List Text) (w : Text) → one_of (sorted_set ws) w ≡ one_of ws w
unfolding sorted_set
one_of-sorted_set [] w = refl
one_of-sorted_set (v ∷ ws) w =
    one_of-insert_sorted v (sorted_set ws) w ∙ ap (λ b. text_eq w v || b) (one_of-sorted_set ws w)

-- Every member of a list of choices is one of them.
pub All-one_of :
    (choices ws : List Text)
    → ((w : Text) → one_of ws w ≡ true → one_of choices w ≡ true)
    → All (λ w. one_of choices w ≡ true) ws
All-one_of choices [] h = tt
All-one_of choices (w ∷ ws) h =
    let same = (text_eq_iff w w).1 refl in
    (h w (rw same refl), All-one_of choices ws (λ v k. h v (ground (arith, k))))

one_of-IsPlain :
    (choices : List Text) (w : Text) → All IsPlain choices → one_of choices w ≡ true → IsPlain w
one_of-IsPlain [] w h k = absurd (ground arith)
one_of-IsPlain (c ∷ choices) w h k = elim (Bool-cases (text_eq w c)) [
  | inl same ↦ subst IsPlain (sym ((text_eq_iff w c).0 same)) h.0
  | inr other ↦ one_of-IsPlain choices w h.1 (ground (arith, k))
]

pub All-IsPlain :
    (choices ws : List Text)
    → All IsPlain choices
    → All (λ w. one_of choices w ≡ true) ws
    → All IsPlain ws
All-IsPlain choices [] h k = tt
All-IsPlain choices (w ∷ ws) h k = (one_of-IsPlain choices w h k.0, All-IsPlain choices ws h k.1)
