-- ===== src/Tap/Proxy/Patch/Fields.antt =====
-- What the filling of a form does to its fields.
use acars_printer.Prelude.{
  ◌≡◌, refl, sym, ap, subst, ◌∙◌, Bool, true, false, List, [], ◌∷◌, ◌++◌, append-nil, map, any, not,
  ◌&&◌, ◌||◌, if◌then◌else◌, arith, Bool-cases, inl, inr, ◌==◌, length,
}
use acars_printer.Text.{Text, codes, is_empty, text_eq, lower, strip}
use acars_printer.Tap.Proxy.Patch.{
  Codec, is_from, is_blank_from, fill_pair, filled_pairs, notes_for, notes_of, no_notes,
  form_patch_fields,
}

unfoldable pub others : List (Text × Text) → List (Text × Text)
others [] = []
others (p ∷ pairs) = let rest = others pairs in if is_from p then rest else p ∷ rest

any-append :
    (p : Text × Text → Bool) (xs ys : List (Text × Text))
    → any p (xs ++ ys) ≡ (any p xs || any p ys)
any-append p [] ys = refl
any-append p (x ∷ xs) ys = ground (arith, any-append p xs ys)

from_is_from : (fill : Text) → is_from (codes "from", fill) ≡ true
unfolding is_from text_eq lower
from_is_from fill = refl

is_from-fill_pair : (fill : Text) (p : Text × Text) → is_from (fill_pair fill p) ≡ is_from p
unfolding fill_pair is_from
is_from-fill_pair fill (key, value) = ground arith

filled_is_not_blank :
    (fill : Text) (p : Text × Text)
    → is_empty (strip fill) ≡ false
    → is_blank_from (fill_pair fill p) ≡ false
unfolding fill_pair is_blank_from is_from
filled_is_not_blank fill (key, value) h = ground arith

filled_from :
    (fill : Text) → is_empty (strip fill) ≡ false → is_blank_from (codes "from", fill) ≡ false
unfolding is_blank_from
filled_from fill h = rw (from_is_from fill, h) refl

any_from-map :
    (fill : Text) (pairs : List (Text × Text))
    → any is_from (map (fill_pair fill) pairs) ≡ any is_from pairs
any_from-map fill [] = refl
any_from-map fill (p ∷ pairs) = rw (is_from-fill_pair fill p, any_from-map fill pairs) refl

none_blank-map :
    (fill : Text) (pairs : List (Text × Text))
    → is_empty (strip fill) ≡ false
    → any is_blank_from (map (fill_pair fill) pairs) ≡ false
none_blank-map fill [] h = refl
none_blank-map fill (p ∷ pairs) h =
    rw (filled_is_not_blank fill p h, none_blank-map fill pairs h) refl

fill_pair-other : (fill : Text) (p : Text × Text) → is_from p ≡ false → fill_pair fill p ≡ p
unfolding fill_pair is_blank_from
fill_pair-other fill (key, value) h = rw h refl

others-map :
    (fill : Text) (pairs : List (Text × Text)) → others (map (fill_pair fill) pairs) ≡ others pairs
unfolding others
others-map fill [] = refl
others-map fill (p ∷ pairs) = elim (Bool-cases (is_from p)) [
  | inl e ↦ rw (is_from-fill_pair fill p, e) (others-map fill pairs)
  | inr e ↦
      rw (is_from-fill_pair fill p, e)
        (ap (◌∷◌ (fill_pair fill p)) (others-map fill pairs)
          ∙ ap (λ q. q ∷ others pairs) (fill_pair-other fill p e))
]

others-append : (xs ys : List (Text × Text)) → others (xs ++ ys) ≡ others xs ++ others ys
unfolding others
others-append [] ys = refl
others-append (p ∷ xs) ys = ground (arith, others-append xs ys)

-- The fields of a form that names its sender, and the same as another's but for the sender.
pub record IsFilled (pairs filled : List (Text × Text)) : Type 0 where
  pub named : any is_from filled ≡ true
  pub not_blank : any is_blank_from filled ≡ false
  pub others_kept : others filled ≡ others pairs

filled_pairs-IsFilled :
    (fill : Text) (pairs : List (Text × Text))
    → is_empty (strip fill) ≡ false
    → IsFilled pairs (filled_pairs fill pairs)
unfolding filled_pairs others
filled_pairs-IsFilled fill pairs h =
    let kept = any_from-map fill pairs in
    let solid = none_blank-map fill pairs h in
    let same = others-map fill pairs in
    elim (Bool-cases (any is_from pairs)) [
      | inl e ↦
          rw (e, append-nil (map (fill_pair fill) pairs))
            record { named = kept ∙ e; not_blank = solid; others_kept = same }
      | inr e ↦ rw e record {
        named =
            any-append is_from (map (fill_pair fill) pairs) _
            ∙ rw (kept, e, from_is_from fill) refl;
        not_blank =
            any-append is_blank_from (map (fill_pair fill) pairs) _
            ∙ rw (solid, filled_from fill h) refl;
        others_kept =
            others-append (map (fill_pair fill) pairs) _
            ∙ rw (same, from_is_from fill) (append-nil (others pairs));
      }
    ]

no_notes-append : (xs ys : List Text) → no_notes (xs ++ ys) ≡ (no_notes xs && no_notes ys)
no_notes-append [] ys = refl
no_notes-append (x ∷ xs) ys = refl

no_notes-notes_for :
    (fill : Text) (pairs : List (Text × Text))
    → no_notes (notes_for fill pairs) ≡ not (any is_blank_from pairs)
unfolding notes_for
no_notes-notes_for fill [] = refl
no_notes-notes_for fill (p ∷ pairs) = elim (Bool-cases (is_blank_from p)) [
  | inl e ↦ rw e refl
  | inr e ↦ rw e (no_notes-notes_for fill pairs)
]

no_notes-notes_of :
    (fill : Text) (pairs : List (Text × Text))
    → no_notes (notes_of fill pairs) ≡ (not (any is_blank_from pairs) && any is_from pairs)
unfolding notes_of
no_notes-notes_of fill pairs =
    let front = no_notes-notes_for fill pairs in
    elim (Bool-cases (any is_from pairs)) [
      | inl e ↦ no_notes-append (notes_for fill pairs) _ ∙ rw (front, e) refl
      | inr e ↦ no_notes-append (notes_for fill pairs) _ ∙ rw (front, e) refl
    ]

if_same {ℓ} : {A : Type ℓ} (b : Bool) (a : A) → (if b then a else a) ≡ a
if_same true a = refl
if_same false a = refl

-- A form that needs no filling is left alone.
filled_alone :
    (x : Codec) (fill text : Text)
    → any is_from (x.parse_qsl text) ≡ true
    → any is_blank_from (x.parse_qsl text) ≡ false
    → form_patch_fields x fill text ≡ (text, [])
unfolding form_patch_fields
filled_alone x fill text n b =
    let none_left = no_notes-notes_of fill (x.parse_qsl text) in
    let quiet : no_notes (notes_of fill (x.parse_qsl text)) ≡ true = none_left ∙ rw (b, n) refl in
    rw quiet (if_same (is_empty text && length (x.parse_qsl text) == 0) (text, []))

patched_text :
    (x : Codec) (fill text : Text)
    → is_empty text ≡ false
    → (form_patch_fields x fill text).0 ≡ (
        if no_notes (notes_of fill (x.parse_qsl text))
        then text
        else x.urlencode (filled_pairs fill (x.parse_qsl text)))
unfolding form_patch_fields
patched_text x fill text t = elim (Bool-cases (no_notes (notes_of fill (x.parse_qsl text)))) [
  | inl e ↦ rw (t, e) refl
  | inr e ↦ rw (t, e) refl
]

both_parts : (a b : Bool) → (not a && b) ≡ true → (b ≡ true) × (a ≡ false)
both_parts a b h = (ground arith, ground arith)

-- A form that is not empty, patched with a callsign that is not blank, names its sender in every field
-- for it, has the other fields as they were, and is left alone when it is patched again; provided that
-- the fields which the patch writes are read back.
pub form_patch_fields-IsFilled :
    (x : Codec) (fill text : Text)
    → is_empty text ≡ false
    → is_empty (strip fill) ≡ false
    → x.parse_qsl (x.urlencode (filled_pairs fill (x.parse_qsl text)))
      ≡ filled_pairs fill (x.parse_qsl text)
    → IsFilled (x.parse_qsl text) (x.parse_qsl (form_patch_fields x fill text).0)
      × (form_patch_fields x fill (form_patch_fields x fill text).0
          ≡ ((form_patch_fields x fill text).0, []))
form_patch_fields-IsFilled x fill text t f r =
    let pairs = x.parse_qsl text in
    let Good : Text → Type 0 =
      λ out. IsFilled pairs (x.parse_qsl out) × (form_patch_fields x fill out ≡ (out, [])) in
    let done = patched_text x fill text t in
    subst Good (sym done) (elim (Bool-cases (no_notes (notes_of fill pairs))) [
      | inl e ↦
          let parts = both_parts _ _ (sym (no_notes-notes_of fill pairs) ∙ e) in
          rw e (
            record { named = parts.0; not_blank = parts.1; others_kept = refl },
            filled_alone x fill text parts.0 parts.1,
          )
      | inr e ↦
          let filled = filled_pairs-IsFilled fill pairs f in
          rw (e, r)
            (
              filled,
              filled_alone x fill _ (ap (any is_from) r ∙ filled.named)
                  (ap (any is_blank_from) r ∙ filled.not_blank),
            )
    ])
