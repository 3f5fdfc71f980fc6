-- ===== src/Models/Settings/Store.antt =====
-- `get` and `set` of `SettingsStore` over the rows of the table `settings`, with the law that joins
-- them and the readings that several methods share.
use acars_printer.Prelude.{
  ◌≡◌, refl, sym, ap, ◌∙◌, true, false, Option, none, some, List, [], ◌∷◌, if◌then◌else◌,
  Bool-cases, inl, inr,
}
use acars_printer.Text.{Text, text_eq, text_eq_iff}

-- The rows of the table: a key and its value.
pub record SettingsStore : Type 0 where
  pub rows : List (Text × Text)

lookup : Text → List (Text × Text) → Option Text
lookup key [] = none
lookup key ((k, v) ∷ rows) = let rest = lookup key rows in if text_eq k key then some v else rest

-- `INSERT … ON CONFLICT(key) DO UPDATE`.
upsert : Text → Text → List (Text × Text) → List (Text × Text)
upsert key value [] = (key, value) ∷ []
upsert key value ((k, v) ∷ rows) =
    let rest = upsert key value rows in if text_eq key k then (k, value) ∷ rows else (k, v) ∷ rest

-- `DELETE … WHERE key = ?`.
delete : Text → List (Text × Text) → List (Text × Text)
delete key [] = []
delete key ((k, v) ∷ rows) =
    let rest = delete key rows in if text_eq key k then rest else (k, v) ∷ rest

-- `get` without a default.
unfoldable pub get_key : Text → SettingsStore → Option Text
unfolding lookup
get_key key s = lookup key s.rows

unfoldable pub set_key : Text → Option Text → SettingsStore → SettingsStore
unfolding upsert delete
set_key key none s = record { rows = delete key s.rows }
set_key key (some value) s = record { rows = upsert key value s.rows }

-- Two keys, of which only one is the other: the row of a key that was not asked for.
text_eq_apart : (j k k' : Text) → text_eq k k' ≡ false → text_eq k' j ≡ true → text_eq k j ≡ false
text_eq_apart j k k' f u = elim (Bool-cases (text_eq k j)) [
  | inl w ↦
      let both : k ≡ k' = (text_eq_iff k j).0 w ∙ sym ((text_eq_iff k' j).0 u) in
      let same = (text_eq_iff k k').1 both in cc
  | inr w ↦ w
]

lookup-upsert :
    (j k v : Text) (rows : List (Text × Text))
    → lookup j (upsert k v rows) ≡ (if text_eq k j then some v else lookup j rows)
unfolding lookup upsert
lookup-upsert j k v [] = refl
lookup-upsert j k v ((k', v') ∷ rows) = elim (Bool-cases (text_eq k k')) [
  | inl t ↦
      let e = ap (λ x. text_eq x j) ((text_eq_iff k k').0 t) in
      rw (t, e) (elim (Bool-cases (text_eq k' j)) [ inl u ↦ rw u refl | inr u ↦ rw u refl ])
  | inr f ↦
      rw (f, lookup-upsert j k v rows)
        (elim (Bool-cases (text_eq k' j)) [
          | inl u ↦ rw (u, text_eq_apart j k k' f u) refl
          | inr u ↦ rw u refl
        ])
]

lookup-delete :
    (j k : Text) (rows : List (Text × Text))
    → lookup j (delete k rows) ≡ (if text_eq k j then none else lookup j rows)
unfolding lookup delete
lookup-delete j k [] = elim (Bool-cases (text_eq k j)) [ inl u ↦ rw u refl | inr u ↦ rw u refl ]
lookup-delete j k ((k', v') ∷ rows) = elim (Bool-cases (text_eq k k')) [
  | inl t ↦
      let e = ap (λ x. text_eq x j) ((text_eq_iff k k').0 t) in
      rw (t, lookup-delete j k rows, e)
        (elim (Bool-cases (text_eq k' j)) [ inl u ↦ rw u refl | inr u ↦ rw u refl ])
  | inr f ↦
      rw (f, lookup-delete j k rows)
        (elim (Bool-cases (text_eq k' j)) [
          | inl u ↦ rw (u, text_eq_apart j k k' f u) refl
          | inr u ↦ rw u refl
        ])
]

-- A key reads what was last stored under it, and keeps its value when another is stored.
pub get_key-set_key :
    (j k : Text) (v : Option Text) (s : SettingsStore)
    → get_key j (set_key k v s) ≡ (if text_eq k j then v else get_key j s)
unfolding get_key set_key
get_key-set_key j k none s = lookup-delete j k s.rows
get_key-set_key j k (some v) s = lookup-upsert j k v s.rows
