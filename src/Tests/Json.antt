-- ===== src/Tests/Json.antt =====
-- A `json` that gives back what it wrote: every list and text stands after its length.
use acars_printer.Prelude.{
  ℕ, zero, suc, ◌≡◌, refl, ap, Bool, true, false, Option, some, List, [], ◌∷◌, ◌++◌, length, take,
  drop, map, if◌then◌else◌,
}
use acars_printer.Prelude.Int.{ℤ}
use acars_printer.Text.{Text}
use acars_printer.Models.Settings.Sanitize.{Value, Payload}
use acars_printer.Models.Settings.Profiles.{ProfileJson}
use acars_printer.Models.Settings.Profiles.Recall.{ReadsBack}

unfoldable pub write_text : Text → Text → Text
write_text t s = length t ∷ (t ++ s)

unfoldable pub write_value : Value → Text → Text
unfolding write_text
write_value Value.null s = 0 ∷ s
write_value (Value.truth b) s = 1 ∷ (if b then 1 else 0) ∷ s
write_value (Value.whole (ℤ.pos n)) s = 2 ∷ n ∷ s
write_value (Value.whole (ℤ.negsuc n)) s = 3 ∷ n ∷ s
write_value (Value.words_of t) s = 4 ∷ write_text t s

module _ {A : Type 0} (write : A → Text → Text) where
  unfoldable pub write_entries : List (Text × A) → Text → Text
  unfolding write_text
  write_entries [] s = s
  write_entries ((name, a) ∷ entries) s = write_text name (write a (write_entries entries s))

  unfoldable pub write_all : List (Text × A) → Text → Text
  unfolding write_entries
  write_all entries s = length entries ∷ write_entries entries s

unfoldable pub read_text : Text → Text × Text
read_text [] = ([], [])
read_text (n ∷ s) = (take n s, drop n s)

read_bool : ℕ → Bool
read_bool zero = false
read_bool (suc n) = true

unfoldable pub read_value : Text → Value × Text
unfolding read_text read_bool
read_value [] = (Value.null, [])
read_value (zero ∷ s) = (Value.null, s)
read_value (suc kind ∷ []) = (Value.null, [])
read_value (suc zero ∷ n ∷ s) = (Value.truth (read_bool n), s)
read_value (suc (suc zero) ∷ n ∷ s) = (Value.whole (ℤ.pos n), s)
read_value (suc (suc (suc zero)) ∷ n ∷ s) = (Value.whole (ℤ.negsuc n), s)
read_value (suc (suc (suc (suc kind))) ∷ n ∷ s) =
    let (t, s) = read_text (n ∷ s) in (Value.words_of t, s)

module _ {A : Type 0} (read : Text → A × Text) where
  unfoldable pub read_entries : ℕ → Text → List (Text × A) × Text
  unfolding read_text
  read_entries zero s = ([], s)
  read_entries (suc n) s =
      let (name, s) = read_text s in
      let (a, s) = read s in let (entries, s) = read_entries n s in ((name, a) ∷ entries, s)

  unfoldable pub read_all : Text → List (Text × A) × Text
  unfolding read_entries
  read_all [] = ([], [])
  read_all (n ∷ s) = read_entries n s

take-length : (t s : Text) → take (length t) (t ++ s) ≡ t
take-length [] s = refl
take-length (c ∷ t) s = ap (λ u. c ∷ u) (take-length t s)

drop-length : (t s : Text) → drop (length t) (t ++ s) ≡ s
drop-length [] s = refl
drop-length (c ∷ t) s = drop-length t s

read-write_text : (t s : Text) → read_text (write_text t s) ≡ (t, s)
unfolding read_text write_text
read-write_text t s = rw (take-length t s, drop-length t s) refl

read-write_value : (v : Value) (s : Text) → read_value (write_value v s) ≡ (v, s)
unfolding read_value write_value
read-write_value Value.null s = refl
read-write_value (Value.truth true) s = refl
read-write_value (Value.truth false) s = refl
read-write_value (Value.whole (ℤ.pos n)) s = refl
read-write_value (Value.whole (ℤ.negsuc n)) s = refl
read-write_value (Value.words_of t) s = ap (λ (t, s). (Value.words_of t, s)) (read-write_text t s)

module _ {A : Type 0} (write : A → Text → Text) (read : Text → A × Text)
    (back : (a : A) (s : Text) → read (write a s) ≡ (a, s)) where
  read-write_entries :
      (entries : List (Text × A)) (s : Text)
      → read_entries read (length entries) (write_entries write entries s) ≡ (entries, s)
  unfolding read_entries write_entries read_text write_text
  read-write_entries [] s = refl
  read-write_entries ((name, a) ∷ entries) s =
      let rest = write a (write_entries write entries s) in
      rw (take-length name rest, drop-length name rest)
        (rw (back a (write_entries write entries s)) (rw (read-write_entries entries s) refl))

  read-write_all :
      (entries : List (Text × A)) (s : Text)
      → read_all read (write_all write entries s) ≡ (entries, s)
  unfolding read_all write_all
  read-write_all entries s = read-write_entries entries s

abbrev pub as_read : Text × Payload → Text × Option Payload
as_read (name, payload) = (name, some payload)

unfoldable pub test_json : ProfileJson
unfolding write_all read_all
test_json = record {
  dumps = λ profiles. write_all (write_all write_value) profiles [];
  loads = λ raw.
      some (map (λ (name, payload). (name, some payload)) (read_all (read_all read_value) raw).0);
}

pub test_json-ReadsBack : ReadsBack test_json
unfolding test_json
test_json-ReadsBack = record {
  filled = λ profiles. refl;
  again = λ profiles nested.
      ap (λ r. some (map (λ (name, payload). (name, some payload)) r.0))
        (read-write_all (write_all write_value) (read_all read_value)
          (read-write_all write_value read_value read-write_value) profiles []);
}
