-- ===== src/Models/Settings/Profiles/Found.antt =====
-- A profile that was saved is found by its name, which is none of a profile that is built in.
use acars_printer.Prelude.{
  ◌≡◌, refl, sym, ap, ◌∙◌, subst, Bool, true, false, Option, some, List, [], ◌∷◌, ◌++◌, map, all,
  arith, ◌||◌, ltb, length, Bool-cases, inl, inr, if◌then◌else◌,
}
use acars_printer.Text.{
  Text, codes, is_empty, text_eq, text_eq_iff, text_eq_sym, one_of, strip, lower, words, join,
}
use acars_printer.Text.Joined.{strip-join-words}
use acars_printer.Hoppie.Types.{Result, Error}
use acars_printer.Models.Settings.Store.{SettingsStore}
use acars_printer.Models.Settings.Sanitize.{Payload, sanitize_payload, payload_of}
use acars_printer.Models.Settings.Profiles.{
  PrintProfile, ProfileJson, builtin_profiles, builtin_profile, list_profiles, profile_named,
  get_print_profile, user_profiles, normalize_profile_name,
}
use acars_printer.Models.Settings.Profiles.Saved.{put_profile}

-- A name that `normalize_profile_name` gives.
pub record IsName (name : Text) : Type 0 where
  pub filled : is_empty name ≡ false
  pub stripped : strip name ≡ name
  pub no_id : one_of (map (λ p. p.id) builtin_profiles) (lower name) ≡ false
  pub no_label : one_of (map (λ p. lower p.label) builtin_profiles) (lower name) ≡ false

accepted :
    (a b c : Bool) (x y z : Error) (t cleaned : Text)
    → ◌≡◌ {A = Result Text}
        (if a
          then Result.raise x
          else if b
          then Result.raise y
          else if c
          then Result.raise z
          else Result.ok t)
        (Result.ok cleaned)
    → (a ≡ false) × (c ≡ false) × (t ≡ cleaned)
accepted true b c x y z t cleaned e = cc
accepted false true c x y z t cleaned e = cc
accepted false false true x y z t cleaned e = cc
accepted false false false x y z t cleaned e = (refl, refl, cc)

pub normalize_profile_name-IsName :
    (name cleaned : Text) → normalize_profile_name name ≡ Result.ok cleaned → IsName cleaned
unfolding normalize_profile_name
normalize_profile_name-IsName name cleaned e =
    let joined = join (codes " ") (words (strip name)) in
    let (filled, apart, same) =
      accepted (is_empty joined) (ltb 48 (length joined))
        (one_of (map (λ p. p.id) builtin_profiles) (lower joined)
          || one_of (map (λ p. lower p.label) builtin_profiles) (lower joined))
        _ _ _ joined cleaned e in
    subst IsName same record {
      filled = filled;
      stripped = strip-join-words (strip name);
      no_id = ground arith;
      no_label = ground arith;
    }

id_apart :
    (id name : Text)
    → text_eq (lower id) id ≡ true
    → text_eq (lower name) id ≡ false
    → text_eq id name ≡ false
id_apart id name l h = elim (Bool-cases (text_eq id name)) [
  | inl w ↦ let moved = ap (λ t. text_eq (lower t) id) ((text_eq_iff id name).0 w) in cc
  | inr w ↦ w
]

label_apart :
    (label name : Text) → text_eq (lower name) (lower label) ≡ false → text_eq label name ≡ false
label_apart label name h = elim (Bool-cases (text_eq label name)) [
  | inl w ↦
      let moved = ap (λ t. text_eq (lower t) (lower label)) ((text_eq_iff label name).0 w) in
      let same = (text_eq_iff (lower label) (lower label)).1 refl in cc
  | inr w ↦ w
]

-- The name is none of the profiles in front.
named_elsewhere :
    (name : Text) (ps qs : List PrintProfile)
    → all (λ p. text_eq (lower p.id) p.id) ps ≡ true
    → one_of (map (λ p. p.id) ps) (lower name) ≡ false
    → one_of (map (λ p. lower p.label) ps) (lower name) ≡ false
    → profile_named name (ps ++ qs) ≡ profile_named name qs
unfolding profile_named
named_elsewhere name [] qs l i h = refl
named_elsewhere name (p ∷ ps) qs l i h =
    rw (id_apart p.id name (ground arith) (ground arith), label_apart p.label name (ground arith))
      (named_elsewhere name ps qs (ground arith) (ground arith) (ground arith))

pub record IsListed (name : Text) (payload : Payload) (found : Option PrintProfile) : Type 0 where
  pub profile : PrintProfile
  pub is_found : found ≡ some profile
  pub holds : profile.payload ≡ payload_of (sanitize_payload payload)

put_profile-IsListed :
    (name : Text) (payload : Payload) (ps : List (Text × Payload))
    → IsListed name payload (profile_named name (list_profiles (put_profile name payload ps)))
unfolding profile_named list_profiles put_profile
put_profile-IsListed name payload [] =
    rw ((text_eq_iff name name).1 refl) record { profile = _; is_found = refl; holds = refl }
put_profile-IsListed name payload ((n, p) ∷ rest) = elim (Bool-cases (text_eq name n)) [
  | inl e ↦ rw e (rw (text_eq_sym n name ∙ e) record { profile = _; is_found = refl; holds = refl })
  | inr e ↦ rw e (rw (text_eq_sym n name ∙ e) (put_profile-IsListed name payload rest))
]

ids_are_low : all (λ p. text_eq (lower p.id) p.id) builtin_profiles ≡ true
unfolding builtin_profiles builtin_profile lower text_eq
ids_are_low = refl

-- Found by a name that is no profile's that is built in.
pub get_print_profile-put :
    (json : ProfileJson) (name : Text) (payload : Payload) (ps : List (Text × Payload))
    (t : SettingsStore)
    → IsName name
    → user_profiles json t ≡ put_profile name payload ps
    → IsListed name payload (get_print_profile json name t)
unfolding get_print_profile
get_print_profile-put json name payload ps t h e = rw h.stripped (
    rw (h.filled, e)
      (subst (IsListed name payload)
        (sym (named_elsewhere name builtin_profiles _ ids_are_low h.no_id h.no_label))
        (put_profile-IsListed name payload ps)))
