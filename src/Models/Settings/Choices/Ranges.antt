-- ===== src/Models/Settings/Choices/Ranges.antt =====
-- The ports stay inside their ranges, the height of the sterile cockpit is a choice that no other one
-- is nearer than, and the downlink numbers count up.
use acars_printer.Prelude.{
  ℕ, zero, suc, ◌≡◌, ◌≤◌, refl, ap, ◌∙◌, sym, subst, Bool, true, false, Option, none, some, List,
  [], ◌∷◌, arith, or_else, if◌then◌else◌, ltb, any, ◌==◌, All, Bool-cases, inl, inr,
}
use acars_printer.Prelude.Int.{ℤ}
use acars_printer.Text.{
  Text, codes, int_of_text, text_of_int, to_decimal, int_of_text-text_of_int, is_empty,
  is_empty-to_decimal,
}
use acars_printer.Models.Settings.Store.{SettingsStore, get_key, set_key}
use acars_printer.Models.Settings.Forms.{IntArg, int_arg, int_or, get_or, text_or, get_key-stored}
use acars_printer.Models.Settings.Choices.{
  distance, nearest_from, nearest, is_choice, size_of, snapped, snapped_or_1500,
  sterile_agl_choices, sterile_agl_ft, set_sterile_agl_ft, port_or, companion_port, xplane_port,
  normalize_xplane_port, int_or_one, successor, current_downlink_min, next_downlink_min,
}

port_or-between :
    (default lowest : ℕ) (n : Option ℤ)
    → lowest ≤ default
    → default ≤ 65535
    → (lowest ≤ port_or default lowest n) × (port_or default lowest n ≤ 65535)
unfolding port_or
port_or-between default lowest none l h = (l, h)
port_or-between default lowest (some (ℤ.negsuc n)) l h = (l, h)
port_or-between default lowest (some (ℤ.pos n)) l h = ground arith

pub ports_between :
    (s : SettingsStore)
    → (1024 ≤ companion_port s)
      × (companion_port s ≤ 65535)
      × (1 ≤ xplane_port s)
      × (xplane_port s ≤ 65535)
unfolding companion_port xplane_port normalize_xplane_port
ports_between s =
    let c =
      port_or-between 8765 1024 (int_of_text (get_or (codes "companion_port") (codes "8765") s))
        (omega arith) (omega arith) in
    let x =
      port_or-between 49000 1
        (int_arg (IntArg.str (or_else (get_key (codes "xplane_port") s) (codes "49000"))))
        (omega arith) (omega arith) in
    (c.0, c.1, x.0, x.1)

closer-no_nearer :
    (v : ℤ) (best c : ℕ)
    → (distance (if ltb (distance c v) (distance best v) then c else best) v ≤ distance best v)
      × (distance (if ltb (distance c v) (distance best v) then c else best) v ≤ distance c v)
closer-no_nearer v best c = elim (Bool-cases (ltb (distance c v) (distance best v))) [
  | inl nearer ↦ rw nearer (grind arith, omega arith)
  | inr not_nearer ↦ rw not_nearer (omega arith, grind arith)
]

le_trans : {a b c : ℕ} → a ≤ b → b ≤ c → a ≤ c
le_trans h k = omega arith

-- The nearest of the best so far and of more choices.
nearest_from-no_nearer :
    (v : ℤ) (best : ℕ) (cs : List ℕ)
    → (distance (nearest_from v best cs) v ≤ distance best v)
      × All (λ c. distance (nearest_from v best cs) v ≤ distance c v) cs
unfolding nearest_from
nearest_from-no_nearer v best [] = (omega arith, tt)
nearest_from-no_nearer v best (c ∷ cs) =
    let next : ℕ = if ltb (distance c v) (distance best v) then c else best in
    let closer = closer-no_nearer v best c in
    let rest = nearest_from-no_nearer v next cs in
    (le_trans rest.0 closer.0, (le_trans rest.0 closer.1, rest.1))

any-next :
    (x best c : ℕ) (cs : List ℕ) (b : Bool)
    → any (λ d. x == d) ((if b then c else best) ∷ cs) ≡ true
    → any (λ d. x == d) (best ∷ c ∷ cs) ≡ true
any-next x best c cs true h = ground arith
any-next x best c cs false h = ground arith

-- It is one of the choices.
nearest_from-one_of :
    (v : ℤ) (best : ℕ) (cs : List ℕ) → any (λ c. nearest_from v best cs == c) (best ∷ cs) ≡ true
unfolding nearest_from
nearest_from-one_of v best [] = ground arith
nearest_from-one_of v best (c ∷ cs) =
    any-next _ best c cs (ltb (distance c v) (distance best v))
      (nearest_from-one_of v (if ltb (distance c v) (distance best v) then c else best) cs)

zero_is_first :
    (x : ℕ)
    → any (λ c. x == c) (0 ∷ sterile_agl_choices) ≡ true
    → any (λ c. x == c) sterile_agl_choices ≡ true
unfolding sterile_agl_choices
zero_is_first x h = ground arith

-- A choice that the value is has distance 0.
distance-choice : (v : ℤ) → is_choice v ≡ true → distance (size_of v) v ≡ 0
unfolding distance is_choice size_of
distance-choice (ℤ.pos n) h = omega arith
distance-choice (ℤ.negsuc n) h = ground arith

All_far : (m : ℕ) (v : ℤ) (cs : List ℕ) → m ≡ 0 → All (λ c. m ≤ distance c v) cs
All_far m v [] e = tt
All_far m v (c ∷ cs) e = (omega arith, All_far m v cs e)

-- The height that a value snaps to: a choice, and no other choice is nearer.
pub record IsNearest (v : ℤ) (n : ℕ) : Type 0 where
  pub chosen : any (λ c. n == c) sterile_agl_choices ≡ true
  pub no_nearer : All (λ c. distance n v ≤ distance c v) sterile_agl_choices

is_choice-any : (v : ℤ) → is_choice v ≡ true → any (λ c. size_of v == c) sterile_agl_choices ≡ true
unfolding is_choice size_of
is_choice-any (ℤ.pos n) h = h
is_choice-any (ℤ.negsuc n) h = ground arith

pub snapped-IsNearest : (v : ℤ) → IsNearest v (snapped v)
unfolding snapped nearest
snapped-IsNearest v = elim (Bool-cases (is_choice v)) [
  | inl choice ↦ rw choice record {
    chosen = is_choice-any v choice;
    no_nearer = All_far (distance (size_of v) v) v sterile_agl_choices (distance-choice v choice);
  }
  | inr other ↦ rw other record {
    chosen =
        zero_is_first (nearest_from v 0 sterile_agl_choices)
          (nearest_from-one_of v 0 sterile_agl_choices);
    no_nearer = (nearest_from-no_nearer v 0 sterile_agl_choices).1;
  }
]

-- A choice snaps to itself.
snapped-choice : (n : ℕ) → any (λ c. n == c) sterile_agl_choices ≡ true → snapped (ℤ.pos n) ≡ n
unfolding snapped is_choice size_of
snapped-choice n h = rw h refl

int_or-to_decimal : (t : Text) (d : ℕ) → is_empty t ≡ false → int_or t d ≡ int_of_text t
unfolding int_or
int_or-to_decimal [] d h = ground arith
int_or-to_decimal (c ∷ t) d h = refl

-- What was set is read: the choice nearest to the argument.
pub sterile_agl_ft-set_sterile_agl_ft :
    (feet : IntArg) (s : SettingsStore)
    → sterile_agl_ft (set_sterile_agl_ft feet s) ≡ snapped (or_else (int_arg feet) (ℤ.pos 1500))
unfolding sterile_agl_ft set_sterile_agl_ft snapped_or_1500 text_of_int
sterile_agl_ft-set_sterile_agl_ft feet s =
    let v = or_else (int_arg feet) (ℤ.pos 1500) in
    let n = snapped v in
    let read = get_key-stored (codes "sterile_agl_ft") (some (to_decimal n)) s in
    let number =
      int_or-to_decimal (to_decimal n) 1500 (is_empty-to_decimal n)
      ∙ int_of_text-text_of_int (ℤ.pos n) in
    rw read (rw number (snapped-choice n (snapped-IsNearest v).chosen))

get_or-stored :
    (key default t : Text) (s : SettingsStore)
    → is_empty t ≡ false
    → get_or key default (set_key key (some t) s) ≡ t
unfolding get_or
get_or-stored key default t s h = rw (get_key-stored key (some t) s) (text_or-filled t h)
  where
    text_or-filled : (t : Text) → is_empty t ≡ false → text_or t default ≡ t
    text_or-filled [] h = ground arith
    text_or-filled (c ∷ t) h = refl

is_empty-text_of_int : (n : ℤ) → is_empty (text_of_int n) ≡ false
unfolding text_of_int
is_empty-text_of_int (ℤ.pos n) = is_empty-to_decimal n
is_empty-text_of_int (ℤ.negsuc n) = refl

pub current-next :
    (s : SettingsStore)
    → current_downlink_min (next_downlink_min s).1 ≡ successor (current_downlink_min s)
unfolding current_downlink_min next_downlink_min int_or_one
current-next s =
    let n = successor (current_downlink_min s) in
    rw
      (get_or-stored (codes "next_downlink_min") (codes "1") (text_of_int n) s
        (is_empty-text_of_int n))
      (rw (int_of_text-text_of_int n) refl)

-- The numbers of that many downlinks, one after the other.
unfoldable pub downlink_mins : ℕ → SettingsStore → List ℤ
downlink_mins zero s = []
downlink_mins (suc n) s = (next_downlink_min s).0 ∷ downlink_mins n (next_downlink_min s).1

-- That many numbers from the first one, each one above the one before.
unfoldable pub count_from : ℕ → ℤ → List ℤ
unfolding successor
count_from zero first = []
count_from (suc n) first = first ∷ count_from n (successor first)

-- From any table, the numbers of that many downlinks count up from the current one.
pub downlink_mins-count_from :
    (n : ℕ) (s : SettingsStore) → downlink_mins n s ≡ count_from n (current_downlink_min s)
unfolding downlink_mins count_from
downlink_mins-count_from zero s = refl
downlink_mins-count_from (suc n) s =
    let first : (next_downlink_min s).0 ≡ current_downlink_min s =
      unfold next_downlink_min in refl in
    let rest =
      downlink_mins-count_from n (next_downlink_min s).1 ∙ ap (count_from n) (current-next s) in
    cc

-- The height of the sterile cockpit, after it was set, is one of the choices, and no other one is nearer
-- to the given number of feet, or to 1500 when the argument is no number.
pub sterile_agl_ft-IsNearest :
    (feet : IntArg) (s : SettingsStore)
    → IsNearest (or_else (int_arg feet) (ℤ.pos 1500)) (sterile_agl_ft (set_sterile_agl_ft feet s))
sterile_agl_ft-IsNearest feet s =
    let v = or_else (int_arg feet) (ℤ.pos 1500) in
    subst (IsNearest v) (sym (sterile_agl_ft-set_sterile_agl_ft feet s)) (snapped-IsNearest v)
