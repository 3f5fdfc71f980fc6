-- ===== src/Models/Settings/Kinds/ReadBack.antt =====
-- The sets of words that the settings keep are read as they were written.
use acars_printer.Prelude.{
  ◌≡◌, refl, ap, ◌∙◌, Bool, true, false, some, List, [], ◌∷◌, arith, or_else, All, map, not, ◌&&◌,
  Bool-cases, inl, inr,
}
use acars_printer.Text.{
  Text, codes, is_empty, text_eq, text_eq_iff, one_of, split_on, join, strip, lower, is_space,
}
use acars_printer.Models.Settings.Store.{SettingsStore, get_key}
use acars_printer.Models.Settings.Forms.{get_key-stored}
use acars_printer.Models.Settings.Kinds.Sets.{
  IsPlain, split_on-join, map-cleaned, one_of-keep_if, one_of-sorted_set, All-one_of, All-IsPlain,
}
use acars_printer.Models.Settings.Kinds.{
  keep_if, sorted_set, cleaned, parts_of, read_kinds, write_kinds, printable_type_choices,
  printable_types, set_printable_types, ofp_ticket_choices, simbrief_ofp_tickets,
  set_simbrief_ofp_tickets, wx_auto_kind_choices, wx_auto_kinds, set_wx_auto_kinds,
}

keep_if-all : (p : Text → Bool) (ws : List Text) → All (λ w. p w ≡ true) ws → keep_if p ws ≡ ws
unfolding keep_if
keep_if-all p [] h = refl
keep_if-all p (w ∷ ws) h = rw (h.0, keep_if-all p ws h.1) refl

-- A list of plain words that pass a test is read back from the text that keeps it.
keep_if-parts_of :
    (p : Text → Bool) (ws : List Text)
    → p [] ≡ false
    → All (λ w. p w ≡ true) ws
    → All IsPlain ws
    → keep_if p (parts_of (join (codes ",") ws)) ≡ ws
unfolding parts_of
keep_if-parts_of p [] e h k = unfold join split_on cleaned strip lower keep_if in rw e refl
keep_if-parts_of p (w ∷ ws) e h k =
    rw (split_on-join w ws k, map-cleaned (w ∷ ws) k) (keep_if-all p (w ∷ ws) h)

-- What a setter stores: the choices among the words that it is given.
stored : List Text → List Text → List Text
stored choices words = sorted_set (keep_if (one_of choices) (map cleaned words))

one_of-stored :
    (choices words : List Text) (w : Text)
    → one_of (stored choices words) w ≡ (one_of choices w && one_of (map cleaned words) w)
unfolding stored
one_of-stored choices words w =
    one_of-sorted_set (keep_if (one_of choices) (map cleaned words)) w
    ∙ one_of-keep_if (one_of choices) (map cleaned words) w

stored-All : (choices words : List Text) → All (λ w. one_of choices w ≡ true) (stored choices words)
stored-All choices words =
    All-one_of choices (stored choices words)
      (λ w h. let e = one_of-stored choices words w in ground arith)

-- A test that every plain choice passes and the empty text fails.
record IsTest (choices : List Text) (p : Text → Bool) : Type 0 where
  plain : All IsPlain choices
  rejects : p [] ≡ false
  accepts : (w : Text) → one_of choices w ≡ true → p w ≡ true

All-imp :
    (p q : Text → Bool) (ws : List Text)
    → ((w : Text) → p w ≡ true → q w ≡ true)
    → All (λ w. p w ≡ true) ws
    → All (λ w. q w ≡ true) ws
All-imp p q [] f h = tt
All-imp p q (w ∷ ws) f h = (f w h.0, All-imp p q ws f h.1)

read_stored :
    (choices : List Text) (p : Text → Bool) (key default : Text) (words : List Text)
    (s : SettingsStore) (w : Text)
    → IsTest choices p
    → one_of
        (keep_if p (parts_of (or_else (get_key key (write_kinds choices key words s)) default)))
        w
      ≡ (one_of choices w && one_of (map cleaned words) w)
unfolding write_kinds stored
read_stored choices p key default words s w t =
    let kept : List Text = stored choices words in
    let every = stored-All choices words in
    let read = get_key-stored key (some (join (codes ",") kept)) s in
    let back =
      keep_if-parts_of p kept t.rejects (All-imp (one_of choices) p kept t.accepts every)
        (All-IsPlain choices kept t.plain every) in
    ap (λ v. one_of (keep_if p (parts_of (or_else v default))) w) read
    ∙ ap (λ ws. one_of ws w) back
    ∙ one_of-stored choices words w

printable_type-IsPlain : All IsPlain printable_type_choices
unfolding printable_type_choices cleaned strip lower is_space
printable_type-IsPlain = (
  record { whole = refl; clean = refl; some_text = refl },
  (
    record { whole = refl; clean = refl; some_text = refl },
    (record { whole = refl; clean = refl; some_text = refl }, tt),
  ),
)

ofp_ticket-IsPlain : All IsPlain ofp_ticket_choices
unfolding ofp_ticket_choices cleaned strip lower is_space
ofp_ticket-IsPlain = (
  record { whole = refl; clean = refl; some_text = refl },
  (
    record { whole = refl; clean = refl; some_text = refl },
    (
      record { whole = refl; clean = refl; some_text = refl },
      (record { whole = refl; clean = refl; some_text = refl }, tt),
    ),
  ),
)

wx_auto_kind-IsPlain : All IsPlain wx_auto_kind_choices
unfolding wx_auto_kind_choices cleaned strip lower is_space
wx_auto_kind-IsPlain = (
  record { whole = refl; clean = refl; some_text = refl },
  (
    record { whole = refl; clean = refl; some_text = refl },
    (record { whole = refl; clean = refl; some_text = refl }, tt),
  ),
)

filled_choice :
    (choices : List Text) (w : Text)
    → All (λ c. is_empty c ≡ false) choices
    → one_of choices w ≡ true
    → is_empty w ≡ false
filled_choice [] w h k = ground arith
filled_choice (c ∷ choices) w h k = elim (Bool-cases (text_eq w c)) [
  | inl same ↦ ap is_empty ((text_eq_iff w c).0 same) ∙ h.0
  | inr other ↦ filled_choice choices w h.1 (ground (arith, k))
]

printable-IsTest : IsTest printable_type_choices (λ part. not (is_empty part))
unfolding printable_type_choices
printable-IsTest = record {
  plain = printable_type-IsPlain;
  rejects = refl;
  accepts = λ w h. ap not (filled_choice printable_type_choices w (refl, (refl, (refl, tt))) h);
}

-- A word is kept in a set just when it is a choice of it and among the given words.
abbrev pub AreKept : List Text → SettingsStore → Text → Type 0
AreKept words s w =
    (one_of (printable_types (set_printable_types words s)) w
      ≡ (one_of printable_type_choices w && one_of (map cleaned words) w))
    × (one_of (simbrief_ofp_tickets (set_simbrief_ofp_tickets words s)) w
        ≡ (one_of ofp_ticket_choices w && one_of (map cleaned words) w))
    × (one_of (wx_auto_kinds (set_wx_auto_kinds words s)) w
        ≡ (one_of wx_auto_kind_choices w && one_of (map cleaned words) w))

-- Every one of the three sets of words that the settings keep, the types that print, the tickets and
-- the kinds of automatic weather, holds after it was set just those of its choices that are among the
-- given words, these stripped and in lower case.
pub kinds_read_back : (words : List Text) (s : SettingsStore) (w : Text) → AreKept words s w
unfolding printable_types set_printable_types simbrief_ofp_tickets set_simbrief_ofp_tickets
    wx_auto_kinds set_wx_auto_kinds read_kinds text_eq
kinds_read_back words s w = (
  read_stored printable_type_choices (λ part. not (is_empty part)) (codes "printable_types")
      (codes "cpdlc,telex,inforeq") words s w printable-IsTest,
  read_stored ofp_ticket_choices (one_of ofp_ticket_choices) (codes "simbrief_ofp_tickets")
      (codes "flight_plan,takeoff_data,loadsheet_prelim,loadsheet_final") words s w
      record {
        plain = ofp_ticket-IsPlain;
        rejects = unfold ofp_ticket_choices in refl;
        accepts = λ v h. h;
      },
  read_stored wx_auto_kind_choices (one_of wx_auto_kind_choices) (codes "wx_auto_kinds")
      (codes "atis,metar,taf") words s w
      record {
        plain = wx_auto_kind-IsPlain;
        rejects = unfold wx_auto_kind_choices in refl;
        accepts = λ v h. h;
      },
)
