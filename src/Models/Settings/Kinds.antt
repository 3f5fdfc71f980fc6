-- ===== src/Models/Settings/Kinds.antt =====
-- The methods of `SettingsStore` that keep a set of words as one text with commas: the types that
-- print, the tickets of the flight plan and the kinds of automatic weather.
pub mod Sets
pub mod ReadBack
use acars_printer.Prelude.{
  ℕ, Bool, true, false, Option, none, some, List, [], ◌∷◌, if◌then◌else◌, or_else, not, map, any,
  ltb, ◌==◌, ◌||◌, ◌&&◌,
}
use acars_printer.Text.{Text, codes, is_empty, text_eq, strip, lower, one_of, split_on, join}
use acars_printer.Models.Settings.Store.{SettingsStore, get_key, set_key}

-- `[x for x in xs if p(x)]`.
unfoldable pub keep_if : (Text → Bool) → List Text → List Text
keep_if p [] = []
keep_if p (x ∷ xs) = let rest = keep_if p xs in if p x then x ∷ rest else rest

-- The order of texts.
text_ltb : Text → Text → Bool
text_ltb [] [] = false
text_ltb [] (y ∷ t) = true
text_ltb (x ∷ s) [] = false
text_ltb (x ∷ s) (y ∷ t) = ltb x y || (x == y && text_ltb s t)

insert_sorted : Text → List Text → List Text
insert_sorted w [] = w ∷ []
insert_sorted w (x ∷ xs) =
    let rest = insert_sorted w xs in
    if text_eq w x then x ∷ xs else if text_ltb w x then w ∷ x ∷ xs else x ∷ rest

-- `sorted({…})`.
unfoldable pub sorted_set : List Text → List Text
unfolding insert_sorted text_ltb
sorted_set [] = []
sorted_set (w ∷ ws) = insert_sorted w (sorted_set ws)

unfoldable pub cleaned : Text → Text
cleaned part = lower (strip part)

-- The words of a text with commas. A set is the list of its members.
unfoldable pub parts_of : Text → List Text
unfolding cleaned
parts_of raw = map cleaned (split_on b',' raw)

unfoldable pub read_kinds : List Text → Text → Text → SettingsStore → List Text
unfolding parts_of keep_if
read_kinds choices key default s =
    keep_if (one_of choices) (parts_of (or_else (get_key key s) default))

unfoldable pub write_kinds : List Text → Text → List Text → SettingsStore → SettingsStore
unfolding sorted_set keep_if cleaned
write_kinds choices key words s =
    set_key key
      (some (join (codes ",") (sorted_set (keep_if (one_of choices) (map cleaned words))))) s

unfoldable pub printable_type_choices : List Text
printable_type_choices = codes "cpdlc" ∷ codes "telex" ∷ codes "inforeq" ∷ []

-- The types that print are not filtered by the choices when they are read.
unfoldable pub printable_types : SettingsStore → List Text
unfolding parts_of keep_if
printable_types s =
    keep_if (λ part. not (is_empty part))
      (parts_of (or_else (get_key (codes "printable_types") s) (codes "cpdlc,telex,inforeq")))

unfoldable pub set_printable_types : List Text → SettingsStore → SettingsStore
unfolding write_kinds printable_type_choices
set_printable_types = write_kinds printable_type_choices (codes "printable_types")

unfoldable pub ofp_ticket_choices : List Text
ofp_ticket_choices =
    codes "flight_plan"
    ∷ codes "takeoff_data"
    ∷ codes "loadsheet_prelim"
    ∷ codes "loadsheet_final"
    ∷ []

unfoldable pub simbrief_ofp_tickets : SettingsStore → List Text
unfolding read_kinds ofp_ticket_choices
simbrief_ofp_tickets =
    read_kinds ofp_ticket_choices (codes "simbrief_ofp_tickets")
      (codes "flight_plan,takeoff_data,loadsheet_prelim,loadsheet_final")

unfoldable pub set_simbrief_ofp_tickets : List Text → SettingsStore → SettingsStore
unfolding write_kinds ofp_ticket_choices
set_simbrief_ofp_tickets = write_kinds ofp_ticket_choices (codes "simbrief_ofp_tickets")

unfoldable pub simbrief_ofp_ticket_enabled : Text → SettingsStore → Bool
simbrief_ofp_ticket_enabled ticket_type s =
    one_of (simbrief_ofp_tickets s) (lower (strip ticket_type))

unfoldable pub wx_auto_kind_choices : List Text
wx_auto_kind_choices = codes "atis" ∷ codes "metar" ∷ codes "taf" ∷ []

unfoldable pub wx_auto_kinds : SettingsStore → List Text
unfolding read_kinds wx_auto_kind_choices
wx_auto_kinds = read_kinds wx_auto_kind_choices (codes "wx_auto_kinds") (codes "atis,metar,taf")

unfoldable pub set_wx_auto_kinds : List Text → SettingsStore → SettingsStore
unfolding write_kinds wx_auto_kind_choices
set_wx_auto_kinds = write_kinds wx_auto_kind_choices (codes "wx_auto_kinds")
