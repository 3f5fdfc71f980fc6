-- ===== src/Models/Settings/Choices.antt =====
-- The methods of `SettingsStore` whose value is one of a few: paper, font, drawing mode, height of the
-- sterile cockpit, network, source of the ATIS and ports; and the downlink numbers.
pub mod Ranges
pub mod Words
use acars_printer.Prelude.{
  ℕ, zero, suc, ◌+◌, ◌-◌, Bool, true, false, Option, none, some, List, [], ◌∷◌, if◌then◌else◌,
  or_else, leb, ltb, ◌==◌, any, ◌&&◌, ◌||◌, not, map,
}
use acars_printer.Prelude.Int.{ℤ}
use acars_printer.Text.{
  Text, codes, text_eq, one_of, int_of_text, text_of_int, to_decimal, is_empty, strip, lower,
}
use acars_printer.Models.Settings.Store.{SettingsStore, get_key, set_key}
use acars_printer.Models.Settings.Forms.{text_or, get_or, IntArg, int_arg, int_or}
use acars_printer.Network.{
  AcarsNetwork, NetworkProfile, network_value, parse_network, profile_for, connect_url,
}

one_or_other : Text → Text → Text → Text
one_or_other choice other value = if text_eq value choice then choice else other

unfoldable pub paper_width : SettingsStore → Text
unfolding one_or_other
paper_width s = one_or_other (codes "58") (codes "80") (get_or (codes "paper_width") (codes "80") s)

unfoldable pub set_paper_width : Text → SettingsStore → SettingsStore
unfolding one_or_other
set_paper_width width s =
    set_key (codes "paper_width") (some (one_or_other (codes "58") (codes "80") width)) s

unfoldable pub print_font : SettingsStore → Text
unfolding one_or_other
print_font s =
    one_or_other (codes "b") (codes "a") (lower (strip (get_or (codes "print_font") (codes "a") s)))

unfoldable pub set_print_font : Text → SettingsStore → SettingsStore
unfolding one_or_other
set_print_font font s =
    set_key (codes "print_font") (some (one_or_other (codes "b") (codes "a") (lower (strip font))))
      s

unfoldable pub print_render_mode : SettingsStore → Text
unfolding one_or_other
print_render_mode s =
    one_or_other (codes "native") (codes "bitmap")
      (lower (strip (or_else (get_key (codes "print_render_mode") s) [])))

unfoldable pub set_print_render_mode : Text → SettingsStore → SettingsStore
unfolding one_or_other
set_print_render_mode mode s =
    set_key (codes "print_render_mode")
      (some (one_or_other (codes "bitmap") (codes "native") (lower (strip mode)))) s

-- `_STERILE_AGL_CHOICES`, in feet.
unfoldable pub sterile_agl_choices : List ℕ
sterile_agl_choices =
    0 ∷ 1000 ∷ 1500 ∷ 2000 ∷ 2500 ∷ 3000 ∷ 4000 ∷ 5000 ∷ 6000 ∷ 7000 ∷ 8000 ∷ 9000 ∷ 10000 ∷ []

-- `abs(choice - value)`.
unfoldable pub distance : ℕ → ℤ → ℕ
distance choice (ℤ.pos n) = (choice - n) + (n - choice)
distance choice (ℤ.negsuc n) = choice + suc n

-- `min(choices, key=…)`: the first of the nearest ones, from the best one so far.
nearest_from : ℤ → ℕ → List ℕ → ℕ
nearest_from value best [] = best
nearest_from value best (c ∷ cs) =
    nearest_from value (if ltb (distance c value) (distance best value) then c else best) cs

nearest : ℤ → ℕ
unfolding nearest_from sterile_agl_choices
nearest value = nearest_from value 0 sterile_agl_choices

is_choice : ℤ → Bool
is_choice (ℤ.pos n) = any (λ c. n == c) sterile_agl_choices
is_choice (ℤ.negsuc n) = false

size_of : ℤ → ℕ
size_of (ℤ.pos n) = n
size_of (ℤ.negsuc n) = 0

unfoldable pub snapped : ℤ → ℕ
unfolding nearest is_choice size_of nearest_from sterile_agl_choices
snapped value = if is_choice value then size_of value else nearest value

snapped_or_1500 : Option ℤ → ℕ
snapped_or_1500 none = 1500
snapped_or_1500 (some value) = snapped value

unfoldable pub sterile_agl_ft : SettingsStore → ℕ
unfolding snapped_or_1500
sterile_agl_ft s =
    snapped_or_1500 (int_or (or_else (get_key (codes "sterile_agl_ft") s) (codes "1500")) 1500)

unfoldable pub set_sterile_agl_ft : IntArg → SettingsStore → SettingsStore
set_sterile_agl_ft feet s =
    set_key (codes "sterile_agl_ft")
      (some (to_decimal (snapped (or_else (int_arg feet) (ℤ.pos 1500))))) s

-- A port inside its range, or the default one.
port_or : ℕ → ℕ → Option ℤ → ℕ
port_or default lowest none = default
port_or default lowest (some (ℤ.negsuc n)) = default
port_or default lowest (some (ℤ.pos n)) = if leb lowest n && leb n 65535 then n else default

unfoldable pub companion_port : SettingsStore → ℕ
unfolding port_or
companion_port s =
    port_or 8765 1024 (int_of_text (get_or (codes "companion_port") (codes "8765") s))

unfoldable pub set_companion_port : IntArg → SettingsStore → SettingsStore
unfolding port_or
set_companion_port port s =
    set_key (codes "companion_port") (some (to_decimal (port_or 8765 1024 (int_arg port)))) s

-- `normalize_xplane_port` of what a setting holds.
unfoldable pub normalize_xplane_port : IntArg → ℕ
unfolding port_or
normalize_xplane_port value = port_or 49000 1 (int_arg value)

unfoldable pub xplane_port : SettingsStore → ℕ
xplane_port s =
    normalize_xplane_port (IntArg.str (or_else (get_key (codes "xplane_port") s) (codes "49000")))

unfoldable pub set_xplane_port : IntArg → SettingsStore → SettingsStore
set_xplane_port port s =
    set_key (codes "xplane_port") (some (to_decimal (normalize_xplane_port port))) s

unfoldable pub normalize_xplane_host : Option Text → Text
normalize_xplane_host value =
    let raw = strip (or_else value []) in
    if is_empty raw || text_eq (lower raw) (codes "auto") then codes "auto" else raw

unfoldable pub xplane_host : SettingsStore → Text
xplane_host s =
    normalize_xplane_host (some (or_else (get_key (codes "xplane_host") s) (codes "127.0.0.1")))

unfoldable pub set_xplane_host : Text → SettingsStore → SettingsStore
set_xplane_host host s = set_key (codes "xplane_host") (some (normalize_xplane_host (some host))) s

unfoldable pub acars_network : SettingsStore → AcarsNetwork
acars_network s =
    parse_network (some (or_else (get_key (codes "acars_network") s) (codes "hoppie")))

unfoldable pub set_acars_network : AcarsNetwork → SettingsStore → SettingsStore
set_acars_network network s = set_key (codes "acars_network") (some (network_value network)) s

unfoldable pub network_profile : SettingsStore → NetworkProfile
network_profile s = profile_for (acars_network s)

unfoldable pub hoppie_url : SettingsStore → Text
hoppie_url s = connect_url (network_profile s)

pub data AtisSource : Type 0 where
  vatsim : AtisSource
  ivao : AtisSource
  pilotedge : AtisSource

unfoldable pub atis_value : AtisSource → Text
atis_value AtisSource.vatsim = codes "vatatis"
atis_value AtisSource.ivao = codes "ivaoatis"
atis_value AtisSource.pilotedge = codes "peatis"

atis_of : Text → AtisSource
atis_of raw =
    if one_of (codes "ivao" ∷ codes "ivaoatis" ∷ []) raw
    then AtisSource.ivao
    else if one_of (codes "pilotedge" ∷ codes "peatis" ∷ []) raw
    then AtisSource.pilotedge
    else AtisSource.vatsim

-- `_parse_atis_source` of a text.
unfoldable pub parse_atis_source : Text → AtisSource
unfolding atis_of
parse_atis_source source = atis_of (lower (strip source))

unfoldable pub atis_source : SettingsStore → AtisSource
atis_source s = parse_atis_source (or_else (get_key (codes "atis_source") s) (codes "vatatis"))

unfoldable pub set_atis_source : Text → SettingsStore → SettingsStore
set_atis_source source s =
    set_key (codes "atis_source") (some (atis_value (parse_atis_source source))) s

int_or_one : Option ℤ → ℤ
int_or_one none = ℤ.pos 1
int_or_one (some n) = n

unfoldable pub successor : ℤ → ℤ
successor (ℤ.pos n) = ℤ.pos (suc n)
successor (ℤ.negsuc zero) = ℤ.pos 0
successor (ℤ.negsuc (suc n)) = ℤ.negsuc n

-- The number that the next downlink takes.
unfoldable pub current_downlink_min : SettingsStore → ℤ
unfolding int_or_one
current_downlink_min s = int_or_one (int_of_text (get_or (codes "next_downlink_min") (codes "1") s))

-- The number of this downlink; the store keeps the one after it.
unfoldable pub next_downlink_min : SettingsStore → ℤ × SettingsStore
unfolding successor
next_downlink_min s =
    let current = current_downlink_min s in
    (current, set_key (codes "next_downlink_min") (some (text_of_int (successor current))) s)
