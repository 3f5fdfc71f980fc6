-- ===== src/Models/Settings/ReadBack.antt =====
-- What a number of the settings reads after it was written, and its range whatever the table holds.
use acars_printer.Prelude.{ℕ, ◌≡◌, ◌≤◌, arith}
use acars_printer.Text.{codes}
use acars_printer.Models.Settings.Store.{SettingsStore}
use acars_printer.Models.Settings.Forms.{IntArg, clamped_arg, number-set_number, number-between}
use acars_printer.Models.Settings.Numbers.{
  print_glyph_px, set_print_glyph_px, print_line_gap_px, set_print_line_gap_px, print_lead_in,
  set_print_lead_in, print_tear_feed, set_print_tear_feed, wx_auto_nm, set_wx_auto_nm,
  simbrief_post_landing_grace_seconds, set_simbrief_post_landing_grace_seconds, poll_interval,
  print_char_width, set_print_char_width, print_char_height, set_print_char_height,
  print_line_spacing_dots, print_columns,
}
use acars_printer.Models.Settings.Numbers.Ranges.{
  IsWithin, char_sizes_read_back, char_sizes_between, poll_interval_lem,
  print_line_spacing_dots-IsWithin, print_columns-IsWithin,
}
use acars_printer.Models.Settings.Choices.{companion_port, xplane_port}
use acars_printer.Models.Settings.Choices.Ranges.{ports_between}

-- Each number that a setter was given the argument for: its integer, brought inside the bounds of the
-- setting, or the setting's default.
abbrev pub AreReadBack : IntArg → SettingsStore → Type 0
AreReadBack argument s =
    (print_glyph_px (set_print_glyph_px argument s) ≡ clamped_arg 28 8 64 argument)
    × (print_line_gap_px (set_print_line_gap_px argument s) ≡ clamped_arg 2 0 32 argument)
    × (print_lead_in (set_print_lead_in argument s) ≡ clamped_arg 2 0 12 argument)
    × (print_tear_feed (set_print_tear_feed argument s) ≡ clamped_arg 6 0 16 argument)
    × (wx_auto_nm (set_wx_auto_nm argument s) ≡ clamped_arg 180 10 500 argument)
    × (simbrief_post_landing_grace_seconds (set_simbrief_post_landing_grace_seconds argument s)
        ≡ clamped_arg 600 60 7200 argument)
    × (print_char_width (set_print_char_width argument s) ≡ clamped_arg 1 1 8 argument)
    × (print_char_height (set_print_char_height argument s) ≡ clamped_arg 1 1 8 argument)

-- A number of the settings that was set reads as the argument's integer, brought inside the bounds of
-- that setting, or as the setting's default when the argument is no number.
pub numbers_read_back : (argument : IntArg) (s : SettingsStore) → AreReadBack argument s
unfolding print_glyph_px set_print_glyph_px print_line_gap_px set_print_line_gap_px print_lead_in
    set_print_lead_in print_tear_feed set_print_tear_feed wx_auto_nm set_wx_auto_nm
    simbrief_post_landing_grace_seconds set_simbrief_post_landing_grace_seconds
numbers_read_back argument s =
    let sizes = char_sizes_read_back argument s in
    (
      number-set_number (codes "print_glyph_px") 28 8 64 argument s (omega arith),
      number-set_number (codes "print_line_gap_px") 2 0 32 argument s (omega arith),
      number-set_number (codes "print_lead_in") 2 0 12 argument s (omega arith),
      number-set_number (codes "print_tear_feed") 6 0 16 argument s (omega arith),
      number-set_number (codes "wx_auto_nm") 180 10 500 argument s (omega arith),
      number-set_number (codes "simbrief_post_landing_grace_seconds") 600 60 7200 argument s
          (omega arith),
      sizes.0,
      sizes.1,
    )

-- Between two bounds.
abbrev pub Between : ℕ → ℕ → ℕ → Type 0
Between lo hi n = (lo ≤ n) × (n ≤ hi)

abbrev pub AreInRange : SettingsStore → Type 0
AreInRange s =
    Between 8 64 (print_glyph_px s)
    × Between 0 32 (print_line_gap_px s)
    × Between 0 12 (print_lead_in s)
    × Between 0 16 (print_tear_feed s)
    × Between 1 8 (print_char_width s)
    × Between 1 8 (print_char_height s)
    × IsWithin 1 255 (print_line_spacing_dots s)
    × IsWithin 16 80 (print_columns s)
    × Between 10 500 (wx_auto_nm s)
    × Between 60 7200 (simbrief_post_landing_grace_seconds s)
    × Between 1024 65535 (companion_port s)
    × Between 1 65535 (xplane_port s)
    × (45 ≤ poll_interval s)

-- Whatever the table holds, each number of the settings lies in its range: the pixels of a glyph and of
-- the gap, the lines before and after a strip, the sizes of a character, the dots of a line and the
-- columns when there are such, the miles of the automatic weather, the seconds after the landing, the
-- two ports, and at least 45 seconds between two polls.
pub numbers_between : (s : SettingsStore) → AreInRange s
unfolding print_glyph_px print_line_gap_px print_lead_in print_tear_feed wx_auto_nm
    simbrief_post_landing_grace_seconds
numbers_between s =
    let sizes = char_sizes_between s in
    let ports = ports_between s in
    (
      number-between (codes "print_glyph_px") 28 8 64 s (omega arith) (omega arith),
      number-between (codes "print_line_gap_px") 2 0 32 s (omega arith) (omega arith),
      number-between (codes "print_lead_in") 2 0 12 s (omega arith) (omega arith),
      number-between (codes "print_tear_feed") 6 0 16 s (omega arith) (omega arith),
      (sizes.0, sizes.1),
      (sizes.2, sizes.3),
      print_line_spacing_dots-IsWithin s,
      print_columns-IsWithin s,
      number-between (codes "wx_auto_nm") 180 10 500 s (omega arith) (omega arith),
      number-between (codes "simbrief_post_landing_grace_seconds") 600 60 7200 s (omega arith)
          (omega arith),
      (ports.0, ports.1),
      (ports.2, ports.3),
      poll_interval_lem s,
    )
