-- ===== src/Models/Settings/Printer.antt =====
-- `as_printer_settings` of `SettingsStore`. The columns of the bitmap font, which the printer's settings
-- work out from a font file, are an argument.
use acars_printer.Prelude.{ℕ, Option, none, [], or_else}
use acars_printer.Text.{Text, codes}
use acars_printer.Printing.Format.{PrinterSettings}
use acars_printer.Models.Settings.Store.{SettingsStore}
use acars_printer.Models.Settings.Forms.{get_or, text_or}
use acars_printer.Models.Settings.Numbers.{print_columns, print_char_width}
use acars_printer.Models.Settings.Choices.{paper_width, print_font, print_render_mode}
use acars_printer.Models.Settings.Names.{aircraft_registration}

unfoldable pub printer_destination : SettingsStore → Text
printer_destination = get_or (codes "printer_destination") (codes "console")

unfoldable pub as_printer_settings : Option Text → ℕ → SettingsStore → PrinterSettings
as_printer_settings destination bitmap_columns s = record {
  destination = text_or (or_else destination []) (printer_destination s);
  paper_width = paper_width s;
  character_width_override = print_columns s;
  aircraft_registration = aircraft_registration s;
  font = print_font s;
  render_mode = print_render_mode s;
  char_width = print_char_width s;
  bitmap_columns = bitmap_columns;
  pairing_url = none;
}
