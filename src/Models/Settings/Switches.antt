-- ===== src/Models/Settings/Switches.antt =====
-- The switches of `SettingsStore`: methods that read and write one Boolean each.
use acars_printer.Prelude.{Bool}
use acars_printer.Text.{codes}
use acars_printer.Models.Settings.Store.{SettingsStore}
use acars_printer.Models.Settings.Forms.{switch, set_switch}

unfoldable pub auto_print : SettingsStore → Bool
unfolding switch
auto_print = switch (codes "auto_print") (codes "1")

unfoldable pub set_auto_print : Bool → SettingsStore → SettingsStore
unfolding set_switch
set_auto_print = set_switch (codes "auto_print")

unfoldable pub auto_connect : SettingsStore → Bool
unfolding switch
auto_connect = switch (codes "auto_connect") (codes "1")

unfoldable pub set_auto_connect : Bool → SettingsStore → SettingsStore
unfolding set_switch
set_auto_connect = set_switch (codes "auto_connect")

unfoldable pub check_updates : SettingsStore → Bool
unfolding switch
check_updates = switch (codes "check_updates") (codes "1")

unfoldable pub set_check_updates : Bool → SettingsStore → SettingsStore
unfolding set_switch
set_check_updates = set_switch (codes "check_updates")

unfoldable pub cut_enabled : SettingsStore → Bool
unfolding switch
cut_enabled = switch (codes "cut_enabled") (codes "1")

unfoldable pub set_cut_enabled : Bool → SettingsStore → SettingsStore
unfolding set_switch
set_cut_enabled = set_switch (codes "cut_enabled")

unfoldable pub print_bold : SettingsStore → Bool
unfolding switch
print_bold = switch (codes "print_bold") (codes "0")

unfoldable pub set_print_bold : Bool → SettingsStore → SettingsStore
unfolding set_switch
set_print_bold = set_switch (codes "print_bold")

unfoldable pub simbrief_enabled : SettingsStore → Bool
unfolding switch
simbrief_enabled = switch (codes "simbrief_enabled") (codes "0")

unfoldable pub set_simbrief_enabled : Bool → SettingsStore → SettingsStore
unfolding set_switch
set_simbrief_enabled = set_switch (codes "simbrief_enabled")

unfoldable pub hotkeys_enabled : SettingsStore → Bool
unfolding switch
hotkeys_enabled = switch (codes "hotkeys_enabled") (codes "1")

unfoldable pub set_hotkeys_enabled : Bool → SettingsStore → SettingsStore
unfolding set_switch
set_hotkeys_enabled = set_switch (codes "hotkeys_enabled")

unfoldable pub print_when_powered : SettingsStore → Bool
unfolding switch
print_when_powered = switch (codes "print_when_powered") (codes "0")

unfoldable pub set_print_when_powered : Bool → SettingsStore → SettingsStore
unfolding set_switch
set_print_when_powered = set_switch (codes "print_when_powered")

unfoldable pub wx_auto_enabled : SettingsStore → Bool
unfolding switch
wx_auto_enabled = switch (codes "wx_auto_enabled") (codes "0")

unfoldable pub set_wx_auto_enabled : Bool → SettingsStore → SettingsStore
unfolding set_switch
set_wx_auto_enabled = set_switch (codes "wx_auto_enabled")

unfoldable pub companion_enabled : SettingsStore → Bool
unfolding switch
companion_enabled = switch (codes "companion_enabled") (codes "0")

unfoldable pub set_companion_enabled : Bool → SettingsStore → SettingsStore
unfolding set_switch
set_companion_enabled = set_switch (codes "companion_enabled")

unfoldable pub companion_station_enabled : SettingsStore → Bool
unfolding switch
companion_station_enabled = switch (codes "companion_station_enabled") (codes "0")

unfoldable pub set_companion_station_enabled : Bool → SettingsStore → SettingsStore
unfolding set_switch
set_companion_station_enabled = set_switch (codes "companion_station_enabled")
