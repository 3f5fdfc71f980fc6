-- ===== src/Tests/Hosts.antt =====
-- A hosts file with the block of two hosts.
use acars_printer.Prelude.{◌≡◌, refl, true, List, [], ◌∷◌, ◌++◌, map, All}
use acars_printer.Text.{Text, codes, rstrip, strip, lstrip, is_space, text_eq}
use acars_printer.Tap.Hosts.{host_line, is_break, install_tap_hosts, remove_tap_hosts}
use acars_printer.Tap.Hosts.Removal.{file_of, Unbroken, is_plain, stays_inside}
use acars_printer.Tap.Hosts.Restore.{remove_tap_hosts-install}

abbrev local_ip : Text
local_ip = codes "127.0.0.1"

abbrev two_hosts : List Text
two_hosts = codes "www.hoppie.nl" ∷ codes "hoppie.nl" ∷ []

abbrev file_lines : List Text
file_lines = codes "::1 localhost" ∷ []

hosts_Unbroken : All Unbroken (map (host_line local_ip) two_hosts)
unfolding is_break
hosts_Unbroken = (refl, (refl, tt))

hosts_inside : All (λ line. stays_inside line ≡ true) (map (host_line local_ip) two_hosts)
unfolding strip lstrip rstrip is_space text_eq
hosts_inside = (refl, (refl, tt))

file_Unbroken : All Unbroken (codes "127.0.0.1 localhost" ∷ file_lines)
unfolding is_break
file_Unbroken = (refl, (refl, tt))

file_plain : All (λ line. is_plain line ≡ true) (codes "127.0.0.1 localhost" ∷ file_lines)
unfolding strip lstrip rstrip is_space text_eq
file_plain = (refl, (refl, tt))

remove_tap_hosts-install_example :
    remove_tap_hosts
      (install_tap_hosts local_ip two_hosts (file_of (codes "127.0.0.1 localhost" ∷ file_lines)))
    ≡ rstrip (file_of (codes "127.0.0.1 localhost" ∷ file_lines)) ++ b'\n' ∷ []
remove_tap_hosts-install_example =
    remove_tap_hosts-install local_ip two_hosts hosts_Unbroken hosts_inside
      (codes "127.0.0.1 localhost") file_lines file_Unbroken file_plain
