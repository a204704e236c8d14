-- ===== src/Network/Examples.antt =====
-- A given NetworkManager, a given scan, and the theorems on app/network.py at them.
use keekars_pi_vpn.Base.{
  ◌≡◌, ◌⊎◌, inl, refl, Bool, true, false, none, some, List, [], ◌∷◌, All, ok, err, Option,
}
use keekars_pi_vpn.Base.Text.{Text, codes, text_eq, text_operations}
use keekars_pi_vpn.Base.Dict.{Dict, insert}
use keekars_pi_vpn.WebApp.{http, unknown_interface}
use keekars_pi_vpn.Network.Nmcli.{Finished, Device, run_nmcli, existing_interface}
use keekars_pi_vpn.Network.Terse.{
  parse_nmcli_terse, split_unescaped, unescape_fields, unescape_field, replace_pair, parse_lines,
}
use keekars_pi_vpn.Network.TerseLaws.{
  IsRow, print_row, print_rows, escape_field, ends_escaped, parse-print_rows,
}
use keekars_pi_vpn.Network.Configure.{NetworkConfig, static, configure_interface}
use keekars_pi_vpn.Network.Profile.{
  Setting, setting_args, apply_settings, IsNetworkManager, IsReached, asked_steps,
}
use keekars_pi_vpn.Network.Refines.{configure_interface-refines}
use keekars_pi_vpn.Network.Wifi.{ScannedWifi, scan_args, scan_wifi}
use keekars_pi_vpn.Network.ScanLaws.{IsDescending, signal_in, strongest, scan_wifi-strongest}

abbrev quiet_end : Option Finished
quiet_end = some (record { returncode = 0; stdout = [] })

set_properties : List Text → Dict Text → Dict Text
set_properties (p ∷ v ∷ rest) d = set_properties rest (insert p v d)
set_properties _ d = d

-- A NetworkManager with one profile, whatever its name
abbrev modified : Bool → List Text → Dict Text → Dict Text
modified true settings d = set_properties settings d
modified false settings d = d

abbrev one_profile_nmcli : List Text → Dict Text → Option Finished × Dict Text
one_profile_nmcli (con ∷ command ∷ name ∷ settings) d =
    (quiet_end, modified (text_eq command (codes "mod")) settings d)
one_profile_nmcli _ d = (quiet_end, d)

abbrev one_profile : Device (Dict Text)
one_profile = record {
  nmcli = one_profile_nmcli;
  net_if_addrs = λ _. (codes "eth0", []) ∷ [];
  net_if_stats = λ _. [];
}

set_properties-setting_args :
    (settings : List Setting) (d : Dict Text)
    → set_properties (setting_args settings) d ≡ apply_settings settings d
unfolding set_properties
set_properties-setting_args [] d = refl
set_properties-setting_args ((p, v) ∷ ss) d = set_properties-setting_args ss (insert p v d)

one_profile-IsNetworkManager : IsNetworkManager one_profile (λ _ d. d)
unfolding text_eq
one_profile-IsNetworkManager = record {
  modifies = λ conn settings d. inl (refl, set_properties-setting_args settings d);
  activates = λ conn d. refl;
}

abbrev home_config : NetworkConfig
home_config = record {
  interface = codes "eth0";
  method = static;
  address = some (record { ip = 3232235786; prefixlen = 24 });
  gateway = some 3232235777;
  dns = none;
}

configure_interface-refines_example :
    ((existing_interface one_profile (codes "eth0") [] ≡ false)
      × (configure_interface one_profile home_config [] ≡ (err (http 404 unknown_interface), [])))
    ⊎ ((existing_interface one_profile (codes "eth0") [] ≡ true)
        × IsReached
            (configure_interface one_profile home_config []).0
            (asked_steps home_config)
            []
            (configure_interface one_profile home_config []).1)
configure_interface-refines_example =
    configure_interface-refines one_profile (λ _ d. d) one_profile-IsNetworkManager home_config []

abbrev rows : List (List Text)
rows =
    (codes "home:net" ∷ codes "70" ∷ codes "WPA2" ∷ [])
    ∷ (codes "cafe" ∷ codes "90" ∷ [] ∷ [])
    ∷ (codes "home:net" ∷ codes "80" ∷ codes "WPA2" ∷ [])
    ∷ []

rows-IsRow : All IsRow rows
unfolding print_row escape_field ends_escaped text_operations
rows-IsRow = (
  (refl, ((refl, refl), ((refl, refl), ((refl, refl), tt)))),
  (
    (refl, ((refl, refl), ((refl, refl), ((refl, refl), tt)))),
    ((refl, ((refl, refl), ((refl, refl), ((refl, refl), tt)))), tt),
  ),
)

parse-print_rows_example : parse_nmcli_terse (print_rows rows) ≡ rows
parse-print_rows_example = parse-print_rows rows rows-IsRow

abbrev scanner : Device (Unit {0})
scanner = record {
  nmcli = λ _ w. (some (record { returncode = 0; stdout = print_rows rows }), w);
  net_if_addrs = λ _. [];
  net_if_stats = λ _. [];
}

scanner_prints : run_nmcli scanner scan_args tt ≡ (ok (print_rows rows), tt)
unfolding run_nmcli
scanner_prints = refl

scan_wifi-strongest_example :
    (found : List ScannedWifi) × ((scan_wifi scanner tt ≡ (ok found, tt))
      × (IsDescending found
          × (signal_in (codes "home:net") found ≡ strongest (codes "home:net") rows)))
scan_wifi-strongest_example =
    scan_wifi-strongest scanner tt tt rows (codes "home:net") scanner_prints rows-IsRow refl

-- A field that ends in a backslash is not told apart from the next one.
backslash_row :
    parse_nmcli_terse (codes "x\\\\:70:WPA2") ≡ (codes "x\\:70" ∷ codes "WPA2" ∷ []) ∷ []
unfolding parse_nmcli_terse parse_lines split_unescaped unescape_fields unescape_field replace_pair
    text_operations
backslash_row = refl
