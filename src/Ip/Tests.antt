-- ===== src/Ip/Tests.antt =====
-- Runs of the `ipaddress` model on texts.
use keekars_pi_vpn.Base.{◌≡◌, refl, none, some, Option}
use mathlib.Core.Option
use keekars_pi_vpn.Base.Text.{Text, codes, text_operations}
use keekars_pi_vpn.Ip.{ip_network, ip_interface, print_any_network}

abbrev normal : Text → Option Text
normal t = Option.map print_any_network (ip_network t)

networks :
    (normal (codes "10.8.0.7/24") ≡ some (codes "10.8.0.0/24"))
    × (normal (codes "10.8.0.7") ≡ some (codes "10.8.0.7/32"))
    × (normal (codes "192.168.1.9/255.255.255.0") ≡ some (codes "192.168.1.0/24"))
    × (normal (codes "192.168.1.9/0.0.0.255") ≡ some (codes "192.168.1.0/24"))
    × (normal (codes "010.8.0.7/24") ≡ none)
    × (normal (codes "10.8.0.7/33") ≡ none)
    × (normal (codes "::/0") ≡ some (codes "::/0"))
    × (normal (codes "fd00:0:0:1::5/64") ≡ some (codes "fd00:0:0:1::/64"))
    × (normal (codes "1:0:0:2:0:0:0:3") ≡ some (codes "1:0:0:2::3/128"))
    × (normal (codes "fe80::%eth0/64") ≡ some (codes "fe80::%eth0/64"))
    × (normal (codes "::ffff:1.2.3.4") ≡ some (codes "::ffff:102:304/128"))
    × (normal (codes "1::2::3") ≡ none)
unfolding ip_network ip_interface print_any_network text_operations
networks = (refl, refl, refl, refl, refl, refl, refl, refl, refl, refl, refl, refl)
