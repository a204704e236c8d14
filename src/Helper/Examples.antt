-- ===== src/Helper/Examples.antt =====
-- The other theorems of the daemon at given requests.
use keekars_pi_vpn.Base.{◌≡◌, ◌⊎◌, refl, true, none, some, [], ◌∷◌, ◌++◌, ok, err, map, ◌↔◌}
use keekars_pi_vpn.Base.Text.{Text, codes, newline, text_operations}
use keekars_pi_vpn.Base.Dict.{lookup}
use keekars_pi_vpn.Ip.{v4, Interface, print_interface}
use keekars_pi_vpn.Helper.Request.{Request, int, str, arr, nil, item}
use keekars_pi_vpn.Helper.Host.{Tools, Host, cut, conf_file, write_conf}
use keekars_pi_vpn.Helper.Conf.{line_end, split_conf, rebuild_conf}
use keekars_pi_vpn.Helper.Blocks.{interface_block, peer_block}
use keekars_pi_vpn.Helper.Commands.{helper_operations, cmd_add_peer, cmd_create_tunnel}
use keekars_pi_vpn.Helper.Conf.Info.{parse_conf_info, server}
use keekars_pi_vpn.Helper.Validate.{
  crashed, is_tunnel_name, validate_allowed_ips, matches_tunnel_name,
}
use keekars_pi_vpn.Helper.Conf.Rebuild.{IsBlock, split-rebuild, split-IsBlock}
use keekars_pi_vpn.Helper.Injection.{no_newline-IsOneLine, peer_block-IsBlock}
use keekars_pi_vpn.Helper.Names.{matches_tunnel_name_iff}
use keekars_pi_vpn.Helper.Scope.{IsScope, validate_allowed_ips-scoped}
use keekars_pi_vpn.Helper.Create.{create_tunnel_keeps_files}
use keekars_pi_vpn.Helper.ReadBack.{parse_conf_info-interface_block}
use keekars_pi_vpn.Helper.Secrets.{add_peer_no_secret, write_conf_atomic}
use keekars_pi_vpn.Helper.PeerExamples.{
  machine, key_a, key_b, interface_part, conf_b, host, add_request, one_line_a, one_line_ips,
}

split-rebuild_example :
    split_conf (rebuild_conf (split_conf conf_b).0 (split_conf conf_b).1)
    ≡ (line_end (split_conf conf_b).0, map line_end (split_conf conf_b).1)
split-rebuild_example =
    split-rebuild (split_conf conf_b).0 (split_conf conf_b).1 (split-IsBlock conf_b).0
      (split-IsBlock conf_b).1

peer_block-IsBlock_example : IsBlock (peer_block key_a none (codes "10.8.0.3/32") (int 25))
unfolding text_operations
peer_block-IsBlock_example =
    peer_block-IsBlock key_a none (codes "10.8.0.3/32") (int 25)
      (no_newline-IsOneLine key_a one_line_a) tt
      (no_newline-IsOneLine (codes "10.8.0.3/32") one_line_ips)

matches_tunnel_name_iff_example : (matches_tunnel_name (codes "wg0") ≡ true) ↔ (
    (is_tunnel_name (codes "wg0") ≡ true)
    ⊎ ((w : Text) × (codes "wg0" ≡ w ++ newline ∷ []) × (is_tunnel_name w ≡ true)))
matches_tunnel_name_iff_example = matches_tunnel_name_iff (codes "wg0")

-- A scope id that ends the line and adds a command of wg-quick
abbrev injected : Text
injected = codes "x\nPostUp = id\n"

injected-IsScope : IsScope injected
unfolding text_operations
injected-IsScope = (refl, refl, refl)

validate_allowed_ips-scoped_example :
    validate_allowed_ips (arr (item (str (codes "fe80::%x\nPostUp = id\n/64")) nil))
    ≡ ok (codes "fe80::%x\nPostUp = id\n/64")
validate_allowed_ips-scoped_example = validate_allowed_ips-scoped injected injected-IsScope

abbrev create_request : Request
create_request =
    (codes "name", str (codes "wg2"))
    ∷ (codes "private_key", str key_a)
    ∷ (codes "address", str (codes "10.9.0.1/24"))
    ∷ (codes "listen_port", int 51821)
    ∷ []

abbrev new_address : Interface
new_address = record { ip = 168361985; prefixlen = 24 }

wg0_stored : lookup (conf_file (codes "wg0")) host.conf_files ≡ some conf_b
unfolding helper_operations text_operations
wg0_stored = refl

create_tunnel_keeps_files_example :
    lookup (conf_file (codes "wg0")) (cmd_create_tunnel machine create_request host).1.conf_files
    ≡ some conf_b
create_tunnel_keeps_files_example =
    create_tunnel_keeps_files machine create_request host (conf_file (codes "wg0")) conf_b
      wg0_stored

parse_conf_info-interface_block_example :
    parse_conf_info (interface_block key_a (v4 new_address) (int 51821)) ≡ record {
      mode = server;
      configured_address = some (print_interface new_address);
      configured_endpoint = none;
      configured_allowed_ips = [];
    }
parse_conf_info-interface_block_example =
    parse_conf_info-interface_block key_a new_address (int 51821) one_line_a

-- A machine whose folder holds a file already, and a request with a preshared key
abbrev secret_request : Request
secret_request = (codes "preshared_key", str key_b) ∷ add_request

abbrev busy_host : Host (Unit {0})
busy_host = record host { run_files = (codes "helper.sock", []) ∷ [] }

still_there :
    lookup (codes "helper.sock") (cmd_add_peer machine secret_request busy_host).1.run_files
    ≡ some []
unfolding helper_operations text_operations
still_there = refl

add_peer_no_secret_example : lookup (codes "helper.sock") busy_host.run_files ≡ some []
add_peer_no_secret_example =
    add_peer_no_secret machine secret_request busy_host (codes "helper.sock") [] still_there

abbrev full_disk : Tools (Unit {0})
full_disk = record machine { write = λ _ _ _. cut (codes "[Inter") }

write_conf_atomic_example :
    ((write_conf full_disk (codes "wg0") interface_part host).0 ≡ ok tt)
      × (lookup
            (conf_file (codes "wg0"))
            (write_conf full_disk (codes "wg0") interface_part host).1.conf_files
          ≡ some interface_part)
    ⊎ ((write_conf full_disk (codes "wg0") interface_part host).0 ≡ err crashed)
      × ((name : Text)
          → lookup
              (conf_file name)
              (write_conf full_disk (codes "wg0") interface_part host).1.conf_files
            ≡ lookup (conf_file name) host.conf_files)
write_conf_atomic_example = write_conf_atomic full_disk (codes "wg0") interface_part host
