-- ===== src/Models/Examples.antt =====
-- A given device and request, and the theorem on app/models.py at them.
use keekars_pi_vpn.Base.{◌≡◌, refl, true, false, none, some, [], ok, arith}
use keekars_pi_vpn.Base.Text.{Text, codes, text_operations}
use keekars_pi_vpn.Base.Dict.{lookup, insert}
use keekars_pi_vpn.Ip.{IsInterface, print_interface, v4}
use keekars_pi_vpn.Helper.Request.{int}
use keekars_pi_vpn.Helper.Validate.{
  is_alnum, is_name_char, is_tunnel_name, matches_wg_key, is_key_from, is_base64_char, is_key_end,
  drop_final_newline,
}
use keekars_pi_vpn.Helper.Blocks.{interface_block}
use keekars_pi_vpn.Helper.Host.{Tools, stored, conf_file}
use keekars_pi_vpn.WebApp.{Site, App, absent}
use keekars_pi_vpn.HelperClient
use keekars_pi_vpn.Wireguard.Tunnels.{TunnelCreate}
use keekars_pi_vpn.Models.{valid_tunnel_create, matches_class, is_host_char}
use keekars_pi_vpn.Models.Accepted.{create_tunnel-valid}

abbrev key : Text
key = codes "aaaaaaaaaaaaaaaaaaaaaaaaaaaaaaaaaaaaaaaaaaA="

abbrev machine : Tools (Unit {0})
machine = record {
  run = λ _ _ w. (some (record { returncode = 0; stdout = key; stderr = [] }), w);
  interface_up = λ _ _. true;
  write = λ _ _ _. stored;
  psk_file = λ _. codes "psk-1";
}

abbrev site : Site (Unit {0})
site = record {
  tools = machine;
  reachable = λ _. true;
  allowed_uid = some 1000;
  own_uid = 1000;
  net_if_addrs = λ _. [];
  uuid4 = λ w. (codes "id-1", w);
  saves = λ _. true;
}

abbrev request : TunnelCreate
request = record {
  name = codes "wg0";
  address = record { ip = 168296449; prefixlen = 24 };
  listen_port = 51820;
  endpoint = some (codes "vpn.example.org");
  force = false;
}

abbrev app : App (Unit {0})
app = record { host = record { conf_files = []; run_files = []; outside = tt }; metadata = absent }

request_valid : valid_tunnel_create request ≡ true
unfolding valid_tunnel_create matches_class is_host_char is_tunnel_name is_name_char is_alnum
    text_operations
request_valid = refl

address-IsInterface : IsInterface request.address
address-IsInterface = record { ip_bound = omega arith; prefixlen_bound = omega arith }

key_matches : matches_wg_key key ≡ true
unfolding matches_wg_key is_key_from is_base64_char is_key_end is_alnum drop_final_newline
    text_operations
key_matches = refl

name_new : lookup (conf_file request.name) app.host.conf_files ≡ none
unfolding lookup
name_new = refl

create_tunnel-valid_example :
    HelperClient.create_tunnel site (codes "wg0") (print_interface request.address) 51820 key app
    ≡ (
      ok tt,
      record app {
        host = record app.host {
          conf_files =
              insert
                (conf_file (codes "wg0"))
                (interface_block key (v4 request.address) (int 51820))
                [];
        };
      },
    )
create_tunnel-valid_example =
    create_tunnel-valid site request key app request_valid address-IsInterface key_matches refl refl
      name_new refl
