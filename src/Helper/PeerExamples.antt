-- ===== src/Helper/PeerExamples.antt =====
-- Runs of the peer commands on a given machine, and the theorems at them.
use keekars_pi_vpn.Base.{◌≡◌, refl, true, false, none, some, ok, [], ◌∷◌, ◌++◌, elem, any, map}
use keekars_pi_vpn.Base.Text.{Text, codes, newline, text_operations}
use keekars_pi_vpn.Helper.Request.{Request, int, str, arr, nil, item}
use keekars_pi_vpn.Helper.Host.{Tools, Host, stored, read_conf}
use keekars_pi_vpn.Helper.Conf.{line_end, split_conf}
use keekars_pi_vpn.Helper.Blocks.{peer_block, names_key}
use keekars_pi_vpn.Helper.Commands.{helper_operations, cmd_add_peer, cmd_remove_peer}
use keekars_pi_vpn.Helper.Peers.{IsAddRequest}
use keekars_pi_vpn.Helper.PeerFiles.{IsRemoveRequest, others, add_peer_file, remove_peer_file}
use keekars_pi_vpn.Helper.AddRemove.{remove-add_peer}

-- A machine on which every call succeeds.
abbrev pub machine : Tools (Unit {0})
machine = record {
  run = λ _ _ w. (some (record { returncode = 0; stdout = []; stderr = [] }), w);
  interface_up = λ _ _. true;
  write = λ _ _ _. stored;
  psk_file = λ _. codes "psk-1";
}

abbrev pub key_a : Text
key_a = codes "aaaaaaaaaaaaaaaaaaaaaaaaaaaaaaaaaaaaaaaaaaA="

abbrev pub key_b : Text
key_b = codes "bbbbbbbbbbbbbbbbbbbbbbbbbbbbbbbbbbbbbbbbbbA="

abbrev pub interface_part : Text
interface_part = codes "[Interface]\nAddress = 10.8.0.1/24\nListenPort = 51820\nPrivateKey = k\n"

abbrev pub conf_b : Text
conf_b =
    codes
      "[Interface]\nAddress = 10.8.0.1/24\nListenPort = 51820\nPrivateKey = k\n\n[Peer]\nPublicKey = "
    ++ (key_b ++ codes "\nAllowedIPs = 10.8.0.2/32\n")

abbrev pub host : Host (Unit {0})
host = record {
  conf_files = (codes "wg0.conf", conf_b) ∷ (codes "wg1.conf", interface_part) ∷ [];
  run_files = [];
  outside = tt;
}

abbrev pub add_request : Request
add_request =
    (codes "tunnel", str (codes "wg0"))
    ∷ (codes "public_key", str key_a)
    ∷ (codes "allowed_ips", arr (item (str (codes "10.8.0.3/32")) nil))
    ∷ (codes "keepalive", int 25)
    ∷ []

abbrev remove_request : Text → Request
remove_request key = (codes "tunnel", str (codes "wg0")) ∷ (codes "public_key", str key) ∷ []

add_request-IsAddRequest :
    IsAddRequest add_request (codes "wg0") key_a (codes "10.8.0.3/32") none (int 25)
unfolding helper_operations
add_request-IsAddRequest = record {
  tunnel_ok = refl;
  key_ok = refl;
  ips_ok = refl;
  psk_ok = refl;
  keepalive_is = refl;
  keepalive_ok = refl;
}

remove_a-IsRemoveRequest : IsRemoveRequest (remove_request key_a) (codes "wg0") key_a
unfolding helper_operations
remove_a-IsRemoveRequest = record { tunnel_ok = refl; key_ok = refl }

remove_b-IsRemoveRequest : IsRemoveRequest (remove_request key_b) (codes "wg0") key_b
unfolding helper_operations
remove_b-IsRemoveRequest = record { tunnel_ok = refl; key_ok = refl }

wg0_found : (read_conf (codes "wg0") host).0 ≡ ok conf_b
unfolding helper_operations text_operations
wg0_found = refl

key_a_new : any (names_key key_a) (split_conf conf_b).1 ≡ false
unfolding helper_operations text_operations
key_a_new = refl

pub one_line_ips : elem newline (codes "10.8.0.3/32") ≡ false
unfolding text_operations
one_line_ips = refl

no_return_ips : elem 13 (codes "10.8.0.3/32") ≡ false
unfolding text_operations
no_return_ips = refl

pub one_line_a : elem newline key_a ≡ false
unfolding text_operations
one_line_a = refl

add_peer_file_example :
    (after : Text) × ((read_conf (codes "wg0") (cmd_add_peer machine add_request host).1).0
      ≡ ok after)
    × (split_conf after ≡ (
      line_end (split_conf conf_b).0,
      map line_end
          ((split_conf conf_b).1 ++ peer_block key_a none (codes "10.8.0.3/32") (int 25) ∷ []),
    ))
add_peer_file_example =
    add_peer_file machine add_request (codes "wg0") key_a (codes "10.8.0.3/32") none (int 25) host
      conf_b add_request-IsAddRequest one_line_ips no_return_ips wg0_found key_a_new (λ text. refl)

remove-add_peer_example :
    (after : Text) × ((read_conf
        (codes "wg0")
        (cmd_remove_peer machine
          (remove_request key_a)
          (cmd_add_peer machine add_request host).1).1).0
      ≡ ok after)
    × (split_conf after ≡ (line_end (split_conf conf_b).0, map line_end (split_conf conf_b).1))
remove-add_peer_example =
    remove-add_peer machine add_request (remove_request key_a) (codes "wg0") key_a
      (codes "10.8.0.3/32") none (int 25) host conf_b add_request-IsAddRequest
      remove_a-IsRemoveRequest one_line_ips no_return_ips one_line_a wg0_found key_a_new
      (λ file text w. refl)

remove_peer_file_example :
    (after : Text) × ((read_conf
        (codes "wg0")
        (cmd_remove_peer machine (remove_request key_b) host).1).0
      ≡ ok after)
    × (split_conf after
        ≡ (line_end (split_conf conf_b).0, map line_end (others key_b (split_conf conf_b).1)))
remove_peer_file_example =
    remove_peer_file machine (remove_request key_b) (codes "wg0") key_b host conf_b
      remove_b-IsRemoveRequest wg0_found (λ text. refl)
