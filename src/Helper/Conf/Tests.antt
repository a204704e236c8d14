-- ===== src/Helper/Conf/Tests.antt =====
-- Runs on .conf texts.
use keekars_pi_vpn.Base.{◌≡◌, refl, true, some, [], ◌∷◌}
use keekars_pi_vpn.Base.Text.{Text, codes, text_operations}
use keekars_pi_vpn.Helper.Conf.Info.{parse_conf_info, client, find_lines, info_operations}

abbrev client_conf : Text
client_conf =
    codes
      "[Interface]\nPrivateKey = k\n  Address=10.0.0.2/32 \n\n[Peer]\nPublicKey = p\nAllowedIPs = 10.0.0.0/24, ,192.168.1.0/24\nAllowedIPs = fd00::/8\nEndpoint = vpn.example:51820\n"

client_info : parse_conf_info client_conf ≡ record {
  mode = client;
  configured_address = some (codes "10.0.0.2/32");
  configured_endpoint = some (codes "vpn.example:51820");
  configured_allowed_ips = codes "10.0.0.0/24" ∷ codes "192.168.1.0/24" ∷ codes "fd00::/8" ∷ [];
}
unfolding info_operations text_operations
client_info = refl

-- An empty value takes the next line.
spilled_value :
    find_lines (codes "Address") true 0 (codes "Address =\nListenPort = 51820\n")
    ≡ codes "ListenPort = 51820" ∷ []
unfolding info_operations text_operations
spilled_value = refl
