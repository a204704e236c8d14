-- ===== src/Wireguard/Examples.antt =====
-- Runs of the routes on the given site, and the theorems on overlaps and on new peers at them.
use mathlib.Core.List.{Memᴰ}
use keekars_pi_vpn.Base.{List, ◌≡◌, ◌↔◌, refl, true, false, none, some, [], ◌∷◌, ok}
use keekars_pi_vpn.Base.Text.{Text, codes, text_operations}
use keekars_pi_vpn.Ip.{
  net4, network, network_of, has_address, overlaps, overlaps_any, ip_interface, any_network,
  print_interface,
}
use keekars_pi_vpn.Helper.Commands.{helper_operations}
use keekars_pi_vpn.Helper.Server.{
  handle_client, handle_line, respond, handler, dispatch, response_to, command_named,
}
use keekars_pi_vpn.HelperClient
use keekars_pi_vpn.Wireguard.Metadata.{tunnels_in, load_metadata, save_metadata}
use keekars_pi_vpn.Wireguard.Subnets.{
  overlapping_local_subnets, local_network, address_conflicts, conflicts_with,
}
use keekars_pi_vpn.Wireguard.Tunnels.{TunnelCreate, create_tunnel, unless, check_overlap}
use keekars_pi_vpn.Wireguard.Peers.{register_peer}
use keekars_pi_vpn.Wireguard.Conflicts.{
  IsClear, overlapping_local_subnets_iff, create_tunnel_disjoint,
}
use keekars_pi_vpn.Wireguard.Register.{register_peer_private}
use keekars_pi_vpn.Wireguard.SoundExamples.{
  key_a, key_b, lan, site, tunnel, server, metadata, app, office, laptop, office-IsInterface,
}

overlapping_local_subnets_iff_example :
    (overlapping_local_subnets ((codes "eth0", lan) ∷ []) (net4 (network server) ∷ []) ≡ [])
    ↔ IsClear (net4 (network server) ∷ []) ((codes "eth0", lan) ∷ [])
overlapping_local_subnets_iff_example =
    overlapping_local_subnets_iff ((codes "eth0", lan) ∷ []) (net4 (network server) ∷ [])

-- 192.168.1.77/26 is in the network of eth0.
abbrev clashing : TunnelCreate
clashing = record office { address = record { ip = 3232235853; prefixlen = 26 } }

lan_read :
    local_network
      (record { family = 2; address = codes "192.168.1.5"; netmask = some (codes "255.255.255.0") })
    ≡ some (net4 (network_of 3232235781 24))
unfolding local_network ip_interface any_network text_operations
lan_read = refl

in_office : has_address (network office.address) 168361986 ≡ true
unfolding has_address network network_of
in_office = refl

office_made : (create_tunnel site office app).0 ≡ ok key_b
unfolding create_tunnel unless check_overlap overlapping_local_subnets address_conflicts
    conflicts_with local_network network network_of overlaps_any overlaps ip_interface any_network
    load_metadata save_metadata tunnels_in HelperClient.create_tunnel HelperClient.genkey
    HelperClient.call handle_client handle_line respond handler dispatch response_to command_named
    print_interface helper_operations text_operations
office_made = refl

create_tunnel_disjoint_example : has_address (network_of 3232235781 24) 168361986 ≡ false
create_tunnel_disjoint_example =
    create_tunnel_disjoint site office app key_b (codes "eth0") lan
      (record { family = 2; address = codes "192.168.1.5"; netmask = some (codes "255.255.255.0") })
      (network_of 3232235781 24) 168361986 office-IsInterface refl office_made (Memᴰ.head refl)
      (Memᴰ.head refl) lan_read in_office

register_peer_private_example :
    (register_peer site none
      (codes "wg0")
      laptop
      metadata
      tunnel
      key_a
      (codes "10.8.0.3/32")
      (record { private_key = key_a; public_key = key_b })
      none
      app).1
    ≡ (register_peer site none
        (codes "wg0")
        laptop
        metadata
        tunnel
        key_a
        (codes "10.8.0.3/32")
        (record { private_key = key_b; public_key = key_b })
        none
        app).1
register_peer_private_example =
    register_peer_private site none (codes "wg0") laptop metadata tunnel key_a (codes "10.8.0.3/32")
      none key_b key_a key_b app
