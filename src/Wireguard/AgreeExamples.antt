-- ===== src/Wireguard/AgreeExamples.antt =====
-- A tunnel that the given site makes.
use keekars_pi_vpn.Base.{◌≡◌, refl, some, ok}
use keekars_pi_vpn.Base.Text.{Text}
use keekars_pi_vpn.Base.Dict.{lookup}
use keekars_pi_vpn.Ip.{v4, overlaps_any, overlaps, network}
use keekars_pi_vpn.Helper.Request.{int}
use keekars_pi_vpn.Helper.Blocks.{interface_block}
use keekars_pi_vpn.Helper.Host.{conf_file}
use keekars_pi_vpn.Helper.Server.{
  handle_client, handle_line, respond, dispatch, command_named, response_to, handler,
}
use keekars_pi_vpn.Helper.Commands.{helper_operations}
use keekars_pi_vpn.HelperClient
use keekars_pi_vpn.Wireguard.Metadata.{tunnels_in, load_metadata, save_metadata}
use keekars_pi_vpn.Wireguard.Subnets.{
  overlapping_local_subnets, address_conflicts, local_network, conflicts_with,
}
use keekars_pi_vpn.Wireguard.Tunnels.{create_tunnel, new_tunnel, unless, check_overlap}
use keekars_pi_vpn.Wireguard.Agree.{create_tunnel_agrees}
use keekars_pi_vpn.Wireguard.SoundExamples.{site, app, office, office-IsInterface, key_b}

office_made : (create_tunnel site office app).0 ≡ ok key_b
unfolding create_tunnel unless check_overlap overlapping_local_subnets HelperClient.genkey
    HelperClient.create_tunnel HelperClient.call handle_client handle_line respond dispatch
    command_named response_to handler helper_operations load_metadata save_metadata
    address_conflicts local_network conflicts_with overlaps_any overlaps network
office_made = refl

create_tunnel_agrees_example :
    (private_key : Text) × (lookup
        (conf_file office.name)
        (create_tunnel site office app).1.host.conf_files
      ≡ some (interface_block private_key (v4 office.address) (int office.listen_port)))
    × (lookup office.name (tunnels_in (create_tunnel site office app).1.metadata)
        ≡ some (new_tunnel office))
create_tunnel_agrees_example =
    create_tunnel_agrees site office key_b app office-IsInterface office_made
