-- ===== src/Wireguard/AgreePeerExamples.antt =====
-- A peer that the given site makes.
use keekars_pi_vpn.Base.{
  Bool, false, if◌then◌else◌, ◌≡◌, refl, some, ok, err, List, [], ◌∷◌, Result,
}
use keekars_pi_vpn.Base.Text.{Text, codes, text_eq}
use keekars_pi_vpn.Base.Dict.{keys}
use keekars_pi_vpn.Helper.Commands.{helper_operations}
use keekars_pi_vpn.Helper.Host.{Tools}
use keekars_pi_vpn.Helper.Server.{
  handle_client, handle_line, respond, dispatch, command_named, response_to, handler,
}
use keekars_pi_vpn.Helper.Status.{
  cmd_tunnel_status, requested_name, all_status, conf_names, one_status, info_or_default,
  parse_dump, add_line, add_columns,
}
use keekars_pi_vpn.HelperClient
use keekars_pi_vpn.WebApp.{Site, HttpError}
use keekars_pi_vpn.Wireguard.Metadata.{tunnels_in, load_metadata, save_metadata}
use keekars_pi_vpn.Ip.{host_count, network, first_host}
use keekars_pi_vpn.Wireguard.Allocate.{allocate_peer_address, peer_ips, first_free, host_text}
use keekars_pi_vpn.Wireguard.Peers.{
  Download, create_peer, register_peer, new_id, make_psk, server_key,
}
use keekars_pi_vpn.Wireguard.AgreePeer.{IsAdded, create_peer_agrees}
use keekars_pi_vpn.Wireguard.SoundExamples.{site, app, app-IsSound, laptop, machine, key_b}

abbrev nothing : Download
nothing = record { filename = []; content = [] }

abbrev file_of : Result HttpError Download → Download
file_of (ok f) = f
file_of (err e) = nothing

abbrev is_show : List Text → Bool
is_show [] = false
is_show (a ∷ []) = false
is_show (a ∷ b ∷ rest) = text_eq b (codes "show")

abbrev dump : Text
dump = codes "wg0\tk\tp\t51820\toff\n"

-- A machine on which `wg show` prints one interface, and every other program a key.
abbrev showing : Tools (Unit {0})
showing = record machine {
  run = λ args _ w. (
    some (record { returncode = 0; stdout = if is_show args then dump else key_b; stderr = [] }),
    w,
  );
}

abbrev active_site : Site (Unit {0})
active_site = record site { tools = showing }

laptop_made :
    (create_peer active_site (some (codes "sub-1")) (codes "wg0") laptop app).0
    ≡ ok (file_of (create_peer active_site (some (codes "sub-1")) (codes "wg0") laptop app).0)
unfolding create_peer register_peer new_id make_psk HelperClient.genkey HelperClient.add_peer
    HelperClient.tunnel_status HelperClient.call handle_client handle_line respond dispatch
    command_named response_to handler helper_operations load_metadata save_metadata tunnels_in
    server_key cmd_tunnel_status requested_name all_status conf_names keys one_status
    info_or_default parse_dump add_line add_columns allocate_peer_address peer_ips first_free
    host_count network first_host host_text
laptop_made = refl

create_peer_agrees_example :
    IsAdded
      (codes "wg0")
      (some 25)
      (create_peer active_site (some (codes "sub-1")) (codes "wg0") laptop app).1
create_peer_agrees_example =
    create_peer_agrees active_site (some (codes "sub-1")) (codes "wg0") laptop app
      (file_of (create_peer active_site (some (codes "sub-1")) (codes "wg0") laptop app).0)
      app-IsSound laptop_made
