-- ===== src/Models/Accepted.antt =====
-- Requests that app/models.py accepts, at the daemon's own checks.
use keekars_pi_vpn.Base.{==_iff, [], ◌∷◌, ◌++◌, ◌≡◌, refl, true, some, none, ok, arith, inl}
use keekars_pi_vpn.Base.Text.{Text, codes, text_operations}
use keekars_pi_vpn.Base.Dict.{lookup, insert}
use keekars_pi_vpn.Ip.{v4, IsInterface, print_interface, ip_interface}
use keekars_pi_vpn.Ip.Print.{parse-print_interface}
use keekars_pi_vpn.Helper.Request.{Request, int, str, get, is_int_in, ip_interface_of}
use keekars_pi_vpn.Helper.Validate.{
  is_tunnel_name, matches_tunnel_name, matches_wg_key, validate_tunnel_name, validate_wg_key,
}
use keekars_pi_vpn.Helper.Names.{matches_tunnel_name_iff}
use keekars_pi_vpn.Helper.Blocks.{interface_block}
use keekars_pi_vpn.Helper.Host.{stored, conf_file, wireguard_dir}
use keekars_pi_vpn.Helper.Create.{IsCreateRequest, create_tunnel_file}
use keekars_pi_vpn.Helper.Server.{
  handle_client, handle_line, respond, handler, dispatch, command_named, response_to,
}
use keekars_pi_vpn.WebApp.{Site, App}
use keekars_pi_vpn.HelperClient
use keekars_pi_vpn.Wireguard.Tunnels.{TunnelCreate}
use keekars_pi_vpn.Models.{valid_tunnel_create}

name-matches : (t : Text) → is_tunnel_name t ≡ true → matches_tunnel_name t ≡ true
name-matches t h = (matches_tunnel_name_iff t).1 (inl h)

valid-name : (r : TunnelCreate) → valid_tunnel_create r ≡ true → is_tunnel_name r.name ≡ true
unfolding valid_tunnel_create
valid-name r h = ground (arith, h)

valid-port :
    (r : TunnelCreate)
    → valid_tunnel_create r ≡ true
    → is_int_in 1024 65535 (int r.listen_port) ≡ true
unfolding valid_tunnel_create is_int_in
valid-port r h = ground (arith, h)

-- The request that the client sends
abbrev create_request : TunnelCreate → Text → Request
create_request r key =
    (codes "cmd", str (codes "create_tunnel"))
    ∷ (codes "name", str r.name)
    ∷ (codes "address", str (print_interface r.address))
    ∷ (codes "listen_port", int r.listen_port)
    ∷ (codes "private_key", str key)
    ∷ []

create_request-IsCreateRequest :
    (r : TunnelCreate) (key : Text)
    → valid_tunnel_create r ≡ true
    → IsInterface r.address
    → matches_wg_key key ≡ true
    → IsCreateRequest (create_request r key) r.name key (v4 r.address) (int r.listen_port)
unfolding get lookup text_operations validate_tunnel_name validate_wg_key ip_interface_of
    ip_interface
create_request-IsCreateRequest r key valid wf key_ok = record {
  name_ok = rw (name-matches r.name (valid-name r valid)) refl;
  key_ok = rw key_ok refl;
  address_ok = rw (parse-print_interface r.address wf) refl;
  port_is = refl;
  port_ok = valid-port r valid;
}

module _ {World : Type 0} (site : Site World) where
  -- Every tunnel request that app/models.py accepts passes the daemon's checks: `create_tunnel` of
  -- app/wg_helper_client.py succeeds for it and makes exactly the tunnel's file, if the socket can
  -- be reached, the application runs as the user `pi-config-ui`, the key has a key's form, the
  -- address is an IPv4 interface, the name has no file yet and the disk takes it.
  pub create_tunnel-valid :
      (r : TunnelCreate) (key : Text) (a : App World)
      → valid_tunnel_create r ≡ true
      → IsInterface r.address
      → matches_wg_key key ≡ true
      → site.reachable a.host.outside ≡ true
      → site.allowed_uid ≡ some site.own_uid
      → lookup (conf_file r.name) a.host.conf_files ≡ none
      → site.tools.write
          (wireguard_dir ++ conf_file r.name)
          (interface_block key (v4 r.address) (int r.listen_port))
          a.host.outside
        ≡ stored
      → HelperClient.create_tunnel site r.name (print_interface r.address) r.listen_port key a ≡ (
        ok tt,
        record a {
          host = record a.host {
            conf_files =
                insert
                  (conf_file r.name)
                  (interface_block key (v4 r.address) (int r.listen_port))
                  a.host.conf_files;
          };
        },
      )
  unfolding get lookup text_operations HelperClient.create_tunnel HelperClient.call handle_client
      handle_line respond handler dispatch command_named response_to
  create_tunnel-valid r key a valid wf key_ok up uid new disk =
      let request_ok = create_request-IsCreateRequest r key valid wf key_ok in
      rw
        (
          up,
          uid,
          (==_iff site.own_uid site.own_uid).1 refl,
          create_tunnel_file site.tools (create_request r key) r.name key (v4 r.address)
              (int r.listen_port) a.host request_ok new disk,
        )
        refl
