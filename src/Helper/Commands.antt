-- ===== src/Helper/Commands.antt =====
-- The commands that change a tunnel: `cmd_genkey`, `cmd_create_tunnel`, `cmd_delete_tunnel`,
-- `cmd_add_peer`, `cmd_remove_peer` and `cmd_set_tunnel_state`.
use keekars_pi_vpn.Base.{
  not, Option, none, some, List, [], ◌∷◌, ◌++◌, ◌==◌, if◌then◌else◌, any, filter, ok, pure, raise,
  lift, continue, ◌>>=◌, ◌>>◌,
}
use keekars_pi_vpn.Base.Text.{Text, codes, newline, strip, text_operations}
use keekars_pi_vpn.Base.Dict.{lookup, insert, remove, has_key}
use keekars_pi_vpn.Ip.{
  print_any_interface, print_any_network, ip_interface, ip_interface_of_int, ip_network,
  ip_network_of_int,
}
use keekars_pi_vpn.Helper.Conf.{split_conf, rebuild_conf}
use keekars_pi_vpn.Helper.Request.{
  Request, get, is_int_in, print_int, is_true_int, ip_interface_of, ip_network_of,
}
use keekars_pi_vpn.Helper.Validate.{
  rejected, invalid_listen_port, invalid_keepalive, tunnel_exists, tunnel_not_found, peer_exists,
  tool_failed, validate_tunnel_name, validate_wg_key, validate_allowed_ips, drop_final_newline,
  matches_tunnel_name, matches_wg_key,
}
use keekars_pi_vpn.Helper.Host.{
  Outcome, Tools, Cmd, conf_file, conf_exists, read_conf, unlink_conf, write_conf, create_conf, run,
  put_secret, secret_dir,
}
use keekars_pi_vpn.Helper.Blocks.{
  require, checked_address, validate_optional_key, is_keepalive, interface_block, peer_block,
  names_key, set_args, remove_args, deactivate, parse_action, systemctl_args,
}

pub record Keypair : Type 0 where
  pub private_key : Text
  pub public_key : Text

module _ {World : Type 0} (tools : Tools World) where
  -- `if rc != 0: raise HelperError(...)`
  unfoldable pub run_checked : Text → List Text → Option Text → Cmd World Outcome
  run_checked what args input = do
    o ← run tools args input
    if o.returncode == 0 then pure o else raise (rejected (tool_failed what o.stderr))

  unfoldable pub cmd_genkey : Cmd World Keypair
  cmd_genkey = do
    priv ← run_checked (codes "wg genkey") (codes "wg" ∷ codes "genkey" ∷ []) none
    pubk ← run_checked (codes "wg pubkey") (codes "wg" ∷ codes "pubkey" ∷ []) (some priv.stdout)
    pure (record { private_key = strip priv.stdout; public_key = strip pubk.stdout })

  unfoldable pub cmd_create_tunnel : Request → Cmd World (Unit {0})
  cmd_create_tunnel req = do
    name ← lift (validate_tunnel_name (get (codes "name") req))
    private_key ← lift (validate_wg_key (codes "private_key") (get (codes "private_key") req))
    address ← lift (checked_address (ip_interface_of (get (codes "address") req)))
    let listen_port = get (codes "listen_port") req
    lift (require (is_int_in 1024 65535 listen_port) invalid_listen_port)
    exists ← (λ h. (ok (conf_exists name h), h))
    lift (require (not exists) tunnel_exists)
    create_conf tools name (interface_block private_key address listen_port)

  -- The outcome of `systemctl` is not looked at.
  unfoldable pub cmd_delete_tunnel : Request → Cmd World (Unit {0})
  cmd_delete_tunnel req = do
    name ← lift (validate_tunnel_name (get (codes "name") req))
    o ← run tools (systemctl_args deactivate name) none
    unlink_conf (conf_file name)

  -- The secret file of `wg set`: written, named on the command line, and removed on every way out.
  unfoldable pub with_psk_file : Text → (List Text → Cmd World (Unit {0})) → Cmd World (Unit {0})
  with_psk_file psk use_args h =
      let file = tools.psk_file h.outside in
      let written = put_secret tools file (psk ++ newline ∷ []) h in
      let (r, h') =
        continue written.0 (λ _. use_args (codes "preshared-key" ∷ (secret_dir ++ file) ∷ []))
          written.1 in
      (r, record h' { run_files = remove file h'.run_files })

  unfoldable pub apply_peer : Option Text → List Text → Cmd World (Unit {0})
  apply_peer none args = do o ← run_checked (codes "wg set") args none; pure tt
  apply_peer (some psk) args =
      with_psk_file psk (λ more. do o ← run_checked (codes "wg set") (args ++ more) none; pure tt)

  -- The interface is told only if it is up.
  unfoldable pub when_up : Text → Cmd World (Unit {0}) → Cmd World (Unit {0})
  when_up tunnel act h = if tools.interface_up tunnel h.outside then act h else (ok tt, h)

  unfoldable pub cmd_add_peer : Request → Cmd World (Unit {0})
  cmd_add_peer req = do
    tunnel ← lift (validate_tunnel_name (get (codes "tunnel") req))
    public_key ← lift (validate_wg_key (codes "public_key") (get (codes "public_key") req))
    allowed_ips ← lift (validate_allowed_ips (get (codes "allowed_ips") req))
    psk ← lift (validate_optional_key (codes "preshared_key") (get (codes "preshared_key") req))
    let keepalive = get (codes "keepalive") req
    lift (require (is_keepalive keepalive) invalid_keepalive)
    content ← read_conf tunnel
    let blocks = (split_conf content).1
    lift (require (not (any (names_key public_key) blocks)) peer_exists)
    let block = peer_block public_key psk allowed_ips keepalive
    write_conf tools tunnel (rebuild_conf (split_conf content).0 (blocks ++ block ∷ []))
    when_up tunnel (apply_peer psk (set_args tunnel public_key allowed_ips keepalive))

  unfoldable pub remove_live : Text → Text → Cmd World (Unit {0})
  remove_live tunnel public_key = do
    o ← run_checked (codes "wg set remove") (remove_args tunnel public_key) none
    pure tt

  unfoldable pub cmd_remove_peer : Request → Cmd World (Unit {0})
  cmd_remove_peer req = do
    tunnel ← lift (validate_tunnel_name (get (codes "tunnel") req))
    public_key ← lift (validate_wg_key (codes "public_key") (get (codes "public_key") req))
    content ← read_conf tunnel
    let kept = filter (λ b. not (names_key public_key b)) (split_conf content).1
    write_conf tools tunnel (rebuild_conf (split_conf content).0 kept)
    when_up tunnel (remove_live tunnel public_key)

  unfoldable pub cmd_set_tunnel_state : Request → Cmd World (Unit {0})
  cmd_set_tunnel_state req = do
    name ← lift (validate_tunnel_name (get (codes "name") req))
    action ← lift (parse_action (get (codes "action") req))
    exists ← (λ h. (ok (conf_exists name h), h))
    lift (require exists tunnel_not_found)
    o ← run_checked (codes "systemctl") (systemctl_args action name) none
    pure tt

-- Unfolds every command and what it calls, for runs on given requests.
unfoldable pub helper_operations : Unit {0}
unfolding text_operations lookup has_key insert remove split_conf rebuild_conf get is_int_in
    print_int is_true_int ip_interface_of ip_network_of validate_tunnel_name validate_wg_key
    validate_allowed_ips matches_tunnel_name matches_wg_key drop_final_newline ip_interface
    ip_interface_of_int ip_network ip_network_of_int print_any_interface print_any_network conf_file
    conf_exists read_conf unlink_conf write_conf create_conf put_secret run validate_optional_key
    is_keepalive interface_block peer_block names_key set_args remove_args parse_action
    systemctl_args run_checked with_psk_file apply_peer remove_live when_up cmd_genkey
    cmd_create_tunnel cmd_delete_tunnel cmd_add_peer cmd_remove_peer cmd_set_tunnel_state
helper_operations = tt
