-- ===== src/Helper/Peers.antt =====
-- What `cmd_add_peer` and `cmd_remove_peer` do to the tunnel's file.
use keekars_pi_vpn.Base.{
  true, false, not, Option, none, some, List, [], ◌∷◌, ◌++◌, ◌≡◌, ap, any, filter, ok, ◌>>◌, arith,
}
use keekars_pi_vpn.Base.Text.{Text, codes}
use keekars_pi_vpn.Base.Dict.{insert, remove}
use keekars_pi_vpn.Helper.Conf.{split_conf, rebuild_conf}
use keekars_pi_vpn.Helper.Request.{Json, Request, get}
use keekars_pi_vpn.Helper.Validate.{validate_tunnel_name, validate_wg_key, validate_allowed_ips}
use keekars_pi_vpn.Helper.Blocks.{
  validate_optional_key, is_keepalive, peer_block, names_key, set_args, remove_args,
}
use keekars_pi_vpn.Helper.Host.{
  Tools, Host, Cmd, stored, conf_file, read_conf, write_conf, run, tmp_file, wireguard_dir,
  put_secret,
}
use keekars_pi_vpn.Helper.Commands.{
  cmd_add_peer, cmd_remove_peer, when_up, apply_peer, remove_live, with_psk_file, run_checked,
}

-- A request that `cmd_add_peer` accepts, and the values that it validates to.
pub record IsAddRequest (req : Request) (tunnel public_key allowed_ips : Text) (psk : Option Text)
    (keepalive : Json) : Type 0 where
  pub tunnel_ok : validate_tunnel_name (get (codes "tunnel") req) ≡ ok tunnel
  pub key_ok : validate_wg_key (codes "public_key") (get (codes "public_key") req) ≡ ok public_key
  pub ips_ok : validate_allowed_ips (get (codes "allowed_ips") req) ≡ ok allowed_ips
  pub psk_ok :
      validate_optional_key (codes "preshared_key") (get (codes "preshared_key") req) ≡ ok psk
  pub keepalive_is : get (codes "keepalive") req ≡ keepalive
  pub keepalive_ok : is_keepalive keepalive ≡ true

read_conf_lem :
    {World : Type 0} (tunnel : Text) (h : Host World) (content : Text)
    → (read_conf tunnel h).0 ≡ ok content
    → read_conf tunnel h ≡ (ok content, h)
unfolding read_conf
read_conf_lem tunnel h content e = ap (λ r. (r, h)) e

module _ {World : Type 0} (tools : Tools World) (req : Request)
    (tunnel public_key allowed_ips : Text) (psk : Option Text) (keepalive : Json)
    (valid : IsAddRequest req tunnel public_key allowed_ips psk keepalive) where
  pub add_peer_new :
      (h : Host World) (content : Text)
      → (read_conf tunnel h).0 ≡ ok content
      → any (names_key public_key) (split_conf content).1 ≡ false
      → cmd_add_peer tools req h
        ≡ (write_conf tools tunnel (
                rebuild_conf
                  (split_conf content).0
                  ((split_conf content).1 ++ peer_block public_key psk allowed_ips keepalive ∷ []))
              >> when_up tools tunnel
                  (apply_peer tools psk (set_args tunnel public_key allowed_ips keepalive)))
            h
  unfolding cmd_add_peer
  add_peer_new h content found new =
      rw (valid.tunnel_ok, valid.key_ok, valid.ips_ok, valid.psk_ok, valid.keepalive_is)
        (rw valid.keepalive_ok (rw (read_conf_lem tunnel h content found) (rw new)))

-- Telling the interface changes no file of a tunnel.
module _ {World : Type 0} (tools : Tools World) where
  conf_files-run_checked :
      (what : Text) (args : List Text) (input : Option Text) (h : Host World)
      → (run_checked tools what args input h).1.conf_files ≡ h.conf_files
  unfolding run_checked run
  conf_files-run_checked what args input h = ground arith

  conf_files-put_secret :
      (file content : Text) (h : Host World)
      → (put_secret tools file content h).1.conf_files ≡ h.conf_files
  unfolding put_secret
  conf_files-put_secret file content h = ground arith

  pub conf_files-apply_peer :
      (psk : Option Text) (args : List Text) (h : Host World)
      → (apply_peer tools psk args h).1.conf_files ≡ h.conf_files
  unfolding apply_peer with_psk_file
  conf_files-apply_peer none args h =
      ground (arith, conf_files-run_checked (codes "wg set") args none h)
  conf_files-apply_peer (some psk) args h =
      grind (arith, conf_files-run_checked, conf_files-put_secret)

  pub conf_files-remove_live :
      (tunnel public_key : Text) (h : Host World)
      → (remove_live tools tunnel public_key h).1.conf_files ≡ h.conf_files
  unfolding remove_live
  conf_files-remove_live tunnel public_key h =
      ground (
        arith,
        conf_files-run_checked (codes "wg set remove") (remove_args tunnel public_key) none h,
      )

  pub conf_files-when_up :
      (tunnel : Text) (act : Cmd World (Unit {0})) (h : Host World)
      → (act h).1.conf_files ≡ h.conf_files
      → (when_up tools tunnel act h).1.conf_files ≡ h.conf_files
  unfolding when_up
  conf_files-when_up tunnel act h keep = ground arith

  pub write_conf-stored :
      (tunnel content : Text) (h : Host World)
      → tools.write (wireguard_dir ++ tmp_file tunnel) content h.outside ≡ stored
      → write_conf tools tunnel content h ≡ (
        ok tt,
        record h {
          conf_files = insert (conf_file tunnel) content (remove (tmp_file tunnel) h.conf_files);
        },
      )
  unfolding write_conf
  write_conf-stored tunnel content h e = rw e

  pub remove_peer_run :
      (req : Request) (tunnel public_key : Text) (h : Host World) (content : Text)
      → validate_tunnel_name (get (codes "tunnel") req) ≡ ok tunnel
      → validate_wg_key (codes "public_key") (get (codes "public_key") req) ≡ ok public_key
      → (read_conf tunnel h).0 ≡ ok content
      → cmd_remove_peer tools req h
        ≡ (write_conf tools tunnel (
                rebuild_conf
                  (split_conf content).0
                  (filter (λ b. not (names_key public_key b)) (split_conf content).1))
              >> when_up tools tunnel (remove_live tools tunnel public_key))
            h
  unfolding cmd_remove_peer
  remove_peer_run req tunnel public_key h content t k found =
      rw (t, k) (rw (read_conf_lem tunnel h content found))
