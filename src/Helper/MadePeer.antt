-- ===== src/Helper/MadePeer.antt =====
-- `cmd_add_peer` where it succeeds, whatever the request.
use keekars_pi_vpn.Base.{not, Option, some, List, [], ◌∷◌, ◌++◌, ◌≡◌, any, ok, arith, after_success}
use keekars_pi_vpn.Base.Text.{Text, codes}
use keekars_pi_vpn.Base.Dict.{Dict, lookup, lookup-insert_self}
use keekars_pi_vpn.Helper.Conf.{split_conf, rebuild_conf}
use keekars_pi_vpn.Helper.Request.{Json, Request, get}
use keekars_pi_vpn.Helper.Validate.{
  invalid_keepalive, peer_exists, validate_tunnel_name, validate_wg_key, validate_allowed_ips,
}
use keekars_pi_vpn.Helper.Blocks.{
  require, validate_optional_key, is_keepalive, peer_block, names_key,
}
use keekars_pi_vpn.Helper.Host.{
  Tools, Host, Disk, not_opened, cut, not_renamed, stored, conf_file, put_conf, read_conf,
  write_conf,
}
use keekars_pi_vpn.Helper.Commands.{cmd_add_peer}
use keekars_pi_vpn.Helper.Peers.{conf_files-when_up, conf_files-apply_peer}

-- The tunnel's file is some header and some blocks, and then the peer's block.
abbrev pub EndsWithPeer : Text → Text → Text → Json → Dict Text → Type 0
EndsWithPeer tunnel public_key allowed_ips keepalive files =
    (header : Text) × (blocks : List Text) × (psk : Option Text) × (lookup (conf_file tunnel) files
      ≡ some (rebuild_conf header (blocks ++ peer_block public_key psk allowed_ips keepalive ∷ [])))

module _ {World : Type 0} (tools : Tools World) where
  put_conf-made :
      (name text : Text) (disk : Disk) (h : Host World)
      → (put_conf name text disk h).0 ≡ ok tt
      → lookup (conf_file name) (put_conf name text disk h).1.conf_files ≡ some text
  unfolding put_conf
  put_conf-made name text not_opened h e = ground arith
  put_conf-made name text (cut _) h e = ground arith
  put_conf-made name text not_renamed h e = ground arith
  put_conf-made name text stored h e = lookup-insert_self _ text _

  write_conf-made :
      (name text : Text) (h : Host World)
      → (write_conf tools name text h).0 ≡ ok tt
      → lookup (conf_file name) (write_conf tools name text h).1.conf_files ≡ some text
  unfolding write_conf
  write_conf-made name text h e = put_conf-made name text _ h e

  added_as :
      (n tunnel k public_key ips allowed_ips header : Text) (blocks : List Text) (psk : Option Text)
      (keepalive : Json) (h : Host World) (files : Dict Text)
      → n ≡ tunnel
      → k ≡ public_key
      → ips ≡ allowed_ips
      → (write_conf tools n
          (rebuild_conf header (blocks ++ peer_block k psk ips keepalive ∷ []))
          h).0
        ≡ ok tt
      → files
        ≡ (write_conf tools n
            (rebuild_conf header (blocks ++ peer_block k psk ips keepalive ∷ []))
            h).1.conf_files
      → EndsWithPeer tunnel public_key allowed_ips keepalive files
  added_as n tunnel k public_key ips allowed_ips header blocks psk keepalive h files same_tunnel
        same_key same_ips written kept =
      (
        header,
        blocks,
        psk,
        rw (kept, ← same_tunnel, ← same_key, ← same_ips) (write_conf-made n _ h written),
      )

  -- Where `cmd_add_peer` succeeds, the last block of the file is the peer's, with what it has
  -- checked.
  pub cmd_add_peer-made :
      (req : Request) (tunnel public_key allowed_ips : Text) (h : Host World)
      → ((x : Text) → validate_tunnel_name (get (codes "tunnel") req) ≡ ok x → x ≡ tunnel)
      → ((x : Text)
          → validate_wg_key (codes "public_key") (get (codes "public_key") req) ≡ ok x
          → x ≡ public_key)
      → ((x : Text) → validate_allowed_ips (get (codes "allowed_ips") req) ≡ ok x → x ≡ allowed_ips)
      → (cmd_add_peer tools req h).0 ≡ ok tt
      → EndsWithPeer tunnel public_key allowed_ips
          (get (codes "keepalive") req)
          (cmd_add_peer tools req h).1.conf_files
  unfolding cmd_add_peer read_conf
  cmd_add_peer-made req tunnel public_key allowed_ips h same_tunnel same_key same_ips =
      let keepalive = get (codes "keepalive") req in
      let P : Host World → Type 0 =
        λ g. EndsWithPeer tunnel public_key allowed_ips keepalive g.conf_files in
      after_success P (validate_tunnel_name (get (codes "tunnel") req)) _ h tt (λ n is_name.
        after_success P (validate_wg_key (codes "public_key") (get (codes "public_key") req)) _ h tt
          (λ k is_key.
            after_success P (validate_allowed_ips (get (codes "allowed_ips") req)) _ h tt
              (λ ips is_ips.
                after_success P
                  (validate_optional_key (codes "preshared_key") (get (codes "preshared_key") req))
                  _ h tt
                  (λ psk _.
                    after_success P (require (is_keepalive keepalive) invalid_keepalive) _ h tt
                      (λ _ _. after_success P (read_conf n h).0 _ h tt (λ content _.
                        let (header, blocks) = split_conf content in
                        let text =
                          rebuild_conf header (blocks ++ peer_block k psk ips keepalive ∷ []) in
                        let w = write_conf tools n text h in
                        after_success P (require (not (any (names_key k) blocks)) peer_exists) _ h
                          tt
                          (λ _ _. after_success P w.0 _ w.1 tt (λ _ written _.
                            added_as n tunnel k public_key ips allowed_ips header blocks psk
                              keepalive h _ (same_tunnel n is_name) (same_key k is_key)
                              (same_ips ips is_ips) written
                              (conf_files-when_up tools n _ _
                                (conf_files-apply_peer tools psk _ _))))))))))
