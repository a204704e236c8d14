-- ===== src/Helper/PeerFiles.antt =====
-- The tunnel's file behind `cmd_add_peer` and `cmd_remove_peer`.
use keekars_pi_vpn.Base.{
  false, not, Option, none, some, List, [], ◌∷◌, ◌++◌, map, ◌≡◌, ◌≢◌, any, filter, All-append,
  All-filter, ok, arith, elem,
}
use keekars_pi_vpn.Base.Text.{Text, codes, newline}
use keekars_pi_vpn.Base.Dict.{lookup}
use keekars_pi_vpn.Helper.Conf.{split_conf, rebuild_conf, line_end}
use keekars_pi_vpn.Helper.Conf.Rebuild.{IsBlock, split-rebuild, split-IsBlock}
use keekars_pi_vpn.Helper.Request.{Json, Request, get, str}
use keekars_pi_vpn.Helper.Validate.{validate_tunnel_name, validate_wg_key}
use keekars_pi_vpn.Helper.Blocks.{validate_optional_key, peer_block, names_key}
use keekars_pi_vpn.Helper.Host.{Tools, Host, stored, conf_file, read_conf, tmp_file, wireguard_dir}
use keekars_pi_vpn.Helper.Injection.{
  IsOneLine, IsKeyLine, key-IsOneLine, no_newline-IsOneLine, peer_block-IsBlock,
}
use keekars_pi_vpn.Helper.Reading.{
  read-replaced, read_conf-NoReturn, split_conf-NoReturn, rebuild_conf-NoReturn,
  peer_block-NoReturn, validate_wg_key-NoReturn, validate_optional_key-NoReturn,
}
use keekars_pi_vpn.Helper.Files.{replaced, lookup-replaced_ne}
use keekars_pi_vpn.Helper.Commands.{cmd_add_peer, cmd_remove_peer}
use keekars_pi_vpn.Helper.Peers.{
  IsAddRequest, add_peer_new, conf_files-when_up, conf_files-apply_peer, conf_files-remove_live,
  remove_peer_run, write_conf-stored,
}

validate_wg_key-IsOneLine :
    (field : Text) (v : Json) {t : Text} → validate_wg_key field v ≡ ok t → IsOneLine t
unfolding validate_wg_key
validate_wg_key-IsOneLine field (str s) {t} h = ground (arith, key-IsOneLine t)
validate_wg_key-IsOneLine field _ h = cc

validate_optional_key-IsKeyLine :
    (field : Text) (v : Json) {psk : Option Text}
    → validate_optional_key field v ≡ ok psk
    → IsKeyLine psk
unfolding validate_optional_key validate_wg_key
validate_optional_key-IsKeyLine field v {psk = none} h = tt
validate_optional_key-IsKeyLine field (str s) {psk = some t} h = ground (arith, key-IsOneLine t)
validate_optional_key-IsKeyLine field _ {psk = some t} h = cc

add_peer_lem :
    {World : Type 0} (tools : Tools World) (req : Request) (tunnel public_key allowed_ips : Text)
    (psk : Option Text) (keepalive : Json) (h : Host World) (content : Text)
    → IsAddRequest req tunnel public_key allowed_ips psk keepalive
    → elem newline allowed_ips ≡ false
    → elem 13 allowed_ips ≡ false
    → (read_conf tunnel h).0 ≡ ok content
    → any (names_key public_key) (split_conf content).1 ≡ false
    → ((text : Text) → tools.write (wireguard_dir ++ tmp_file tunnel) text h.outside ≡ stored)
    → (after : Text) × ((read_conf tunnel (cmd_add_peer tools req h).1).0 ≡ ok after)
      × (split_conf after ≡ (
        line_end (split_conf content).0,
        map line_end
            ((split_conf content).1 ++ peer_block public_key psk allowed_ips keepalive ∷ []),
      ))
      × ((other : Text)
          → tunnel ≢ other
          → lookup (conf_file other) (cmd_add_peer tools req h).1.conf_files
            ≡ lookup (conf_file other) h.conf_files)
add_peer_lem tools req tunnel public_key allowed_ips psk keepalive h content v one line found new
      disk =
    (
      after,
      read-replaced tunnel after h.conf_files (cmd_add_peer tools req h).1 files no_return,
      parts_after,
      λ other ne. rw files (lookup-replaced_ne h.conf_files tunnel after other ne),
    )
  where
    blocks : List Text
    blocks = (split_conf content).1 ++ peer_block public_key psk allowed_ips keepalive ∷ []

    after : Text
    after = rebuild_conf (split_conf content).0 blocks

    parts_after : split_conf after ≡ (line_end (split_conf content).0, map line_end blocks)
    parts_after = split-rebuild (split_conf content).0 blocks (split-IsBlock content).0 (
        All-append IsBlock (split_conf content).1 _ (split-IsBlock content).1 (
          peer_block-IsBlock public_key psk allowed_ips keepalive
              (validate_wg_key-IsOneLine _ _ v.key_ok)
              (validate_optional_key-IsKeyLine _ _ v.psk_ok) (no_newline-IsOneLine allowed_ips one),
          tt,
        ))

    no_return : elem 13 after ≡ false
    no_return =
        let read = read_conf-NoReturn tunnel h content found in
        rebuild_conf-NoReturn (split_conf content).0 blocks (split_conf-NoReturn content read).0 (
          All-append (λ b. elem 13 b ≡ false) (split_conf content).1 _
            (split_conf-NoReturn content read).1
            (
              peer_block-NoReturn public_key psk allowed_ips keepalive
                  (validate_wg_key-NoReturn _ _ v.key_ok)
                  (validate_optional_key-NoReturn _ _ v.psk_ok) line,
              tt,
            ))

    files : (cmd_add_peer tools req h).1.conf_files ≡ replaced h.conf_files tunnel after
    files =
        rw
          (add_peer_new tools req tunnel public_key allowed_ips psk keepalive v h content found new)
          (rw (write_conf-stored tools tunnel after h (disk after))
            (conf_files-when_up tools tunnel _ _ (conf_files-apply_peer tools psk _ _)))

-- An accepted `cmd_add_peer` for a key that no block names and allowed addresses without a newline
-- or a carriage return, its file being stored, leaves the file's header and its blocks, as the
-- daemon reads them before and after, as they were, with the new block as the last one and
-- trailing newlines normalised, whether or not the running interface takes the peer.
pub add_peer_file :
    {World : Type 0} (tools : Tools World) (req : Request) (tunnel public_key allowed_ips : Text)
    (psk : Option Text) (keepalive : Json) (h : Host World) (content : Text)
    → IsAddRequest req tunnel public_key allowed_ips psk keepalive
    → elem newline allowed_ips ≡ false
    → elem 13 allowed_ips ≡ false
    → (read_conf tunnel h).0 ≡ ok content
    → any (names_key public_key) (split_conf content).1 ≡ false
    → ((text : Text) → tools.write (wireguard_dir ++ tmp_file tunnel) text h.outside ≡ stored)
    → (after : Text) × ((read_conf tunnel (cmd_add_peer tools req h).1).0 ≡ ok after)
      × (split_conf after ≡ (
        line_end (split_conf content).0,
        map line_end
            ((split_conf content).1 ++ peer_block public_key psk allowed_ips keepalive ∷ []),
      ))
add_peer_file tools req tunnel public_key allowed_ips psk keepalive h content v one line found new
      disk =
    let (after, at_after, parts, _) =
      add_peer_lem tools req tunnel public_key allowed_ips psk keepalive h content v one line found
        new disk in
    (after, at_after, parts)

-- A request that `cmd_remove_peer` accepts.
pub record IsRemoveRequest (req : Request) (tunnel public_key : Text) : Type 0 where
  pub tunnel_ok : validate_tunnel_name (get (codes "tunnel") req) ≡ ok tunnel
  pub key_ok : validate_wg_key (codes "public_key") (get (codes "public_key") req) ≡ ok public_key

-- The blocks that `cmd_remove_peer` keeps.
abbrev pub others : Text → List Text → List Text
others public_key = filter (λ b. not (names_key public_key b))

remove_peer_lem :
    {World : Type 0} (tools : Tools World) (req : Request) (tunnel public_key : Text)
    (h : Host World) (content : Text)
    → IsRemoveRequest req tunnel public_key
    → (read_conf tunnel h).0 ≡ ok content
    → ((text : Text) → tools.write (wireguard_dir ++ tmp_file tunnel) text h.outside ≡ stored)
    → (after : Text) × ((read_conf tunnel (cmd_remove_peer tools req h).1).0 ≡ ok after)
      × (split_conf after ≡ (
        line_end (split_conf content).0,
        map line_end (others public_key (split_conf content).1),
      ))
      × ((other : Text)
          → tunnel ≢ other
          → lookup (conf_file other) (cmd_remove_peer tools req h).1.conf_files
            ≡ lookup (conf_file other) h.conf_files)
remove_peer_lem tools req tunnel public_key h content v found disk = (
  after,
  read-replaced tunnel after h.conf_files (cmd_remove_peer tools req h).1 files no_return,
  split-rebuild (split_conf content).0 _ (split-IsBlock content).0
      (All-filter IsBlock _ (split_conf content).1 (split-IsBlock content).1),
  λ other ne. rw files (lookup-replaced_ne h.conf_files tunnel after other ne),
)
  where
    after : Text
    after = rebuild_conf (split_conf content).0 (others public_key (split_conf content).1)

    no_return : elem 13 after ≡ false
    no_return =
        let parts = split_conf-NoReturn content (read_conf-NoReturn tunnel h content found) in
        rebuild_conf-NoReturn (split_conf content).0 _ parts.0
          (All-filter (λ b. elem 13 b ≡ false) _ (split_conf content).1 parts.1)

    files : (cmd_remove_peer tools req h).1.conf_files ≡ replaced h.conf_files tunnel after
    files = rw (remove_peer_run tools req tunnel public_key h content v.tunnel_ok v.key_ok found) (
        rw (write_conf-stored tools tunnel after h (disk after))
          (conf_files-when_up tools tunnel _ _ (conf_files-remove_live tools tunnel public_key _)))

-- An accepted `cmd_remove_peer`, its file being stored, leaves the file's header and exactly the
-- blocks that do not name the key, as the daemon reads them before and after, in their order, with
-- trailing newlines normalised.
pub remove_peer_file :
    {World : Type 0} (tools : Tools World) (req : Request) (tunnel public_key : Text)
    (h : Host World) (content : Text)
    → IsRemoveRequest req tunnel public_key
    → (read_conf tunnel h).0 ≡ ok content
    → ((text : Text) → tools.write (wireguard_dir ++ tmp_file tunnel) text h.outside ≡ stored)
    → (after : Text) × ((read_conf tunnel (cmd_remove_peer tools req h).1).0 ≡ ok after)
      × (split_conf after ≡ (
        line_end (split_conf content).0,
        map line_end (others public_key (split_conf content).1),
      ))
remove_peer_file tools req tunnel public_key h content v found disk =
    let (after, at_after, parts, _) =
      remove_peer_lem tools req tunnel public_key h content v found disk in
    (after, at_after, parts)

-- An accepted `cmd_remove_peer`, its file being stored, leaves the file of every other tunnel as
-- it was.
pub remove_peer_other_files :
    {World : Type 0} (tools : Tools World) (req : Request) (tunnel public_key : Text)
    (h : Host World) (content other : Text)
    → IsRemoveRequest req tunnel public_key
    → (read_conf tunnel h).0 ≡ ok content
    → ((text : Text) → tools.write (wireguard_dir ++ tmp_file tunnel) text h.outside ≡ stored)
    → tunnel ≢ other
    → lookup (conf_file other) (cmd_remove_peer tools req h).1.conf_files
      ≡ lookup (conf_file other) h.conf_files
remove_peer_other_files tools req tunnel public_key h content other v found disk ne =
    let (after, at_after, parts, keep) =
      remove_peer_lem tools req tunnel public_key h content v found disk in
    keep other ne
