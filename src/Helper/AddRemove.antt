-- ===== src/Helper/AddRemove.antt =====
-- `cmd_remove_peer` after `cmd_add_peer`, of the same key.
use mathlib.Core.List.{append_assoc}
use keekars_pi_vpn.Base.{
  true, false, Option, List, [], ◌∷◌, ◌++◌, map, ◌≡◌, refl, ◌∙◌, any, filter, arith, elem, ok,
}
use keekars_pi_vpn.Base.Text.{Text, codes, newline, contains-line_end, contains_self}
use keekars_pi_vpn.Helper.Conf.{split_conf, line_end}
use keekars_pi_vpn.Helper.Conf.Rebuild.{line_end_idem}
use keekars_pi_vpn.Helper.Request.{Json, Request}
use keekars_pi_vpn.Helper.Blocks.{peer_block, names_key}
use keekars_pi_vpn.Helper.Host.{Tools, Host, stored, read_conf}
use keekars_pi_vpn.Helper.Commands.{cmd_add_peer, cmd_remove_peer}
use keekars_pi_vpn.Helper.Peers.{IsAddRequest}
use keekars_pi_vpn.Helper.PeerFiles.{IsRemoveRequest, others, add_peer_file, remove_peer_file}

module _ (public_key : Text) (one_line : elem newline public_key ≡ false) where
  needle_lem : elem newline (codes "PublicKey = " ++ public_key) ≡ false
  unfolding elem
  needle_lem = one_line

  names_key-line_end : (b : Text) → names_key public_key (line_end b) ≡ names_key public_key b
  unfolding names_key
  names_key-line_end b = contains-line_end b'P' _ b needle_lem

  -- The file's blocks, of which none names the key, and then the new one.
  others-append :
      (blocks : List Text) (block : Text)
      → any (names_key public_key) blocks ≡ false
      → names_key public_key block ≡ true
      → others public_key (map line_end (blocks ++ block ∷ [])) ≡ map line_end blocks
  unfolding any filter
  others-append [] block h k = ground (arith, names_key-line_end block)
  others-append (b ∷ blocks) block h k =
      ground (arith, names_key-line_end b, others-append blocks block)

peer_block-names_key :
    (public_key : Text) (psk : Option Text) (allowed_ips : Text) (keepalive : Json)
    → names_key public_key (peer_block public_key psk allowed_ips keepalive) ≡ true
unfolding names_key peer_block
peer_block-names_key public_key psk allowed_ips keepalive =
    rw (append_assoc public_key (newline ∷ []) _)
      (contains_self (codes "PublicKey = " ++ public_key) (codes "[Peer]\n") _)

map-line_end_idem : (blocks : List Text) → map line_end (map line_end blocks) ≡ map line_end blocks
map-line_end_idem [] = refl
map-line_end_idem (b ∷ blocks) = rw (line_end_idem b, map-line_end_idem blocks)

-- An accepted `cmd_add_peer` for a key that no block names, and then `cmd_remove_peer` of that
-- key, leave the file's header and blocks, as the daemon reads them before and after, as they
-- were, with trailing newlines normalised, if every write succeeds, the key has no newline, and
-- the allowed addresses have no newline and no carriage return.
pub remove-add_peer :
    {World : Type 0} (tools : Tools World) (added removed : Request)
    (tunnel public_key allowed_ips : Text) (psk : Option Text) (keepalive : Json) (h : Host World)
    (content : Text)
    → IsAddRequest added tunnel public_key allowed_ips psk keepalive
    → IsRemoveRequest removed tunnel public_key
    → elem newline allowed_ips ≡ false
    → elem 13 allowed_ips ≡ false
    → elem newline public_key ≡ false
    → (read_conf tunnel h).0 ≡ ok content
    → any (names_key public_key) (split_conf content).1 ≡ false
    → ((file text : Text) (w : World) → tools.write file text w ≡ stored)
    → (after : Text) × ((read_conf tunnel
          (cmd_remove_peer tools removed (cmd_add_peer tools added h).1).1).0
        ≡ ok after)
      × (split_conf after ≡ (line_end (split_conf content).0, map line_end (split_conf content).1))
remove-add_peer tools added removed tunnel key ips psk keepalive h content va vr one line one_key
      found new disk =
    let (mid, at_mid, parts_mid) =
      add_peer_file tools added tunnel key ips psk keepalive h content va one line found new
        (λ text. disk _ text _) in
    let (after, at_after, parts_after) =
      remove_peer_file tools removed tunnel key (cmd_add_peer tools added h).1 mid vr at_mid
        (λ text. disk _ text _) in
    let kept =
      others-append key one_key (split_conf content).1 (peer_block key psk ips keepalive) new
        (peer_block-names_key key psk ips keepalive) in
    (
      after,
      at_after,
      parts_after
          ∙ rw (parts_mid, kept)
              (rw (line_end_idem (split_conf content).0, map-line_end_idem (split_conf content).1)),
    )
