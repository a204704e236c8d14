-- ===== src/Wireguard/Invariant.antt =====
-- The metadata file over `create_tunnel`, `delete_tunnel`, `create_peer` and `delete_peer`.
use keekars_pi_vpn.Base.{
  Bool, true, false, not, ◌≡◌, refl, Option, none, some, List, [], ◌∷◌, ok, pure, ◌>>◌, Bool-cases,
  inl, inr, arith, find,
}
use keekars_pi_vpn.Base.Text.{Text, text_eq}
use keekars_pi_vpn.Base.Dict.{Dict, lookup, insert, remove}
use keekars_pi_vpn.Ip.{IsInterface, AnyNetwork, network, net4, print_interface}
use keekars_pi_vpn.Ip.Print.{parse-print_interface}
use keekars_pi_vpn.Helper.Commands.{Keypair}
use keekars_pi_vpn.WebApp.{TunnelMeta, Site, App, Req}
use keekars_pi_vpn.HelperClient
use keekars_pi_vpn.Wireguard.Metadata.{tunnels_in, save_metadata}
use keekars_pi_vpn.Wireguard.Allocate.{allocate_peer_address}
use keekars_pi_vpn.Wireguard.Fits.{IsTunnel, allocate_peer_address-IsTunnel, remove-IsTunnel}
use keekars_pi_vpn.Wireguard.Tunnels.{
  TunnelCreate, new_tunnel, create_tunnel, delete_tunnel, unless, check_overlap,
}
use keekars_pi_vpn.Wireguard.Peers.{
  PeerCreate, Download, download, create_peer, delete_peer, register_peer, make_psk, new_id,
  with_peer, new_peer, known_tunnel, server_key, found_peer,
}
use keekars_pi_vpn.Wireguard.Quiet.{
  IsQuiet, bind-IsQuiet, genkey-IsQuiet, create_tunnel-IsQuiet, delete_tunnel-IsQuiet,
  add_peer-IsQuiet, remove_peer-IsQuiet, tunnel_status-IsQuiet,
}
use keekars_pi_vpn.Wireguard.Sound.{
  AllTunnels, IsSound, KeepsSound, insert-AllTunnels, remove-AllTunnels, continue-KeepsSound,
  after_quiet, after_lift, after_load,
}

pub known-lookup : (o : Option TunnelMeta) (t : TunnelMeta) → known_tunnel o ≡ ok t → o ≡ some t
known-lookup none t e = ground arith
known-lookup (some u) t e = ground arith

pub new_tunnel-IsTunnel :
    (payload : TunnelCreate) → IsInterface payload.address → IsTunnel (new_tunnel payload)
new_tunnel-IsTunnel payload wf = record {
  iface = payload.address;
  address_read = parse-print_interface payload.address wf;
  bounded = wf;
  fits = tt;
}

module _ {World : Type 0} (site : Site World) where
  pub save-KeepsSound : (d : Dict TunnelMeta) → AllTunnels d → KeepsSound (save_metadata site d)
  unfolding save_metadata tunnels_in
  save-KeepsSound d all a s = elim (Bool-cases (site.saves a.host.outside)) [
    | inl e ↦ rw e all
    | inr e ↦ rw e s
  ]

  pub unless-IsQuiet :
      (skip : Bool) (ns : List AnyNetwork) → IsQuiet (unless site skip (check_overlap site ns))
  unfolding unless check_overlap
  unless-IsQuiet true ns a = refl
  unless-IsQuiet false ns a = refl

  pub make_psk-IsQuiet : (wanted : Bool) → IsQuiet (make_psk site wanted)
  unfolding make_psk
  make_psk-IsQuiet false a = refl
  make_psk-IsQuiet true a =
      bind-IsQuiet (HelperClient.genkey site) _ (genkey-IsQuiet site) (λ keys b. refl) a

  then-KeepsSound :
      {A B : Type 0} (m : Req World A) (v : B)
      → KeepsSound m
      → KeepsSound {World = World} {A = B} (m >> pure v)
  then-KeepsSound m v keep a s = continue-KeepsSound (m a).0 _ (m a).1 (keep a s) (λ x e. keep a s)

  create_tunnel-KeepsSound :
      (payload : TunnelCreate)
      → IsInterface payload.address
      → KeepsSound (create_tunnel site payload)
  unfolding create_tunnel
  create_tunnel-KeepsSound payload wf =
      let address = print_interface payload.address in
      let checked = check_overlap site (net4 (network payload.address) ∷ []) in
      after_quiet (unless site payload.force checked) _ (unless-IsQuiet payload.force _) (λ _.
        after_quiet (HelperClient.genkey site) _ (genkey-IsQuiet site) (λ keys.
          after_quiet
            (HelperClient.create_tunnel site payload.name address payload.listen_port
              keys.private_key)
            _ (create_tunnel-IsQuiet site _ _ _ _)
            (λ _. after_load _ (λ d all.
              then-KeepsSound (save_metadata site (insert payload.name (new_tunnel payload) d))
                keys.public_key
                (save-KeepsSound _ (
                  insert-AllTunnels payload.name (new_tunnel payload) d
                    (new_tunnel-IsTunnel payload wf) all))))))

  delete_tunnel-KeepsSound : (name : Text) → KeepsSound (delete_tunnel site name)
  unfolding delete_tunnel
  delete_tunnel-KeepsSound name =
      after_quiet (HelperClient.delete_tunnel site name) _ (delete_tunnel-IsQuiet site name) (λ _.
        after_load _ (λ d all. save-KeepsSound (remove name d) (remove-AllTunnels name d all)))

  delete_peer-KeepsSound : (name peer_id : Text) → KeepsSound (delete_peer site name peer_id)
  unfolding delete_peer
  delete_peer-KeepsSound name peer_id = after_load _ (λ d all.
      after_lift (known_tunnel (lookup name d)) _ (λ t known.
        after_lift (found_peer (find (λ p. text_eq p.id peer_id) t.peers)) _ (λ peer found.
          after_quiet (HelperClient.remove_peer site name peer.public_key) _
            (remove_peer-IsQuiet site name peer.public_key)
            (λ _. save-KeepsSound _ (
              insert-AllTunnels name _ d
                (remove-IsTunnel t (λ p. not (text_eq p.id peer_id))
                  (all name t (known-lookup (lookup name d) t known)))
                all)))))

  pub new_id-IsQuiet : IsQuiet (new_id site)
  unfolding new_id
  new_id-IsQuiet a = refl

  register_peer-KeepsSound :
      (user : Option Text) (name : Text) (payload : PeerCreate) (d : Dict TunnelMeta)
      (t : TunnelMeta) (server_public_key address : Text) (keys : Keypair) (psk : Option Text)
      → AllTunnels d
      → IsTunnel t
      → allocate_peer_address t ≡ ok address
      → KeepsSound (register_peer site user name payload d t server_public_key address keys psk)
  unfolding register_peer
  register_peer-KeepsSound user name payload d t server_public_key address keys psk all wf given =
      after_quiet {B = Download}
        (HelperClient.add_peer site name keys.public_key (address ∷ []) psk payload.keepalive) _
        (add_peer-IsQuiet site _ _ _ _ _)
        (λ _. after_quiet {B = Download} (new_id site) _ new_id-IsQuiet (λ id.
          then-KeepsSound
            (save_metadata site
              (insert name (with_peer t (new_peer id payload address keys user)) d))
            (download payload keys address server_public_key psk t)
            (save-KeepsSound _ (
              insert-AllTunnels name _ d (allocate_peer_address-IsTunnel t address _ wf given refl)
                all))))

  create_peer-KeepsSound :
      (user : Option Text) (name : Text) (payload : PeerCreate)
      → KeepsSound (create_peer site user name payload)
  unfolding create_peer
  create_peer-KeepsSound user name payload = after_load _ (λ d all.
      after_lift (known_tunnel (lookup name d)) _ (λ t known.
        after_quiet (HelperClient.tunnel_status site (some name)) _ (tunnel_status-IsQuiet site _)
          (λ live. after_lift (server_key live) _ (λ server_public_key _.
            after_lift (allocate_peer_address t) _ (λ address given.
              after_quiet (HelperClient.genkey site) _ (genkey-IsQuiet site) (λ keys.
                after_quiet (make_psk site payload.preshared_key) _ (make_psk-IsQuiet _) (λ psk.
                  register_peer-KeepsSound user name payload d t server_public_key address keys psk
                    all (all name t (known-lookup (lookup name d) t known)) given)))))))

  -- After `create_tunnel` with a valid IPv4 address the metadata is sound if it was so before,
  -- whether the request succeeds or fails and wherever it fails.
  create_tunnel-IsSound :
      (payload : TunnelCreate) (a : App World)
      → IsInterface payload.address
      → IsSound a
      → IsSound (create_tunnel site payload a).1
  create_tunnel-IsSound payload a wf s = create_tunnel-KeepsSound payload wf a s

  -- After `delete_tunnel` the metadata is sound if it was so before, whether the request succeeds
  -- or fails.
  delete_tunnel-IsSound :
      (name : Text) (a : App World) → IsSound a → IsSound (delete_tunnel site name a).1
  delete_tunnel-IsSound name a s = delete_tunnel-KeepsSound name a s

  -- After `create_peer` the metadata is sound if it was so before, whether the request succeeds or
  -- fails: every tunnel has an IPv4 address, and its peers' addresses lie in its network and
  -- differ from its own and from each other.
  pub create_peer-IsSound :
      (user : Option Text) (name : Text) (payload : PeerCreate) (a : App World)
      → IsSound a
      → IsSound (create_peer site user name payload a).1
  create_peer-IsSound user name payload a s = create_peer-KeepsSound user name payload a s

  -- After `delete_peer` the metadata is sound if it was so before, whether the request succeeds or
  -- fails.
  delete_peer-IsSound :
      (name peer_id : Text) (a : App World)
      → IsSound a
      → IsSound (delete_peer site name peer_id a).1
  delete_peer-IsSound name peer_id a s = delete_peer-KeepsSound name peer_id a s
