-- ===== src/Wireguard/AgreePeer.antt =====
-- The daemon's files and the metadata file after `create_peer`.
use keekars_pi_vpn.Base.{
  ℕ, ◌≡◌, ◌<◌, ◌^◌, refl, ap, some, Option, [], ◌∷◌, arith, ok, after_success,
}
use keekars_pi_vpn.Base.Text.{Text, codes, text_operations, decimal}
use keekars_pi_vpn.Base.Dict.{Dict, lookup, insert, lookup-insert_self}
use keekars_pi_vpn.Ip.{
  network, network_of, mask, print_v4, ip_network, ip_interface, any_network, print_network,
  print_any_network,
}
use keekars_pi_vpn.Helper.Request.{Json, Request, str, arr, item, nil, get, ip_network_of}
use keekars_pi_vpn.Helper.Validate.{validate_allowed_ips, validate_entries}
use keekars_pi_vpn.Helper.Host.{Host}
use keekars_pi_vpn.Helper.Made.{valid_name_same, valid_key_same}
use keekars_pi_vpn.Helper.MadePeer.{EndsWithPeer, cmd_add_peer-made}
use keekars_pi_vpn.Helper.Commands.{Keypair, cmd_add_peer}
use keekars_pi_vpn.Helper.Server
use keekars_pi_vpn.Helper.Server.{Payload, found, handler, dispatch, command_named}
use keekars_pi_vpn.WebApp.{Site, App, Peer, TunnelMeta}
use keekars_pi_vpn.HelperClient
use keekars_pi_vpn.HelperClient.{int_or_null, text_or_null}
use keekars_pi_vpn.Wireguard.Metadata.{tunnels_in, load_metadata, save_metadata}
use keekars_pi_vpn.Wireguard.Allocate.{host_text, allocate_peer_address}
use keekars_pi_vpn.Wireguard.Fits.{IsTunnel, read-host_text, allocated_host}
use keekars_pi_vpn.Wireguard.Sound.{IsSound}
use keekars_pi_vpn.Wireguard.Invariant.{known-lookup}
use keekars_pi_vpn.Wireguard.Peers.{
  PeerCreate, Download, create_peer, register_peer, new_id, with_peer, new_peer, known_tunnel,
  server_key, make_psk,
}
use keekars_pi_vpn.Wireguard.Agree.{call_lem, save_lem}

network_of-host : (x : ℕ) → network_of x 32 ≡ record { network_address = x; prefixlen = 32 }
unfolding network_of mask
network_of-host x = ap (λ y. record { network_address = y; prefixlen = 32 }) (omega arith)

host_text-valid :
    (x : ℕ)
    → x < 2 ^ 32
    → validate_allowed_ips (arr (item (str (host_text x)) nil)) ≡ ok (host_text x)
unfolding validate_allowed_ips validate_entries ip_network_of ip_network ip_interface any_network
    print_any_network print_network print_v4 network text_operations decimal host_text
host_text-valid x h = rw (read-host_text x h) (ap (λ n. ok (print_network n)) (network_of-host x))

-- One peer, with one key and one address, is the last of the tunnel's peers in the daemon's file and in
-- the metadata.
abbrev pub IsAdded : {World : Type 0} → Text → Option ℕ → App World → Type 0
IsAdded tunnel keepalive b =
    (t : TunnelMeta) × (p : Peer) × (lookup tunnel (tunnels_in b.metadata) ≡ some (with_peer t p))
    × EndsWithPeer tunnel p.public_key p.tunnel_address (int_or_null keepalive) b.host.conf_files

host_ips :
    (x : ℕ) (t : Text)
    → x < 2 ^ 32
    → validate_allowed_ips (arr (item (str (host_text x)) nil)) ≡ ok t
    → t ≡ host_text x
host_ips x t h e = cc (e, host_text-valid x h)

module _ {World : Type 0} (site : Site World) where
  abbrev add_params : Text → Text → Text → Option Text → Option ℕ → Dict Json
  add_params tunnel public_key address psk keepalive =
      (codes "tunnel", str tunnel)
      ∷ (codes "public_key", str public_key)
      ∷ (codes "allowed_ips", arr (item (str address) nil))
      ∷ (codes "preshared_key", text_or_null psk)
      ∷ (codes "keepalive", int_or_null keepalive)
      ∷ []

  abbrev add_request : Text → Text → Text → Option Text → Option ℕ → Request
  add_request tunnel public_key address psk keepalive =
      (codes "cmd", str (codes "add_peer")) ∷ add_params tunnel public_key address psk keepalive

  add_named : dispatch (str (codes "add_peer")) ≡ found Server.add_peer
  unfolding dispatch command_named text_operations
  add_named = refl

  handler_added :
      (tunnel public_key : Text) (x : ℕ) (psk : Option Text) (keepalive : Option ℕ) (h : Host World)
      (p : Payload)
      → x < 2 ^ 32
      → (handler site.tools Server.add_peer
          (add_request tunnel public_key (host_text x) psk keepalive)
          h).0
        ≡ ok p
      → EndsWithPeer tunnel public_key
          (host_text x)
          (int_or_null keepalive)
          (handler site.tools Server.add_peer
            (add_request tunnel public_key (host_text x) psk keepalive)
            h).1.conf_files
  unfolding handler get lookup text_operations
  handler_added tunnel public_key x psk keepalive h p bits done =
      let req = add_request tunnel public_key (host_text x) psk keepalive in
      let P : Host World → Type 0 =
        λ g. EndsWithPeer tunnel public_key (host_text x) (int_or_null keepalive) g.conf_files in
      after_success P (cmd_add_peer site.tools req h).0 _ (cmd_add_peer site.tools req h).1 p
        (λ _ made _.
          cmd_add_peer-made site.tools req tunnel public_key (host_text x) h
            (λ t. valid_name_same tunnel t) (λ t. valid_key_same (codes "public_key") public_key t)
            (λ t. host_ips x t bits) made)
        done

  client_added :
      (tunnel public_key : Text) (x : ℕ) (psk : Option Text) (keepalive : Option ℕ) (a : App World)
      → x < 2 ^ 32
      → (HelperClient.add_peer site tunnel public_key (host_text x ∷ []) psk keepalive a).0 ≡ ok tt
      → EndsWithPeer tunnel public_key
          (host_text x)
          (int_or_null keepalive)
          (HelperClient.add_peer site tunnel public_key
            (host_text x ∷ [])
            psk
            keepalive
            a).1.host.conf_files
  unfolding HelperClient.add_peer HelperClient.strings
  client_added tunnel public_key x psk keepalive a bits done =
      let params = add_params tunnel public_key (host_text x) psk keepalive in
      let sent = HelperClient.call site (codes "add_peer") params a in
      let P : App World → Type 0 = λ b.
        EndsWithPeer tunnel public_key (host_text x) (int_or_null keepalive) b.host.conf_files in
      after_success P sent.0 _ sent.1 tt
        (λ p called _.
          call_lem site P (codes "add_peer") params Server.add_peer a p add_named
            (handler_added tunnel public_key x psk keepalive a.host p bits) called)
        done

  saved-IsAdded :
      (tunnel : Text) (keepalive : Option ℕ) (t : TunnelMeta) (p : Peer) (d : Dict TunnelMeta)
      (a : App World)
      → EndsWithPeer tunnel p.public_key p.tunnel_address (int_or_null keepalive) a.host.conf_files
      → (save_metadata site (insert tunnel (with_peer t p) d) a).0 ≡ ok tt
      → IsAdded tunnel keepalive (save_metadata site (insert tunnel (with_peer t p) d) a).1
  unfolding tunnels_in
  saved-IsAdded tunnel keepalive t p d a made saved =
      rw (save_lem site (insert tunnel (with_peer t p) d) a saved)
        (t, p, lookup-insert_self tunnel (with_peer t p) d, made)

  allocated_added :
      (name public_key address : Text) (t : TunnelMeta) (psk : Option Text) (keepalive : Option ℕ)
      (a : App World)
      → IsTunnel t
      → allocate_peer_address t ≡ ok address
      → (HelperClient.add_peer site name public_key (address ∷ []) psk keepalive a).0 ≡ ok tt
      → EndsWithPeer name public_key address
          (int_or_null keepalive)
          (HelperClient.add_peer site name public_key
            (address ∷ [])
            psk
            keepalive
            a).1.host.conf_files
  allocated_added name public_key address t psk keepalive a wf given done =
      let (x, bits, same) = allocated_host t address wf given in
      rw same (client_added name public_key x psk keepalive a bits (rw same at done))

  register_peer_agrees :
      (user : Option Text) (name : Text) (payload : PeerCreate) (d : Dict TunnelMeta)
      (t : TunnelMeta) (server_public_key address : Text) (keys : Keypair) (psk : Option Text)
      (a : App World) (file : Download)
      → IsTunnel t
      → allocate_peer_address t ≡ ok address
      → (register_peer site user name payload d t server_public_key address keys psk a).0 ≡ ok file
      → IsAdded name payload.keepalive
          (register_peer site user name payload d t server_public_key address keys psk a).1
  unfolding register_peer new_id
  register_peer_agrees user name payload d t server_public_key address keys psk a file wf given
        done =
      let P : App World → Type 0 = IsAdded name payload.keepalive in
      let added =
        HelperClient.add_peer site name keys.public_key (address ∷ []) psk payload.keepalive a in
      let id = (site.uuid4 added.1.host.outside).0 in
      let p : Peer = new_peer id payload address keys user in
      let saved = save_metadata site (insert name (with_peer t p) d) (new_id site added.1).1 in
      after_success P added.0 _ added.1 file
        (λ _ is_added. after_success P saved.0 _ saved.1 file (λ _ is_saved _.
          saved-IsAdded name payload.keepalive t p d (new_id site added.1).1
            (allocated_added name keys.public_key address t psk payload.keepalive a wf given
              is_added)
            is_saved))
        done

  -- Where `create_peer` succeeds on sound metadata, the tunnel's last peer in the metadata has the
  -- key and the address of the last block that the daemon has written into the tunnel's file: the
  -- block allows exactly that address, and has the keepalive of the request.
  pub create_peer_agrees :
      (user : Option Text) (name : Text) (payload : PeerCreate) (a : App World) (file : Download)
      → IsSound a
      → (create_peer site user name payload a).0 ≡ ok file
      → IsAdded name payload.keepalive (create_peer site user name payload a).1
  unfolding create_peer load_metadata
  create_peer_agrees user name payload a file s done =
      let P : App World → Type 0 = IsAdded name payload.keepalive in
      let d = tunnels_in a.metadata in
      after_success P (known_tunnel (lookup name d)) _ a file
        (λ t known.
          let live = HelperClient.tunnel_status site (some name) a in
          after_success P live.0 _ live.1 file (λ ts _.
            after_success P (server_key ts) _ live.1 file (λ server_public_key _.
              after_success P (allocate_peer_address t) _ live.1 file (λ address given.
                let keys = HelperClient.genkey site live.1 in
                after_success P keys.0 _ keys.1 file (λ k _.
                  let psk = make_psk site payload.preshared_key keys.1 in
                  after_success P psk.0 _ psk.1 file (λ o _.
                    register_peer_agrees user name payload d t server_public_key address k o psk.1
                      file (s name t (known-lookup (lookup name d) t known)) given))))))
        done
