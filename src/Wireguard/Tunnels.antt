-- ===== src/Wireguard/Tunnels.antt =====
-- The routes for tunnels: `list_tunnels`, `create_tunnel`, `delete_tunnel` and `set_tunnel_state`.
use keekars_pi_vpn.Base.{
  ℕ, Bool, true, false, not, ◌&&◌, Option, none, some, List, [], ◌∷◌, head?, if◌then◌else◌, is_nil,
  Result, ok, err, pure, lift, ◌>>=◌, ◌>>◌, length,
}
use keekars_pi_vpn.Base.Text.{Text, codes, text_eq}
use keekars_pi_vpn.Base.Dict.{Dict, lookup, insert, remove}
use keekars_pi_vpn.Ip.{
  Interface, AnyNetwork, net4, network, any_network, ip_interface, ip_network, print_interface,
}
use keekars_pi_vpn.Helper.Conf.Info.{Mode, client, server, ConfInfo}
use keekars_pi_vpn.Helper.Status.{LivePeer, TunnelInfo}
use keekars_pi_vpn.WebApp.{
  HttpError, http, unhandled, unknown_tunnel, overlapping, Peer, TunnelMeta, Site, Req,
}
use keekars_pi_vpn.HelperClient
use keekars_pi_vpn.Wireguard.Metadata.{load_metadata, save_metadata}
use keekars_pi_vpn.Wireguard.Subnets.{overlapping_local_subnets}

-- models.py: a valid `TunnelCreateRequest`, and a `TunnelStateRequest`
pub record TunnelCreate : Type 0 where
  pub name : Text
  pub address : Interface
  pub listen_port : ℕ
  pub endpoint : Option Text
  pub force : Bool

pub record TunnelState : Type 0 where
  pub action : Text
  pub force : Bool

-- The entry that `create_tunnel` makes
abbrev pub new_tunnel : TunnelCreate → TunnelMeta
new_tunnel payload = record {
  address = print_interface payload.address;
  endpoint = payload.endpoint;
  listen_port = payload.listen_port;
  peers = [];
}

-- One tunnel of the answer of `list_tunnels`
pub data TunnelEntry : Type 0 where
  client_entry :
      (name : Text) (active : Bool) (public_key remote_endpoint : Option Text)
      (remote_allowed_ips : List Text) (latest_handshake rx_bytes tx_bytes : Option ℕ)
      → TunnelEntry
  server_entry :
      (name : Text) (active : Bool) (public_key address endpoint listen_port : Option Text)
      (peer_count : ℕ)
      → TunnelEntry

-- `a or b` on optional texts
abbrev pub or_text : Option Text → Option Text → Option Text
or_text none b = b
or_text (some t) b = if is_nil t then b else some t

abbrev meta_address : Option TunnelMeta → Option Text
meta_address none = none
meta_address (some m) = some m.address

abbrev meta_endpoint : Option TunnelMeta → Option Text
meta_endpoint none = none
meta_endpoint (some m) = m.endpoint

abbrev meta_peers : Option TunnelMeta → List Peer
meta_peers none = []
meta_peers (some m) = m.peers

abbrev of_peer : (LivePeer → ℕ) → Option LivePeer → Option ℕ
of_peer f none = none
of_peer f (some p) = some (f p)

unfoldable pub entry_in_mode : Mode → TunnelInfo → Option TunnelMeta → TunnelEntry
entry_in_mode client t m =
    client_entry t.name t.active t.public_key t.conf.configured_endpoint
      t.conf.configured_allowed_ips (of_peer (λ p. p.latest_handshake) (head? t.peers))
      (of_peer (λ p. p.rx_bytes) (head? t.peers)) (of_peer (λ p. p.tx_bytes) (head? t.peers))
entry_in_mode server t m =
    server_entry t.name t.active t.public_key (or_text (meta_address m) t.conf.configured_address)
      (meta_endpoint m) t.listen_port (length (meta_peers m))

-- The loop of `list_tunnels`
unfoldable pub tunnel_entries : Dict TunnelMeta → List TunnelInfo → List TunnelEntry
tunnel_entries metadata [] = []
tunnel_entries metadata (t ∷ ts) =
    entry_in_mode t.conf.mode t (lookup t.name metadata) ∷ tunnel_entries metadata ts

-- The networks of a client's allowed addresses; what cannot be read is passed over.
unfoldable pub readable_networks : List Text → List AnyNetwork
readable_networks [] = []
readable_networks (t ∷ ts) =
    let rest = readable_networks ts in elim (ip_network t) [ none ↦ rest | some n ↦ n ∷ rest ]

abbrev address_network : Text → Result HttpError (List AnyNetwork)
address_network t = elim (ip_interface t) [
  | none ↦ err unhandled
  | some i ↦ ok (any_network i ∷ [])
]

-- `[ip_interface(a).network] if a else []`
unfoldable pub address_networks : Option Text → Result HttpError (List AnyNetwork)
address_networks none = ok []
address_networks (some t) = if is_nil t then ok [] else address_network t

-- The networks that the activation of a tunnel would route.
unfoldable pub candidates_of : Mode → ConfInfo → Result HttpError (List AnyNetwork)
candidates_of client info = ok (readable_networks info.configured_allowed_ips)
candidates_of server info = address_networks info.configured_address

abbrev pub first_tunnel : List TunnelInfo → Result HttpError TunnelInfo
first_tunnel [] = err (http 404 unknown_tunnel)
first_tunnel (t ∷ ts) = ok t

-- `if conflicts: raise`
abbrev pub no_conflict : List Text → Result HttpError (Unit {0})
no_conflict [] = ok tt
no_conflict (c ∷ cs) = err (http 409 (overlapping (c ∷ cs)))

module _ {World : Type 0} (site : Site World) where
  -- Raises if a candidate overlaps a network of this device.
  unfoldable pub check_overlap : List AnyNetwork → Req World (Unit {0})
  check_overlap candidates a =
      (no_conflict (overlapping_local_subnets (site.net_if_addrs a.host.outside) candidates), a)

  unfoldable pub unless : Bool → Req World (Unit {0}) → Req World (Unit {0})
  unless true act a = (ok tt, a)
  unless false act a = act a

  unfoldable pub list_tunnels : Req World (List TunnelEntry)
  list_tunnels = do
    live ← HelperClient.tunnel_status site none
    metadata ← load_metadata
    pure (tunnel_entries metadata live)

  -- The answer is the new tunnel's public key.
  unfoldable pub create_tunnel : TunnelCreate → Req World Text
  create_tunnel payload = do
    unless payload.force (check_overlap (net4 (network payload.address) ∷ []))
    keys ← HelperClient.genkey site
    HelperClient.create_tunnel site payload.name (print_interface payload.address)
        payload.listen_port keys.private_key
    metadata ← load_metadata
    save_metadata site (insert payload.name (new_tunnel payload) metadata)
    pure keys.public_key

  unfoldable pub delete_tunnel : Text → Req World (Unit {0})
  delete_tunnel name = do
    HelperClient.delete_tunnel site name
    metadata ← load_metadata
    save_metadata site (remove name metadata)

  unfoldable pub check_activation : TunnelInfo → Req World (Unit {0})
  check_activation t = do
    candidates ← lift (candidates_of t.conf.mode t.conf)
    check_overlap candidates

  unfoldable pub set_tunnel_state : Text → TunnelState → Req World (Unit {0})
  unfolding check_activation
  set_tunnel_state name payload = do
    live ← HelperClient.tunnel_status site (some name)
    t ← lift (first_tunnel live)
    unless (not (text_eq payload.action (codes "activate") && not payload.force))
        (check_activation t)
    HelperClient.set_tunnel_state site name payload.action

  unfoldable pub status_snapshot : Req World (List TunnelInfo)
  status_snapshot = HelperClient.tunnel_status site none
