-- ===== src/Wireguard/Peers.antt =====
-- The routes for peers: `list_peers`, `create_peer` and `delete_peer`.
use keekars_pi_vpn.Base.{
  ℕ, Bool, true, false, not, ◌||◌, Option, none, some, List, [], ◌∷◌, ◌++◌, ◌==◌, map,
  if◌then◌else◌, is_nil, find, filter, Result, ok, err, pure, lift, ◌>>=◌, ◌>>◌,
}
use keekars_pi_vpn.Base.Text.{Text, codes, newline, text_eq, join, decimal}
use keekars_pi_vpn.Base.Dict.{Dict, lookup, insert}
use keekars_pi_vpn.Ip.{Network, print_network}
use keekars_pi_vpn.Helper.Validate.{is_alnum}
use keekars_pi_vpn.Helper.Status.{LivePeer, TunnelInfo}
use keekars_pi_vpn.Helper.Commands.{Keypair}
use keekars_pi_vpn.WebApp.{
  HttpError, http, unknown_tunnel, unknown_peer, tunnel_inactive, Peer, TunnelMeta, Site, Req,
}
use keekars_pi_vpn.HelperClient
use keekars_pi_vpn.Wireguard.Metadata.{load_metadata, save_metadata}
use keekars_pi_vpn.Wireguard.Allocate.{allocate_peer_address}

-- models.py: a valid `PeerCreateRequest`
pub record PeerCreate : Type 0 where
  pub description : Text
  pub allowed_ips : List Network
  pub preshared_key : Bool
  pub keepalive : Option ℕ

-- One peer of the answer of `list_peers`
pub record PeerEntry : Type 0 where
  pub id : Text
  pub description : Text
  pub tunnel_address : Text
  pub allowed_ips : List Text
  pub latest_handshake : Option ℕ
  pub rx_bytes : Option ℕ
  pub tx_bytes : Option ℕ

-- The file that `create_peer` answers with
pub record Download : Type 0 where
  pub filename : Text
  pub content : Text

abbrev pub known_tunnel : Option TunnelMeta → Result HttpError TunnelMeta
known_tunnel none = err (http 404 unknown_tunnel)
known_tunnel (some t) = ok t

abbrev key_or_conflict : Option Text → Result HttpError Text
key_or_conflict none = err (http 409 tunnel_inactive)
key_or_conflict (some k) = if is_nil k then err (http 409 tunnel_inactive) else ok k

-- The public key of the running tunnel
unfoldable pub server_key : List TunnelInfo → Result HttpError Text
server_key [] = err (http 409 tunnel_inactive)
server_key (t ∷ ts) = key_or_conflict t.public_key

unfoldable pub print_networks : List Network → List Text
print_networks [] = []
print_networks (n ∷ ns) = print_network n ∷ print_networks ns

abbrev psk_lines : Option Text → List Text
psk_lines none = []
psk_lines (some psk) = if is_nil psk then [] else (codes "PresharedKey = " ++ psk) ∷ []

abbrev endpoint_line : Option Text → ℕ → Text
endpoint_line none port = codes "# Endpoint = <this server's reachable address>:" ++ decimal port
endpoint_line (some e) port =
    if is_nil e
    then codes "# Endpoint = <this server's reachable address>:" ++ decimal port
    else codes "Endpoint = " ++ (e ++ (b':' ∷ decimal port))

abbrev keepalive_lines : Option ℕ → List Text
keepalive_lines none = []
keepalive_lines (some n) = if n == 0 then [] else (codes "PersistentKeepalive = " ++ decimal n) ∷ []

unfoldable pub conf_lines :
    Keypair → Text → Text → Option Text → List Text → TunnelMeta → Option ℕ → List Text
conf_lines keys address server_public_key psk allowed_ips t keepalive =
    codes "[Interface]"
    ∷ (codes "PrivateKey = " ++ keys.private_key)
    ∷ (codes "Address = " ++ address)
    ∷ []
    ∷ codes "[Peer]"
    ∷ (codes "PublicKey = " ++ server_public_key)
    ∷ (psk_lines psk
        ++ ((codes "AllowedIPs = " ++ join (codes ", ") allowed_ips)
            ∷ (endpoint_line t.endpoint t.listen_port ∷ keepalive_lines keepalive)))

-- `c if c.isalnum() or c in "._-" else "_"`
unfoldable pub safe_char : ℕ → ℕ
unfolding is_alnum
safe_char c = if is_alnum c || c == b'.' || c == b'_' || c == b'-' then c else b'_'

unfoldable pub safe_filename : Text → Text
unfolding safe_char
safe_filename description =
    let name = map safe_char description in if is_nil name then codes "peer" else name

abbrev pub found_peer : Option Peer → Result HttpError Peer
found_peer none = err (http 404 unknown_peer)
found_peer (some p) = ok p

-- `live_by_key`: of two live peers with one key the later counts.
unfoldable pub live_peers : List LivePeer → Dict LivePeer → Dict LivePeer
live_peers [] d = d
live_peers (p ∷ ps) d = live_peers ps (insert p.public_key p d)

unfoldable pub live_by_key : List TunnelInfo → Dict LivePeer → Dict LivePeer
live_by_key [] d = d
live_by_key (t ∷ ts) d = live_by_key ts (live_peers t.peers d)

abbrev of_live : (LivePeer → ℕ) → Option LivePeer → Option ℕ
of_live f none = none
of_live f (some p) = some (f p)

unfoldable pub peer_entries : Dict LivePeer → List Peer → List PeerEntry
peer_entries live [] = []
peer_entries live (p ∷ ps) =
    let l = lookup p.public_key live in
    record {
      id = p.id;
      description = p.description;
      tunnel_address = p.tunnel_address;
      allowed_ips = p.allowed_ips;
      latest_handshake = of_live (λ q. q.latest_handshake) l;
      rx_bytes = of_live (λ q. q.rx_bytes) l;
      tx_bytes = of_live (λ q. q.tx_bytes) l;
    }
    ∷ peer_entries live ps

-- The attachment: its name, and the lines of the peer's own configuration
unfoldable pub download : PeerCreate → Keypair → Text → Text → Option Text → TunnelMeta → Download
unfolding safe_filename conf_lines print_networks
download payload keys address server_public_key psk t = record {
  filename = safe_filename payload.description ++ codes ".conf";
  content =
      join (newline ∷ []) (
        conf_lines keys address server_public_key psk (print_networks payload.allowed_ips) t
          payload.keepalive)
      ++ newline ∷ [];
}

-- The entry that `create_peer` makes
abbrev pub new_peer : Text → PeerCreate → Text → Keypair → Option Text → Peer
new_peer id payload address keys user = record {
  id = id;
  description = payload.description;
  tunnel_address = address;
  allowed_ips = print_networks payload.allowed_ips;
  public_key = keys.public_key;
  created_by = user;
}

-- `.append(...)` to the tunnel's peers
abbrev pub with_peer : TunnelMeta → Peer → TunnelMeta
with_peer t p = record t { peers = t.peers ++ p ∷ [] }

module _ {World : Type 0} (site : Site World) where
  unfoldable pub list_peers : Text → Req World (List PeerEntry)
  list_peers name = do
    metadata ← load_metadata
    t ← lift (known_tunnel (lookup name metadata))
    live ← HelperClient.tunnel_status site (some name)
    pure (peer_entries (live_by_key live []) t.peers)

  -- A second call of `genkey` makes the preshared key.
  unfoldable pub make_psk : Bool → Req World (Option Text)
  make_psk false = pure none
  make_psk true = do keys ← HelperClient.genkey site; pure (some keys.private_key)

  unfoldable pub new_id : Req World Text
  new_id a =
      let (id, w) = site.uuid4 a.host.outside in
      (ok id, record a { host = record a.host { outside = w } })

  -- What `create_peer` does once it has the new keys.
  unfoldable pub register_peer :
      Option Text
      → Text
      → PeerCreate
      → Dict TunnelMeta
      → TunnelMeta
      → Text
      → Text
      → Keypair
      → Option Text
      → Req World Download
  register_peer user name payload metadata t server_public_key address keys psk = do
    HelperClient.add_peer site name keys.public_key (address ∷ []) psk payload.keepalive
    id ← new_id
    save_metadata site (insert name (with_peer t (new_peer id payload address keys user)) metadata)
    pure (download payload keys address server_public_key psk t)

  -- `user` is the "sub" of the signed-in user.
  unfoldable pub create_peer : Option Text → Text → PeerCreate → Req World Download
  create_peer user name payload = do
    metadata ← load_metadata
    t ← lift (known_tunnel (lookup name metadata))
    live ← HelperClient.tunnel_status site (some name)
    server_public_key ← lift (server_key live)
    address ← lift (allocate_peer_address t)
    keys ← HelperClient.genkey site
    psk ← make_psk payload.preshared_key
    register_peer user name payload metadata t server_public_key address keys psk

  unfoldable pub delete_peer : Text → Text → Req World (Unit {0})
  delete_peer name peer_id = do
    metadata ← load_metadata
    t ← lift (known_tunnel (lookup name metadata))
    peer ← lift (found_peer (find (λ p. text_eq p.id peer_id) t.peers))
    HelperClient.remove_peer site name peer.public_key
    save_metadata site (
        insert name (record t { peers = filter (λ p. not (text_eq p.id peer_id)) t.peers })
          metadata)
