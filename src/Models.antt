-- ===== src/Models.antt =====
-- app/models.py: the patterns and bounds that a request has to meet. pydantic's `$` is the end of the
-- text only.
use keekars_pi_vpn.Base.{
  ℕ, Bool, true, false, not, ◌&&◌, ◌||◌, Option, none, some, List, [], ◌∷◌, ◌==◌, leb, length, all,
  any, is_nil,
}
use keekars_pi_vpn.Base.Text.{Text, codes, text_eq}
use keekars_pi_vpn.Helper.Validate.{is_alnum, is_tunnel_name}
use keekars_pi_vpn.Wireguard.Tunnels.{TunnelCreate, TunnelState}
use keekars_pi_vpn.Wireguard.Peers.{PeerCreate}
use keekars_pi_vpn.Network.Configure.{InterfaceMethod, dhcp, static, NetworkConfig}
use keekars_pi_vpn.Network.Wifi.{WifiConnect}
use keekars_pi_vpn.Routing.{RouteRequest, RouteDeleteRequest}
pub mod Accepted
mod Examples

-- `^[...]{1,n}$`
unfoldable pub matches_class : (ℕ → Bool) → ℕ → Text → Bool
matches_class p n t = all p t && leb 1 (length t) && leb (length t) n

-- `[a-zA-Z0-9_.-]`
unfoldable pub is_iface_char : ℕ → Bool
unfolding is_alnum
is_iface_char c = is_alnum c || c == b'_' || c == b'.' || c == b'-'

-- `[a-zA-Z0-9 _.-]`
unfoldable pub is_description_char : ℕ → Bool
unfolding is_iface_char
is_description_char c = is_iface_char c || c == b' '

-- `[a-zA-Z0-9.-]`
unfoldable pub is_host_char : ℕ → Bool
unfolding is_alnum
is_host_char c = is_alnum c || c == b'.' || c == b'-'

-- A field that may be left out
abbrev if_given : {A : Type 0} → (A → Bool) → Option A → Bool
if_given p none = true
if_given p (some a) = p a

unfoldable pub valid_interface_name : Text → Bool
unfolding matches_class is_iface_char
valid_interface_name t = matches_class is_iface_char 15 t

abbrev is_static : InterfaceMethod → Bool
is_static static = true
is_static dhcp = false

abbrev is_none : {A : Type 0} → Option A → Bool
is_none none = true
is_none (some a) = false

-- `address_required_for_static`, which pydantic runs on a value that the request has; a field that is
-- left out is not checked. `has_address` says whether the request has the field, be it `null`.
unfoldable pub valid_network_config : Bool → NetworkConfig → Bool
unfolding valid_interface_name
valid_network_config has_address r =
    valid_interface_name r.interface && not (has_address && is_static r.method && is_none r.address)

unfoldable pub valid_wifi_connect : WifiConnect → Bool
valid_wifi_connect r =
    (leb 1 (length r.ssid) && leb (length r.ssid) 32)
    && if_given (λ psk. leb 8 (length psk) && leb (length psk) 63) r.psk
    && if_given (λ name. leb 1 (length name) && leb (length name) 64) r.connection_name

unfoldable pub valid_table : Option ℕ → Bool
valid_table table = if_given (λ t. leb 1 t && leb t 252) table

unfoldable pub valid_route : RouteRequest → Bool
unfolding valid_interface_name valid_table
valid_route r = valid_interface_name r.interface && valid_table r.table

unfoldable pub valid_route_delete : RouteDeleteRequest → Bool
unfolding valid_interface_name valid_table
valid_route_delete r = valid_interface_name r.interface && valid_table r.table

unfoldable pub valid_tunnel_create : TunnelCreate → Bool
unfolding matches_class is_host_char
valid_tunnel_create r =
    is_tunnel_name r.name
    && (leb 1024 r.listen_port && leb r.listen_port 65535)
    && if_given (λ e. matches_class is_host_char 255 e) r.endpoint

unfoldable pub valid_peer_create : PeerCreate → Bool
unfolding matches_class is_description_char
valid_peer_create r =
    matches_class is_description_char 64 r.description
    && not (is_nil r.allowed_ips)
    && if_given (λ k. leb k 3600) r.keepalive

unfoldable pub valid_tunnel_state : TunnelState → Bool
valid_tunnel_state r =
    any (λ a. text_eq a r.action) (codes "activate" ∷ codes "deactivate" ∷ codes "disconnect" ∷ [])
