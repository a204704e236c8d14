-- ===== src/Wireguard/Allocate.antt =====
-- `_allocate_peer_address`
use keekars_pi_vpn.Base.{
  ℕ, zero, suc, ◌+◌, not, Option, none, some, List, [], ◌∷◌, ◌++◌, if◌then◌else◌, elem, Result, ok,
  err,
}
use keekars_pi_vpn.Base.Text.{Text, codes}
use keekars_pi_vpn.Ip.{Interface, network, first_host, host_count, parse_interface, print_v4}
use keekars_pi_vpn.WebApp.{HttpError, http, unhandled, no_free_address, Peer, TunnelMeta}

-- The first of `count` addresses from `ip` on that is not used
unfoldable pub first_free : ℕ → ℕ → List ℕ → Option ℕ
first_free zero ip used = none
first_free (suc count) ip used =
    let later = first_free count (ip + 1) used in if not (elem ip used) then some ip else later

abbrev add_ip : Option Interface → Result HttpError (List ℕ) → Result HttpError (List ℕ)
add_ip none rest = err unhandled
add_ip (some i) (ok ips) = ok (i.ip ∷ ips)
add_ip (some i) (err e) = err e

-- The tunnel addresses of the peers; one that cannot be read raises.
unfoldable pub peer_ips : List Peer → Result HttpError (List ℕ)
peer_ips [] = ok []
peer_ips (p ∷ ps) = add_ip (parse_interface p.tunnel_address) (peer_ips ps)

-- `f"{host}/32"`
unfoldable pub host_text : ℕ → Text
host_text ip = print_v4 ip ++ codes "/32"

abbrev free_or_conflict : Option ℕ → Result HttpError Text
free_or_conflict none = err (http 409 no_free_address)
free_or_conflict (some ip) = ok (host_text ip)

abbrev allocate_in : Interface → Result HttpError (List ℕ) → Result HttpError Text
allocate_in i (err e) = err e
allocate_in i (ok ips) =
    free_or_conflict (first_free (host_count (network i)) (first_host (network i)) (i.ip ∷ ips))

abbrev allocate_from : Option Interface → List Peer → Result HttpError Text
allocate_from none peers = err unhandled
allocate_from (some i) peers = allocate_in i (peer_ips peers)

unfoldable pub allocate_peer_address : TunnelMeta → Result HttpError Text
allocate_peer_address t = allocate_from (parse_interface t.address) t.peers
