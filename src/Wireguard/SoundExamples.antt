-- ===== src/Wireguard/SoundExamples.antt =====
-- A given site, and the theorems on addresses and on the invariant at it.
use keekars_pi_vpn.Base.{
  ℕ, ◌≡◌, ◌<◌, ◌+◌, ◌⊎◌, refl, Bool, if◌then◌else◌, true, false, none, some, List, [], ◌∷◌, ok, err,
  arith, length,
}
use keekars_pi_vpn.Base.Text.{Text, codes, text_eq, text_operations}
use keekars_pi_vpn.Base.Dict.{Dict, lookup}
use keekars_pi_vpn.Ip.{
  Interface, IsInterface, network, network_of, has_address, host_count, first_host, parse_interface,
}
use keekars_pi_vpn.Helper.Host.{Tools, stored}
use keekars_pi_vpn.Wireguard.Metadata.{tunnels_in}
use keekars_pi_vpn.WebApp.{http, no_free_address, Peer, TunnelMeta, holds, IfAddr, Site, App}
use keekars_pi_vpn.Wireguard.Allocate.{allocate_peer_address, host_text, peer_ips}
use keekars_pi_vpn.Wireguard.AllocateLaws.{
  IsReadable, IsFirstFree, AllUsed, allocate_peer_address_cases, allocate_peer_address_available,
}
use keekars_pi_vpn.Wireguard.Fits.{IsTunnel}
use keekars_pi_vpn.Wireguard.Tunnels.{TunnelCreate}
use keekars_pi_vpn.Wireguard.Peers.{PeerCreate, create_peer}
use keekars_pi_vpn.Wireguard.Sound.{IsSound}
use keekars_pi_vpn.Wireguard.Invariant.{create_peer-IsSound}

abbrev pub key_a : Text
key_a = codes "aaaaaaaaaaaaaaaaaaaaaaaaaaaaaaaaaaaaaaaaaaA="

abbrev pub key_b : Text
key_b = codes "bbbbbbbbbbbbbbbbbbbbbbbbbbbbbbbbbbbbbbbbbbA="

-- A machine on which every program prints a key.
abbrev pub machine : Tools (Unit {0})
machine = record {
  run = λ _ _ w. (some (record { returncode = 0; stdout = key_b; stderr = [] }), w);
  interface_up = λ _ _. true;
  write = λ _ _ _. stored;
  psk_file = λ _. codes "psk-1";
}

abbrev pub lan : List IfAddr
lan =
    record { family = 2; address = codes "192.168.1.5"; netmask = some (codes "255.255.255.0") }
    ∷ []

abbrev pub site : Site (Unit {0})
site = record {
  tools = machine;
  reachable = λ _. true;
  allowed_uid = some 1000;
  own_uid = 1000;
  net_if_addrs = λ _. (codes "eth0", lan) ∷ [];
  uuid4 = λ w. (codes "id-2", w);
  saves = λ _. true;
}

abbrev phone : Peer
phone = record {
  id = codes "id-1";
  description = codes "phone";
  tunnel_address = codes "10.8.0.2/32";
  allowed_ips = codes "10.8.0.0/24" ∷ [];
  public_key = key_b;
  created_by = none;
}

abbrev pub tunnel : TunnelMeta
tunnel = record {
  address = codes "10.8.0.1/24";
  endpoint = none;
  listen_port = 51820;
  peers = phone ∷ [];
}

abbrev pub server : Interface
server = record { ip = 168296449; prefixlen = 24 }

abbrev pub metadata : Dict TunnelMeta
metadata = (codes "wg0", tunnel) ∷ []

abbrev pub app : App (Unit {0})
app = record {
  host = record {
    conf_files = (codes "wg0.conf", codes "[Interface]\nAddress = 10.8.0.1/24\n") ∷ [];
    run_files = [];
    outside = tt;
  };
  metadata = holds metadata;
}

tunnel-IsReadable : IsReadable tunnel server (168296450 ∷ [])
unfolding parse_interface peer_ips text_operations
tunnel-IsReadable = record { address_read = refl; peers_read = refl }

allocate_peer_address_cases_example :
    ((ip : ℕ) × (allocate_peer_address tunnel ≡ ok (host_text ip))
      × IsFirstFree
          (host_count (network server))
          (first_host (network server))
          (168296449 ∷ 168296450 ∷ [])
          ip)
    ⊎ ((allocate_peer_address tunnel ≡ err (http 409 no_free_address))
        × AllUsed
            (host_count (network server))
            (first_host (network server))
            (168296449 ∷ 168296450 ∷ []))
allocate_peer_address_cases_example =
    allocate_peer_address_cases tunnel server (168296450 ∷ []) tunnel-IsReadable

room : length tunnel.peers + 1 < host_count (network server)
unfolding host_count network network_of
room = omega arith

allocate_peer_address_available_example :
    (ip : ℕ) × (allocate_peer_address tunnel ≡ ok (host_text ip))
allocate_peer_address_available_example =
    allocate_peer_address_available tunnel server (168296450 ∷ []) tunnel-IsReadable room

some_tunnel : (t u : TunnelMeta) → some t ≡ some u → t ≡ u
some_tunnel t u e = cc e

tunnel-IsTunnel : IsTunnel tunnel
unfolding parse_interface text_operations has_address network network_of
tunnel-IsTunnel = record {
  iface = server;
  address_read = refl;
  bounded = record { ip_bound = omega arith; prefixlen_bound = omega arith };
  fits = (168296450, refl, refl, refl, tt);
}

pub app-IsSound : IsSound app
unfolding lookup tunnels_in
app-IsSound name t e = found (text_eq (codes "wg0") name) e
  where
    found : (b : Bool) → (if b then some tunnel else none) ≡ some t → IsTunnel t
    found true h = rw (← some_tunnel tunnel t h) tunnel-IsTunnel
    found false h = ground arith

abbrev pub office : TunnelCreate
office = record {
  name = codes "office";
  address = record { ip = 168361985; prefixlen = 24 };
  endpoint = some (codes "vpn.example");
  listen_port = 51821;
  force = false;
}

pub office-IsInterface : IsInterface office.address
office-IsInterface = record { ip_bound = omega arith; prefixlen_bound = omega arith }

abbrev pub laptop : PeerCreate
laptop = record {
  description = codes "laptop";
  allowed_ips = network server ∷ [];
  preshared_key = true;
  keepalive = some 25;
}

create_peer-IsSound_example :
    IsSound (create_peer site (some (codes "sub-1")) (codes "wg0") laptop app).1
create_peer-IsSound_example =
    create_peer-IsSound site (some (codes "sub-1")) (codes "wg0") laptop app app-IsSound
