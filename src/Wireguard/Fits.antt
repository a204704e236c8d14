-- ===== src/Wireguard/Fits.antt =====
-- Tunnels whose peers have addresses of their own.
use native.Mathlib.Nat.{div-eq_of_lt-le, mul_comm, div-lt_iff_lt-mul, mul-le-mul_right, sub-zero}
use keekars_pi_vpn.Base.{
  ℕ, ◌+◌, ◌*◌, ◌/◌, ◌^◌, ◌≤◌, ◌<◌, ◌≡◌, refl, sym, ap, ◌∙◌, Bool, true, false, some, List, [], ◌∷◌,
  ◌++◌, ==_iff, arith, elem, ok, err, Bool-cases, inl, inr, filter,
}
use keekars_pi_vpn.Base.Text.{Text, decimal}
use keekars_pi_vpn.Ip.{
  Interface, IsInterface, Network, network, network_of, mask, block_size, first_host, host_count,
  has_address, parse_interface, print_v4, print_interface,
}
use keekars_pi_vpn.Ip.Overlap.{block_size_pos, block_size-split}
use keekars_pi_vpn.Ip.Print.{parse-print_interface}
use keekars_pi_vpn.WebApp.{HttpError, Peer, TunnelMeta}
use keekars_pi_vpn.Wireguard.Allocate.{peer_ips, host_text, allocate_peer_address}
use keekars_pi_vpn.Wireguard.AllocateLaws.{allocate_peer_address_cases}

-- The peers' tunnel addresses can be read, lie in the network, and are no two the same, nor any in
-- `used`.
abbrev pub Fits : Network → List ℕ → List Peer → Type 0
Fits net used [] = Unit
Fits net used (p ∷ ps) =
    (x : ℕ) × (parse_interface p.tunnel_address ≡ some (record { ip = x; prefixlen = 32 }))
    × (has_address net x ≡ true)
    × (elem x used ≡ false)
    × Fits net (x ∷ used) ps

-- A tunnel with an IPv4 address, whose peers' addresses are in its network, differ from its own and
-- from each other.
pub record IsTunnel (t : TunnelMeta) : Type 0 where
  pub iface : Interface
  pub address_read : parse_interface t.address ≡ some iface
  pub bounded : IsInterface iface
  pub fits : Fits (network iface) (iface.ip ∷ []) t.peers

Fits-ips :
    (net : Network) (used : List ℕ) (ps : List Peer)
    → Fits net used ps
    → (ips : List ℕ) × (peer_ips ps ≡ ok ips)
unfolding peer_ips
Fits-ips net used [] f = ([], refl)
Fits-ips net used (p ∷ ps) (x, read, _, _, rest) =
    let (ips, e) = Fits-ips net (x ∷ used) ps rest in (x ∷ ips, rw (read, e))

elem-tail : (x : ℕ) (used : List ℕ) (z : ℕ) → elem z (x ∷ used) ≡ false → elem z used ≡ false
unfolding elem
elem-tail x used z h = ground arith

Fits-append :
    (net : Network) (used : List ℕ) (ps : List Peer) (ips : List ℕ) (p : Peer) (x : ℕ)
    → Fits net used ps
    → peer_ips ps ≡ ok ips
    → parse_interface p.tunnel_address ≡ some (record { ip = x; prefixlen = 32 })
    → has_address net x ≡ true
    → elem x used ≡ false
    → elem x ips ≡ false
    → Fits net used (ps ++ p ∷ [])
Fits-append net used [] ips p x f e read inside new other = (x, read, inside, new, tt)
Fits-append net used (q ∷ ps) ips p x (y, ry, iy, ny, rest) e read inside new other =
    let (ys, ey) = Fits-ips net (y ∷ used) ps rest in
    let whole : peer_ips (q ∷ ps) ≡ ok (y ∷ ys) = unfold peer_ips in rw (ry, ey) in
    let same : y ∷ ys ≡ ips = cc (whole, e) in
    let other' : elem x (y ∷ ys) ≡ false = rw same other in
    let a : elem x (y ∷ used) ≡ false = unfold elem in ground arith in
    let b : elem x ys ≡ false = elem-tail y ys x other' in
    (y, ry, iy, ny, Fits-append net (y ∷ used) ps ys p x rest ey read inside a b)

elem-weaken :
    (x : ℕ) (used fewer : List ℕ)
    → ((z : ℕ) → elem z used ≡ false → elem z fewer ≡ false)
    → (z : ℕ) → elem z (x ∷ used) ≡ false
    → elem z (x ∷ fewer) ≡ false
unfolding elem
elem-weaken x used fewer sub z h = ground (arith, sub z)

elem-both :
    (x y : ℕ) (ys : List ℕ)
    → elem x (y ∷ ys) ≡ false
    → (elem x (y ∷ []) ≡ false) × (elem x ys ≡ false)
unfolding elem
elem-both x y ys h = (ground arith, ground arith)

ok-not-err : {v : Text} {e : HttpError} → ok v ≡ err e → ⊥
ok-not-err h = ground arith

Fits-weaken :
    (net : Network) (used fewer : List ℕ) (ps : List Peer)
    → ((z : ℕ) → elem z used ≡ false → elem z fewer ≡ false)
    → Fits net used ps
    → Fits net fewer ps
Fits-weaken net used fewer [] sub f = tt
Fits-weaken net used fewer (p ∷ ps) sub (x, read, inside, new, rest) = (
  x,
  read,
  inside,
  sub x new,
  Fits-weaken net (x ∷ used) (x ∷ fewer) ps (elem-weaken x used fewer sub) rest,
)

Fits-filter :
    (net : Network) (used : List ℕ) (q : Peer → Bool) (ps : List Peer)
    → Fits net used ps
    → Fits net used (filter q ps)
unfolding filter
Fits-filter net used q [] f = tt
Fits-filter net used q (p ∷ ps) (x, read, inside, new, rest) = elim (Bool-cases (q p)) [
  | inl e ↦ rw e (x, read, inside, new, Fits-filter net (x ∷ used) q ps rest)
  | inr e ↦
      rw e (Fits-filter net used q ps (Fits-weaken net (x ∷ used) used ps (elem-tail x used) rest))
]

module _ (i : Interface) (wf : IsInterface i) where
  block_end : mask (block_size i.prefixlen) i.ip + block_size i.prefixlen ≤ 2 ^ 32
  unfolding mask
  block_end =
      let s = block_size i.prefixlen in
      let split : block_size 0 ≡ s * 2 ^ i.prefixlen =
        block_size-split 0 i.prefixlen (omega arith) wf.prefixlen_bound
        ∙ ap (λ k. s * 2 ^ k) (sub-zero i.prefixlen) in
      let whole : 2 ^ 32 ≡ 2 ^ i.prefixlen * s = split ∙ mul_comm s (2 ^ i.prefixlen) in
      let below : i.ip / s < 2 ^ i.prefixlen =
        (div-lt_iff_lt-mul (block_size_pos i.prefixlen)).1 (rw (← whole) wf.ip_bound) in
      let grown : (i.ip / s + 1) * s ≤ 2 ^ i.prefixlen * s =
        mul-le-mul_right s (omega (arith, below)) in
      omega (arith, whole, grown)

  in_block :
      (x : ℕ)
      → mask (block_size i.prefixlen) i.ip ≤ x
      → x < mask (block_size i.prefixlen) i.ip + block_size i.prefixlen
      → has_address (network i) x ≡ true
  unfolding mask has_address network network_of
  in_block x lo hi =
      let s = block_size i.prefixlen in
      let same : x / s ≡ i.ip / s = div-eq_of_lt-le {k = i.ip / s} s lo (omega arith) in
      (==_iff _ _).1 (ap (λ t. t * s) same)

  hosts_in_block :
      (x : ℕ)
      → first_host (network i) ≤ x
      → x < first_host (network i) + host_count (network i)
      → (mask (block_size i.prefixlen) i.ip ≤ x)
        × (x < mask (block_size i.prefixlen) i.ip + block_size i.prefixlen)
  unfolding first_host host_count network network_of
  hosts_in_block x lo hi = ground arith

  -- A host address of the network is one of its addresses, and has 32 bits.
  host_in_network :
      (x : ℕ)
      → first_host (network i) ≤ x
      → x < first_host (network i) + host_count (network i)
      → (has_address (network i) x ≡ true) × (x < 2 ^ 32)
  host_in_network x lo hi =
      let (from, below) = hosts_in_block x lo hi in
      (in_block x from below, omega (arith, block_end))

pub read-host_text :
    (x : ℕ) → x < 2 ^ 32 → parse_interface (host_text x) ≡ some (record { ip = x; prefixlen = 32 })
unfolding host_text print_v4 print_interface decimal
read-host_text x h =
    parse-print_interface (record { ip = x; prefixlen = 32 })
      (record { ip_bound = h; prefixlen_bound = omega arith })

-- The address that `allocate_peer_address` gives is the text of one with 32 bits.
pub allocated_host :
    (t : TunnelMeta) (address : Text)
    → IsTunnel t
    → allocate_peer_address t ≡ ok address
    → (x : ℕ) × (x < 2 ^ 32) × (address ≡ host_text x)
allocated_host t address wf e =
    let i = wf.iface in
    let (ips, read) = Fits-ips (network i) (i.ip ∷ []) t.peers wf.fits in
    elim (allocate_peer_address_cases t i ips
      (record { address_read = wf.address_read; peers_read = read })) [
        | inl (x, given, first) ↦
            (x, (host_in_network i wf.bounded x first.from first.below).1, cc (e, given))
        | inr (failed, _) ↦ absurd (ok-not-err (sym e ∙ failed))
      ]

-- A new peer with the address that `allocate_peer_address` gives keeps the tunnel as it should be.
pub allocate_peer_address-IsTunnel :
    (t : TunnelMeta) (address : Text) (p : Peer)
    → IsTunnel t
    → allocate_peer_address t ≡ ok address
    → p.tunnel_address ≡ address
    → IsTunnel (record t { peers = t.peers ++ p ∷ [] })
allocate_peer_address-IsTunnel t address p wf e same =
    let i = wf.iface in
    let (ips, read) = Fits-ips (network i) (i.ip ∷ []) t.peers wf.fits in
    elim (allocate_peer_address_cases t i ips
      (record { address_read = wf.address_read; peers_read = read })) [
        | inl (x, given, first) ↦
            let (inside, bits) = host_in_network i wf.bounded x first.from first.below in
            let text : p.tunnel_address ≡ host_text x = cc (e, given, same) in
            let (own, other) = elem-both x i.ip ips first.free in
            record {
              iface = i;
              address_read = wf.address_read;
              bounded = wf.bounded;
              fits =
                  Fits-append (network i) (i.ip ∷ []) t.peers ips p x wf.fits read
                    (rw text (read-host_text x bits)) inside own other;
            }
        | inr (failed, _) ↦ absurd (ok-not-err (sym e ∙ failed))
      ]

pub remove-IsTunnel :
    (t : TunnelMeta) (q : Peer → Bool)
    → IsTunnel t
    → IsTunnel (record t { peers = filter q t.peers })
remove-IsTunnel t q wf = record {
  iface = wf.iface;
  address_read = wf.address_read;
  bounded = wf.bounded;
  fits = Fits-filter (network wf.iface) (wf.iface.ip ∷ []) q t.peers wf.fits;
}
