-- ===== src/Wireguard/AllocateLaws.antt =====
-- Which address `_allocate_peer_address` gives.
use keekars_pi_vpn.Base.{
  ℕ, zero, suc, ◌+◌, ◌≤◌, ◌<◌, ◌≡◌, refl, sym, ◌∙◌, true, false, Option, none, some, List, [], ◌∷◌,
  ◌==◌, ==_iff, if◌then◌else◌, arith, elem, ok, err, length, Bool-cases, Option-cases, inl, inr,
  ◌⊎◌,
}
use keekars_pi_vpn.Ip.{Interface, network, first_host, host_count, parse_interface}
use keekars_pi_vpn.WebApp.{http, no_free_address, Peer, TunnelMeta}
use keekars_pi_vpn.Wireguard.Allocate.{first_free, peer_ips, host_text, allocate_peer_address}

-- `found` is the first of `count` addresses from `ip` on that is not used.
pub record IsFirstFree (count ip : ℕ) (used : List ℕ) (found : ℕ) : Type 0 where
  pub from : ip ≤ found
  pub below : found < ip + count
  pub free : elem found used ≡ false
  pub before : (x : ℕ) → ip ≤ x → x < found → elem x used ≡ true

first_free-used :
    (count ip : ℕ) (used : List ℕ)
    → elem ip used ≡ true
    → first_free (suc count) ip used ≡ first_free count (ip + 1) used
unfolding first_free
first_free-used count ip used e = ground arith

first_free-unused :
    (count ip : ℕ) (used : List ℕ) (found : ℕ)
    → elem ip used ≡ false
    → first_free (suc count) ip used ≡ some found
    → ip ≡ found
unfolding first_free
first_free-unused count ip used found e h = ground arith

pub first_free-IsFirstFree :
    (count ip : ℕ) (used : List ℕ) (found : ℕ)
    → first_free count ip used ≡ some found
    → IsFirstFree count ip used found
first_free-IsFirstFree zero ip used found h = unfold first_free in cc
first_free-IsFirstFree (suc count) ip used found h = elim (Bool-cases (elem ip used)) [
  | inl e ↦
      let later : IsFirstFree count (ip + 1) used found =
        first_free-IsFirstFree count (ip + 1) used found
          (sym (first_free-used count ip used e) ∙ h) in
      record {
        from = omega arith;
        below = omega arith;
        free = later.free;
        before = λ x lo hi. elim (Bool-cases (x == ip)) [
          | inl same ↦ rw ((==_iff x ip).0 same) e
          | inr other ↦ later.before x (ground arith) hi
        ];
      }
  | inr e ↦
      let here : ip ≡ found = first_free-unused count ip used found e h in
      record {
        from = omega arith;
        below = omega arith;
        free = rw (← here) e;
        before = λ x lo hi. absurd (omega arith);
      }
]

first_free-none_used :
    (count ip : ℕ) (used : List ℕ) → first_free (suc count) ip used ≡ none → elem ip used ≡ true
unfolding first_free
first_free-none_used count ip used h = ground arith

-- Every address in the range is in use.
abbrev pub AllUsed : ℕ → ℕ → List ℕ → Type 0
AllUsed count ip used = (x : ℕ) → ip ≤ x → x < ip + count → elem x used ≡ true

pub first_free-none :
    (count ip : ℕ) (used : List ℕ) → first_free count ip used ≡ none → AllUsed count ip used
first_free-none zero ip used h x lo hi = absurd (omega arith)
first_free-none (suc count) ip used h x lo hi =
    let e = first_free-none_used count ip used h in
    elim (Bool-cases (x == ip)) [
      | inl same ↦ rw ((==_iff x ip).0 same) e
      | inr other ↦
          first_free-none count (ip + 1) used (sym (first_free-used count ip used e) ∙ h) x
            (ground arith) (omega arith)
    ]

without : ℕ → List ℕ → List ℕ
without x [] = []
without x (y ∷ ys) = let rest = without x ys in if x == y then ys else y ∷ rest

elem-without : (x z : ℕ) (ys : List ℕ) → (z == x) ≡ false → elem z (without x ys) ≡ elem z ys
unfolding without elem
elem-without x z [] h = refl
elem-without x z (y ∷ ys) h = ground (arith, elem-without x z ys)

length-without : (x : ℕ) (ys : List ℕ) → elem x ys ≡ true → length ys ≡ suc (length (without x ys))
unfolding without elem
length-without x [] h = ground arith
length-without x (y ∷ ys) h = ground (arith, length-without x ys)

-- A range whose addresses are all in use is no longer than the list of those in use.
AllUsed-le-length : (count ip : ℕ) (used : List ℕ) → AllUsed count ip used → count ≤ length used
AllUsed-le-length zero ip used h = omega arith
AllUsed-le-length (suc count) ip used h =
    let here = h ip (omega arith) (omega arith) in
    let shorter =
      AllUsed-le-length count (ip + 1) (without ip used)
        (λ x lo hi. rw (elem-without ip x used (ground arith)) (h x (omega arith) (omega arith))) in
    omega (arith, length-without ip used here, shorter)

first_free-some :
    (count ip : ℕ) (used : List ℕ)
    → length used < count
    → (found : ℕ) × (first_free count ip used ≡ some found)
first_free-some count ip used h = elim (Option-cases (first_free count ip used)) [
  | inl e ↦
      absurd (omega (arith, AllUsed-le-length count ip used (first_free-none count ip used e)))
  | inr e ↦ e
]

length-peer_ips : (ps : List Peer) (ips : List ℕ) → peer_ips ps ≡ ok ips → length ips ≡ length ps
unfolding peer_ips
length-peer_ips [] ips h = ground arith
length-peer_ips (p ∷ ps) [] h = ground arith
length-peer_ips (p ∷ ps) (x ∷ ips) h = ground (arith, length-peer_ips ps ips)

-- Where the addresses of a tunnel and its peers can be read: the interface, and the peers' addresses.
pub record IsReadable (t : TunnelMeta) (i : Interface) (ips : List ℕ) : Type 0 where
  pub address_read : parse_interface t.address ≡ some i
  pub peers_read : peer_ips t.peers ≡ ok ips

module _ (t : TunnelMeta) (i : Interface) (ips : List ℕ) (r : IsReadable t i ips) where
  allocate_peer_address_lem :
      (o : Option ℕ)
      → first_free (host_count (network i)) (first_host (network i)) (i.ip ∷ ips) ≡ o
      → allocate_peer_address t
        ≡ elim o [ none ↦ err (http 409 no_free_address) | some ip ↦ ok (host_text ip) ]
  unfolding allocate_peer_address
  allocate_peer_address_lem none e = rw r.address_read (rw r.peers_read (rw e))
  allocate_peer_address_lem (some ip) e = rw r.address_read (rw r.peers_read (rw e))

  -- For a tunnel whose address and peers' addresses can be read: the address given out is the
  -- first host address of the tunnel's network that neither the tunnel nor a peer has; or the
  -- request fails with status 409, and then every host address is in use.
  pub allocate_peer_address_cases :
      ((ip : ℕ) × (allocate_peer_address t ≡ ok (host_text ip))
        × IsFirstFree (host_count (network i)) (first_host (network i)) (i.ip ∷ ips) ip)
      ⊎ ((allocate_peer_address t ≡ err (http 409 no_free_address))
          × AllUsed (host_count (network i)) (first_host (network i)) (i.ip ∷ ips))
  allocate_peer_address_cases =
      elim (Option-cases
        (first_free (host_count (network i)) (first_host (network i)) (i.ip ∷ ips))) [
          | inl e ↦ inr (allocate_peer_address_lem none e, first_free-none _ _ _ e)
          | inr (ip, e) ↦
              inl (ip, allocate_peer_address_lem (some ip) e, first_free-IsFirstFree _ _ _ ip e)
        ]

  -- For a tunnel whose address and peers' addresses can be read, an address is found while the
  -- tunnel and its peers are fewer than the network's host addresses.
  pub allocate_peer_address_available :
      length t.peers + 1 < host_count (network i)
      → (ip : ℕ) × (allocate_peer_address t ≡ ok (host_text ip))
  allocate_peer_address_available room =
      let (ip, e) =
        first_free-some (host_count (network i)) (first_host (network i)) (i.ip ∷ ips)
          (omega (arith, length-peer_ips t.peers ips r.peers_read)) in
      (ip, allocate_peer_address_lem (some ip) e)
