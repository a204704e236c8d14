-- ===== src/Wireguard/Conflicts.antt =====
-- `_overlapping_local_subnets` and the overlap check of `create_tunnel`.
use mathlib.Core.List.{Memᴰ}
use keekars_pi_vpn.Base.{
  ℕ, Bool, true, false, not, ◌≡◌, ◌≤◌, ◌==◌, ◌↔◌, refl, sym, ap, ◌∙◌, Option, none, some, List, [],
  ◌∷◌, ◌++◌, Result, ok, err, Bool-cases, inl, inr, ◌⊎◌, arith, if◌then◌else◌, All,
}
use keekars_pi_vpn.Base.Text.{Text}
use keekars_pi_vpn.Base.Dict.{Dict}
use keekars_pi_vpn.Ip.{
  Interface, AnyInterface, v4, v6, ip_interface, IsInterface, Network, AnyNetwork, net4, network,
  network_of, any_network, network6, has_address, overlaps, overlaps_any,
}
use keekars_pi_vpn.Ip.Bounds.{parse_interface-IsInterface, ip_interface-v4}
use keekars_pi_vpn.Ip.Overlap.{IsNetwork, overlaps_iff, network_of-IsNetwork}
use keekars_pi_vpn.WebApp.{HttpError, http, overlapping, IfAddr, Site, App}
use keekars_pi_vpn.Wireguard.Subnets.{
  read_network, masked_network, local_network, conflicts_with, address_conflicts,
  overlapping_local_subnets,
}
use keekars_pi_vpn.Wireguard.Tunnels.{TunnelCreate, create_tunnel, check_overlap, unless}

abbrev pub ClearOf : Option AnyNetwork → AnyNetwork → Type 0
ClearOf none c = Unit
ClearOf (some l) c = overlaps_any c l ≡ false

-- No network of this device overlaps one of `candidates`.
abbrev pub IsClear : List AnyNetwork → Dict (List IfAddr) → Type 0
IsClear candidates locals =
    All (λ entry. All (λ a. All (ClearOf (local_network a)) candidates) entry.1) locals

append_nil : {A : Type 0} (xs ys : List A) → xs ++ ys ≡ [] → (xs ≡ []) × (ys ≡ [])
append_nil [] ys h = (refl, h)
append_nil (x ∷ xs) ys h = ground arith

conflicts_with-nil :
    (iface : Text) (local : AnyNetwork) (cs : List AnyNetwork)
    → conflicts_with iface local cs ≡ []
    → All (ClearOf (some local)) cs
unfolding conflicts_with
conflicts_with-nil iface local [] h = tt
conflicts_with-nil iface local (c ∷ cs) h = elim (Bool-cases (overlaps_any c local)) [
  | inl e ↦ ground arith
  | inr e ↦ (e, conflicts_with-nil iface local cs (ground arith))
]

nil-conflicts_with :
    (iface : Text) (local : AnyNetwork) (cs : List AnyNetwork)
    → All (ClearOf (some local)) cs
    → conflicts_with iface local cs ≡ []
unfolding conflicts_with
nil-conflicts_with iface local [] h = refl
nil-conflicts_with iface local (c ∷ cs) (e, h) = rw e (nil-conflicts_with iface local cs h)

All-Unit : (cs : List AnyNetwork) → All (ClearOf none) cs
All-Unit [] = tt
All-Unit (c ∷ cs) = (tt, All-Unit cs)

address_conflicts-nil :
    (iface : Text) (addrs : List IfAddr) (cs : List AnyNetwork)
    → (address_conflicts iface addrs cs ≡ []) ↔ All (λ a. All (ClearOf (local_network a)) cs) addrs
unfolding address_conflicts
address_conflicts-nil iface [] cs = (λ _. tt, λ _. refl)
address_conflicts-nil iface (a ∷ addrs) cs =
    go (local_network a) (address_conflicts-nil iface addrs cs)
  where
    go :
        (o : Option AnyNetwork)
        → (address_conflicts iface addrs cs ≡ [])
          ↔ All (λ a. All (ClearOf (local_network a)) cs) addrs
        → (elim o [
          | none ↦ address_conflicts iface addrs cs
          | some local ↦ conflicts_with iface local cs ++ address_conflicts iface addrs cs
        ]
            ≡ [])
          ↔ (All (ClearOf o) cs × All (λ a. All (ClearOf (local_network a)) cs) addrs)
    go none ih = (λ h. (All-Unit cs, ih.0 h), λ h. ih.1 h.1)
    go (some l) ih = (
      λ h. (let (x, y) = append_nil _ _ h in (conflicts_with-nil iface l cs x, ih.0 y)),
      λ h. rw (nil-conflicts_with iface l cs h.0) (ih.1 h.1),
    )

-- `_overlapping_local_subnets` finds nothing exactly when no network that it reads from the
-- device's interfaces overlaps a candidate.
pub overlapping_local_subnets_iff :
    (locals : Dict (List IfAddr)) (candidates : List AnyNetwork)
    → (overlapping_local_subnets locals candidates ≡ []) ↔ IsClear candidates locals
unfolding overlapping_local_subnets
overlapping_local_subnets_iff [] cs = (λ _. tt, λ _. refl)
overlapping_local_subnets_iff ((iface, addrs) ∷ rest) cs =
    let here = address_conflicts-nil iface addrs cs in
    let later = overlapping_local_subnets_iff rest cs in
    (
      λ h. (let (x, y) = append_nil _ _ h in (here.0 x, later.0 y)),
      λ h. rw (here.1 h.0) (later.1 h.1),
    )

true-not-false : true ≡ false → ⊥
true-not-false h = ground arith

err-not-ok : {A : Type 0} {e : HttpError} {v : A} → Path (Result HttpError A) (err e) (ok v) → ⊥
err-not-ok h = ground arith

All-In : {A : Type 0} (P : A → Type 0) (xs : List A) {x : A} → All P xs → Memᴰ x xs → P x
All-In P [] all m = elim m [ ]
All-In P (y ∷ ys) all (Memᴰ.head e) = rw e all.0
All-In P (y ∷ ys) all (Memᴰ.tail m) = All-In P ys all.1 m

list_cases : {A : Type 0} (xs : List A) → (xs ≡ []) ⊎ ((x : A) × (rest : List A) × (xs ≡ x ∷ rest))
list_cases [] = inl refl
list_cases (x ∷ xs) = inr (x, xs, refl)

pub read-IsNetwork :
    (o : Option AnyInterface) (l : Network)
    → ((i : Interface) → o ≡ some (v4 i) → i.prefixlen ≤ 32)
    → read_network o ≡ some (net4 l)
    → IsNetwork l
unfolding any_network network6
read-IsNetwork none l short h = ground arith
read-IsNetwork (some (v4 i)) l short h =
    let same : network_of i.ip i.prefixlen ≡ l = cc h in
    rw (← same) (network_of-IsNetwork i.ip i.prefixlen (short i refl))
read-IsNetwork (some (v6 a n)) l short h = ground arith

local_network-read :
    (a : IfAddr) (l : Network)
    → local_network a ≡ some (net4 l)
    → (netmask : Text) × (read_network (ip_interface (a.address ++ (b'/' ∷ netmask)))
        ≡ some (net4 l))
unfolding local_network
local_network-read a l h = masked_read (a.family == 2) a.netmask h
  where
    masked_read :
        (inet : Bool) (o : Option Text)
        → (if not inet then none else masked_network a.address o) ≡ some (net4 l)
        → (netmask : Text) × (read_network (ip_interface (a.address ++ (b'/' ∷ netmask)))
            ≡ some (net4 l))
    masked_read false o e = ground arith
    masked_read true none e = ground arith
    masked_read true (some []) e = ground arith
    masked_read true (some (c ∷ cs)) e = (c ∷ cs, e)

-- A network that `local_network` reads is one as `ipaddress` builds it.
local_network-IsNetwork : (a : IfAddr) (l : Network) → local_network a ≡ some (net4 l) → IsNetwork l
local_network-IsNetwork a l h =
    let (netmask, read) = local_network-read a l h in
    read-IsNetwork (ip_interface (a.address ++ (b'/' ∷ netmask))) l
      (λ i e. (parse_interface-IsInterface _ i (ip_interface-v4 _ i e)).prefixlen_bound) read

pub network-IsNetwork : (i : Interface) → IsInterface i → IsNetwork (network i)
unfolding network
network-IsNetwork i wf = network_of-IsNetwork i.ip i.prefixlen wf.prefixlen_bound

clear_one : (n l : Network) → All (ClearOf (some (net4 l))) (net4 n ∷ []) → overlaps n l ≡ false
unfolding overlaps_any
clear_one n l h = h.0

disjoint :
    (n l : Network) (x : ℕ)
    → IsNetwork n
    → IsNetwork l
    → overlaps n l ≡ false
    → has_address n x ≡ true
    → has_address l x ≡ false
disjoint n l x wn wl apart hn = elim (Bool-cases (has_address l x)) [
  | inl e ↦ absurd (true-not-false (sym ((overlaps_iff n l wn wl).1 (x, hn, e)) ∙ apart))
  | inr e ↦ e
]

-- An address that is in a candidate and in a network of this device is found.
pub clash_found :
    (locals : Dict (List IfAddr)) (candidates : List AnyNetwork) (n l : Network) (iface : Text)
    (addrs : List IfAddr) (addr : IfAddr) (x : ℕ)
    → IsNetwork n
    → Memᴰ (net4 n) candidates
    → Memᴰ (iface, addrs) locals
    → Memᴰ addr addrs
    → local_network addr ≡ some (net4 l)
    → has_address n x ≡ true
    → has_address l x ≡ true
    → (c : Text) × (cs : List Text) × (overlapping_local_subnets locals candidates ≡ c ∷ cs)
unfolding overlaps_any
clash_found locals candidates n l iface addrs addr x wn in_candidates in_locals in_addrs read hn
      hl =
    elim (list_cases (overlapping_local_subnets locals candidates)) [
      | inl e ↦
          let clear =
            All-In _ addrs (All-In _ locals ((overlapping_local_subnets_iff _ _).0 e) in_locals)
              in_addrs in
          let apart =
            All-In (ClearOf (some (net4 l))) candidates (rw read at clear) in_candidates in
          let other = disjoint n l x wn (local_network-IsNetwork addr l read) apart hn in
          absurd (true-not-false (sym hl ∙ other))
      | inr there ↦ there
    ]

module _ {World : Type 0} (site : Site World) (payload : TunnelCreate) (a : App World) where
  abbrev found : List Text
  found =
      overlapping_local_subnets (site.net_if_addrs a.host.outside)
        (net4 (network payload.address) ∷ [])

  create_tunnel_clash :
      (c : Text) (cs : List Text)
      → payload.force ≡ false
      → found ≡ c ∷ cs
      → create_tunnel site payload a ≡ (err (http 409 (overlapping (c ∷ cs))), a)
  unfolding create_tunnel unless check_overlap
  create_tunnel_clash c cs force e = rw force (rw e refl)

  create_tunnel-IsClear :
      (key : Text)
      → payload.force ≡ false
      → (create_tunnel site payload a).0 ≡ ok key
      → IsClear (net4 (network payload.address) ∷ []) (site.net_if_addrs a.host.outside)
  create_tunnel-IsClear key force h = elim (list_cases found) [
    | inl e ↦ (overlapping_local_subnets_iff _ _).0 e
    | inr (c, cs, e) ↦
        absurd (err-not-ok (sym (ap (λ r. r.0) (create_tunnel_clash c cs force e)) ∙ h))
  ]

  -- Where `create_tunnel` for a valid IPv4 address succeeds without `force`, no address is in the
  -- tunnel's network and also in an IPv4 network that the overlap check reads from the device's
  -- interfaces.
  pub create_tunnel_disjoint :
      (key iface : Text) (addrs : List IfAddr) (addr : IfAddr) (l : Network) (x : ℕ)
      → IsInterface payload.address
      → payload.force ≡ false
      → (create_tunnel site payload a).0 ≡ ok key
      → Memᴰ (iface, addrs) (site.net_if_addrs a.host.outside)
      → Memᴰ addr addrs
      → local_network addr ≡ some (net4 l)
      → has_address (network payload.address) x ≡ true
      → has_address l x ≡ false
  create_tunnel_disjoint key iface addrs addr l x wf force h in_locals in_addrs read hx =
      let clear =
        All-In _ addrs
          (All-In _ (site.net_if_addrs a.host.outside) (create_tunnel-IsClear key force h)
            in_locals)
          in_addrs in
      let apart = clear_one (network payload.address) l (rw read at clear) in
      disjoint (network payload.address) l x (network-IsNetwork payload.address wf)
        (local_network-IsNetwork addr l read) apart hx
