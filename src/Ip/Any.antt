-- ===== src/Ip/Any.antt =====
-- `ip_interface` and `ip_network`, which read either version, and an integer as well as a text.
use keekars_pi_vpn.Base.{
  ℕ, ◌+◌, ◌||◌, ◌-◌, ◌*◌, ◌/◌, ◌^◌, Bool, false, Option, none, some, List, [], ◌∷◌, ◌++◌, ltb, ◌==◌,
  if◌then◌else◌,
}
use keekars_pi_vpn.Base.Maybe.{◌>>=◌, when_none}
use keekars_pi_vpn.Base.Text.{Text, split, decimal}
use keekars_pi_vpn.Ip.V4.{
  Interface, Network, network_of, overlaps, parse_interface, print_interface, print_network,
}
use keekars_pi_vpn.Ip.V6.{Address6, parse_v6, prefix_v6, print_v6}

pub data AnyInterface : Type 0 where
  v4 : Interface → AnyInterface
  v6 : Address6 → ℕ → AnyInterface

pub data AnyNetwork : Type 0 where
  net4 : Network → AnyNetwork
  net6 : Address6 → ℕ → AnyNetwork

unfoldable pub interface6 : List Text → Option AnyInterface
unfolding parse_v6 prefix_v6
interface6 (a ∷ []) = do addr ← parse_v6 a; some (v6 addr 128)
interface6 (a ∷ p ∷ []) = do addr ← parse_v6 a; n ← prefix_v6 p; some (v6 addr n)
interface6 _ = none

-- `ip_interface(text)`
unfoldable pub ip_interface : Text → Option AnyInterface
unfolding parse_interface interface6
ip_interface t = when_none (do i ← parse_interface t; some (v4 i)) (interface6 (split b'/' t))

-- `ip_interface(n)` of a non-negative integer
unfoldable pub ip_interface_of_int : ℕ → Option AnyInterface
ip_interface_of_int n =
    if ltb n (2 ^ 32)
    then some (v4 (record { ip = n; prefixlen = 32 }))
    else if ltb n (2 ^ 128)
    then some (v6 (record { value = n; scope = none }) 128)
    else none

-- Clearing the host bits makes a new address, which has no scope id.
unfoldable pub network6 : Address6 → ℕ → AnyNetwork
network6 a n =
    let size = 2 ^ (128 - n) in
    let masked = a.value / size * size in
    if masked == a.value then net6 a n else net6 (record { value = masked; scope = none }) n

unfoldable pub any_network : AnyInterface → AnyNetwork
unfolding network_of network6
any_network (v4 i) = net4 (network_of i.ip i.prefixlen)
any_network (v6 a n) = network6 a n

-- `ip_network(text, strict=False)`: reads as an interface, and clears the host bits.
unfoldable pub ip_network : Text → Option AnyNetwork
unfolding any_network
ip_network t = do i ← ip_interface t; some (any_network i)

unfoldable pub ip_network_of_int : ℕ → Option AnyNetwork
unfolding ip_interface_of_int any_network
ip_network_of_int n = do i ← ip_interface_of_int n; some (any_network i)

unfoldable pub print_any_interface : AnyInterface → Text
unfolding print_interface print_v6
print_any_interface (v4 i) = print_interface i
print_any_interface (v6 a n) = print_v6 a ++ (b'/' ∷ decimal n)

unfoldable pub print_any_network : AnyNetwork → Text
unfolding print_network print_v6
print_any_network (net4 n) = print_network n
print_any_network (net6 a n) = print_v6 a ++ (b'/' ∷ decimal n)

has_address6 : ℕ → ℕ → ℕ → Bool
has_address6 size base ip = ip / size * size == base

-- The same four tests on IPv6 networks; scope ids are not compared.
overlaps6 : ℕ → ℕ → ℕ → ℕ → Bool
unfolding has_address6
overlaps6 a n b m =
    let size_a = 2 ^ (128 - n) in
    let size_b = 2 ^ (128 - m) in
    has_address6 size_b b a
    || has_address6 size_b b (a + (size_a - 1))
    || has_address6 size_a a b
    || has_address6 size_a a (b + (size_b - 1))

-- `candidate.overlaps(local)`: networks of two versions never overlap.
unfoldable pub overlaps_any : AnyNetwork → AnyNetwork → Bool
unfolding overlaps6
overlaps_any (net4 n) (net4 m) = overlaps n m
overlaps_any (net6 a n) (net6 b m) = overlaps6 a.value n b.value m
overlaps_any _ _ = false
