-- ===== src/Ip/Bounds.antt =====
-- The numbers that `IPv4Interface` reads.
use keekars_pi_vpn.Base.{
  ℕ, ◌-◌, ◌^◌, ◌≤◌, ◌<◌, ◌≡◌, refl, Bool, Option, none, some, List, [], ◌∷◌, arith, if◌then◌else◌,
  ◌==◌, ◌/◌,
}
use keekars_pi_vpn.Base.Maybe.{◌>>=◌, when_none}
use keekars_pi_vpn.Base.Text.{Text, split}
use keekars_pi_vpn.Ip.V6.{Address6, parse_v6, prefix_v6}
use keekars_pi_vpn.Ip.Any.{AnyInterface, v4, v6, interface6, ip_interface}
use keekars_pi_vpn.Ip.V4.{
  Interface, IsInterface, parse_octet, octets_address, parse_v4, prefix_from_ip_int, or_else,
  with_prefix, count_righthand_zero_bits, prefix_from_ip, prefix_from_prefix_string, prefix_v4,
  parts_interface, parse_interface,
}

octet_bound : (t : Text) (n : ℕ) → parse_octet t ≡ some n → n < 256
unfolding parse_octet
octet_bound [] n h = ground arith
octet_bound (c ∷ cs) n h = ground arith

address_bound : (ts : List Text) (n : ℕ) → octets_address ts ≡ some n → n < 2 ^ 32
unfolding octets_address
address_bound (a ∷ b ∷ c ∷ d ∷ []) n h =
    ground (arith, octet_bound a, octet_bound b, octet_bound c, octet_bound d)
address_bound [] n h = ground arith
address_bound (a ∷ []) n h = ground arith
address_bound (a ∷ b ∷ []) n h = ground arith
address_bound (a ∷ b ∷ c ∷ []) n h = ground arith
address_bound (a ∷ b ∷ c ∷ d ∷ e ∷ ts) n h = ground arith

test_bound : (b : Bool) (k n : ℕ) → (if b then some (32 - k) else none) ≡ some n → n ≤ 32
test_bound b k n h = ground arith

or_else_bound :
    (p q : Option ℕ) (n : ℕ)
    → (p ≡ some n → n ≤ 32)
    → (q ≡ some n → n ≤ 32)
    → or_else p q ≡ some n
    → n ≤ 32
or_else_bound none q n hp hq h = hq h
or_else_bound (some p) q n hp hq h = hp h

with_prefix-IsInterface :
    (o p : Option ℕ) (i : Interface)
    → ((n : ℕ) → o ≡ some n → n < 2 ^ 32)
    → ((n : ℕ) → p ≡ some n → n ≤ 32)
    → with_prefix o p ≡ some i
    → IsInterface i
with_prefix-IsInterface none p i ho hp h = ground arith
with_prefix-IsInterface (some a) none i ho hp h = ground arith
with_prefix-IsInterface (some a) (some b) i ho hp h =
    let low = ho a refl in
    let short = hp b refl in record { ip_bound = ground arith; prefixlen_bound = ground arith }

ip_int_bound : (ip n : ℕ) → prefix_from_ip_int ip ≡ some n → n ≤ 32
unfolding prefix_from_ip_int
ip_int_bound ip n h =
    test_bound
      (ip / 2 ^ count_righthand_zero_bits 32 ip == 2 ^ (32 - count_righthand_zero_bits 32 ip) - 1)
      (count_righthand_zero_bits 32 ip) n h

string_bound : (t : Text) (n : ℕ) → prefix_from_prefix_string 32 t ≡ some n → n ≤ 32
unfolding prefix_from_prefix_string
string_bound [] n h = ground arith
string_bound (c ∷ cs) n h = ground arith

ip_bound : (o : Option ℕ) (n : ℕ) → prefix_from_ip o ≡ some n → n ≤ 32
unfolding prefix_from_ip
ip_bound none n h = ground arith
ip_bound (some ip) n h =
    or_else_bound (prefix_from_ip_int ip) (prefix_from_ip_int (2 ^ 32 - 1 - ip)) n
      (ip_int_bound ip n) (ip_int_bound (2 ^ 32 - 1 - ip) n) h

prefix_bound : (t : Text) (n : ℕ) → prefix_v4 t ≡ some n → n ≤ 32
unfolding prefix_v4
prefix_bound t n h =
    or_else_bound (prefix_from_prefix_string 32 t) (prefix_from_ip (parse_v4 t)) n
      (string_bound t n) (ip_bound (parse_v4 t) n) h

parts_IsInterface : (ts : List Text) (i : Interface) → parts_interface ts ≡ some i → IsInterface i
unfolding parts_interface parse_v4
parts_IsInterface (a ∷ []) i h =
    with_prefix-IsInterface (parse_v4 a) (some 32) i (address_bound (split b'.' a))
      (λ n e. ground arith) h
parts_IsInterface (a ∷ p ∷ []) i h =
    with_prefix-IsInterface (parse_v4 a) (prefix_v4 p) i (address_bound (split b'.' a))
      (prefix_bound p) h
parts_IsInterface [] i h = ground arith
parts_IsInterface (a ∷ b ∷ c ∷ ts) i h = ground arith

pub parse_interface-IsInterface :
    (t : Text) (i : Interface) → parse_interface t ≡ some i → IsInterface i
unfolding parse_interface
parse_interface-IsInterface t i h = parts_IsInterface (split b'/' t) i h

parts6_not_v4 : (ts : List Text) (i : Interface) → interface6 ts ≡ some (v4 i) → ⊥
unfolding interface6
parts6_not_v4 [] i h = ground arith
parts6_not_v4 (a ∷ []) i h = go (parse_v6 a) h
  where
    go : (o : Option Address6) → (do addr ← o; some (v6 addr 128)) ≡ some (v4 i) → ⊥
    go none e = ground arith
    go (some x) e = ground arith
parts6_not_v4 (a ∷ p ∷ []) i h = go (parse_v6 a) (prefix_v6 p) h
  where
    go :
        (o : Option Address6) (q : Option ℕ)
        → (do addr ← o; n ← q; some (v6 addr n)) ≡ some (v4 i)
        → ⊥
    go none q e = ground arith
    go (some x) none e = ground arith
    go (some x) (some n) e = ground arith
parts6_not_v4 (a ∷ b ∷ c ∷ ts) i h = ground arith

pub ip_interface-v4 :
    (t : Text) (i : Interface) → ip_interface t ≡ some (v4 i) → parse_interface t ≡ some i
unfolding ip_interface
ip_interface-v4 t i h =
    go (parse_interface t) (interface6 (split b'/' t)) h (parts6_not_v4 (split b'/' t) i)
  where
    go :
        (o : Option Interface) (six : Option AnyInterface)
        → when_none (do j ← o; some (v4 j)) six ≡ some (v4 i)
        → (six ≡ some (v4 i) → ⊥)
        → o ≡ some i
    go none six e no_v4 = absurd (no_v4 e)
    go (some j) six e no_v4 = ground arith
