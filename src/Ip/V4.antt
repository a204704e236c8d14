-- ===== src/Ip/V4.antt =====
-- `IPv4Address`, `IPv4Interface` and `IPv4Network`. A method that raises `ValueError` gives `none`.
use keekars_pi_vpn.Base.{
  ℕ, zero, suc, ◌+◌, ◌-◌, ◌*◌, ◌/◌, ◌%◌, ◌^◌, ◌≤◌, ◌<◌, Bool, not, ◌&&◌, ◌||◌, Option, none, some,
  List, [], ◌∷◌, ◌++◌, ltb, leb, ◌==◌, if◌then◌else◌, all, length,
}
use keekars_pi_vpn.Base.Text.{Text, is_digit, split, value_from, decimal, text_eq}

-- An address with the prefix length that it was given with; the host bits are kept.
pub record Interface : Type 0 where
  pub ip : ℕ
  pub prefixlen : ℕ

pub record Network : Type 0 where
  pub network_address : ℕ
  pub prefixlen : ℕ

-- The number of addresses under a prefix of this length.
abbrev pub block_size : ℕ → ℕ
block_size prefixlen = 2 ^ (32 - prefixlen)

-- `ip & netmask`: the host bits cleared.
unfoldable pub mask : ℕ → ℕ → ℕ
mask size ip = ip / size * size

-- `IPv4Network((ip, prefixlen), strict=False)`
unfoldable pub network_of : ℕ → ℕ → Network
unfolding mask
network_of ip prefixlen = record {
  network_address = mask (block_size prefixlen) ip;
  prefixlen = prefixlen;
}

-- `interface.network`
unfoldable pub network : Interface → Network
unfolding network_of
network i = network_of i.ip i.prefixlen

unfoldable pub broadcast_address : Network → ℕ
broadcast_address n = n.network_address + (block_size n.prefixlen - 1)

-- `address in network`
unfoldable pub has_address : Network → ℕ → Bool
unfolding mask
has_address n ip = mask (block_size n.prefixlen) ip == n.network_address

-- `a.overlaps(b)`
unfoldable pub overlaps : Network → Network → Bool
unfolding has_address broadcast_address
overlaps a b =
    has_address b a.network_address
    || has_address b (broadcast_address a)
    || has_address a b.network_address
    || has_address a (broadcast_address b)

-- `network.hosts()`: its first address and how many follow. A /32 has its one address, a /31 both,
-- any other leaves out the network and the broadcast address.
unfoldable pub first_host : Network → ℕ
first_host n = if leb 31 n.prefixlen then n.network_address else n.network_address + 1

unfoldable pub host_count : Network → ℕ
host_count n = if leb 31 n.prefixlen then block_size n.prefixlen else block_size n.prefixlen - 2

-- `_parse_octet`
unfoldable pub parse_octet : Text → Option ℕ
parse_octet [] = none
parse_octet (c ∷ cs) =
    if not (all is_digit (c ∷ cs))
    then none
    else if ltb 3 (length (c ∷ cs))
    then none
    else if not (text_eq (c ∷ cs) (b'0' ∷ [])) && c == b'0'
    then none
    else if ltb 255 (value_from 0 (c ∷ cs))
    then none
    else some (value_from 0 (c ∷ cs))

abbrev octets_value : Option ℕ → Option ℕ → Option ℕ → Option ℕ → Option ℕ
octets_value (some a) (some b) (some c) (some d) = some (((a * 256 + b) * 256 + c) * 256 + d)
octets_value _ _ _ _ = none

unfoldable pub octets_address : List Text → Option ℕ
unfolding parse_octet
octets_address (a ∷ b ∷ c ∷ d ∷ []) =
    octets_value (parse_octet a) (parse_octet b) (parse_octet c) (parse_octet d)
octets_address _ = none

-- `IPv4Address(text)`
unfoldable pub parse_v4 : Text → Option ℕ
unfolding octets_address
parse_v4 t = octets_address (split b'.' t)

-- `_count_righthand_zero_bits(n, bits)`
unfoldable pub count_righthand_zero_bits : ℕ → ℕ → ℕ
count_righthand_zero_bits zero n = 0
count_righthand_zero_bits (suc bits) n =
    let rest = count_righthand_zero_bits bits (n / 2) in if n % 2 == 0 then suc rest else 0

-- `_prefix_from_ip_int`
unfoldable pub prefix_from_ip_int : ℕ → Option ℕ
unfolding count_righthand_zero_bits
prefix_from_ip_int ip =
    let zeros = count_righthand_zero_bits 32 ip in
    if ip / 2 ^ zeros == 2 ^ (32 - zeros) - 1 then some (32 - zeros) else none

-- `_prefix_from_prefix_string`, for a largest prefix length of `max`
unfoldable pub prefix_from_prefix_string : ℕ → Text → Option ℕ
prefix_from_prefix_string max [] = none
prefix_from_prefix_string max (c ∷ cs) =
    if not (all is_digit (c ∷ cs))
    then none
    else if ltb max (value_from 0 (c ∷ cs))
    then none
    else some (value_from 0 (c ∷ cs))

abbrev pub or_else : Option ℕ → Option ℕ → Option ℕ
or_else (some p) other = some p
or_else none other = other

unfoldable pub prefix_from_ip : Option ℕ → Option ℕ
unfolding prefix_from_ip_int
prefix_from_ip none = none
prefix_from_ip (some ip) = or_else (prefix_from_ip_int ip) (prefix_from_ip_int (2 ^ 32 - 1 - ip))

-- `_make_netmask(text)`: a length, or a netmask or host mask as a dotted quad
unfoldable pub prefix_v4 : Text → Option ℕ
unfolding prefix_from_prefix_string parse_v4 prefix_from_ip
prefix_v4 t = or_else (prefix_from_prefix_string 32 t) (prefix_from_ip (parse_v4 t))

abbrev pub with_prefix : Option ℕ → Option ℕ → Option Interface
with_prefix (some ip) (some p) = some (record { ip = ip; prefixlen = p })
with_prefix _ _ = none

unfoldable pub parts_interface : List Text → Option Interface
unfolding parse_v4 prefix_v4
parts_interface (a ∷ []) = with_prefix (parse_v4 a) (some 32)
parts_interface (a ∷ p ∷ []) = with_prefix (parse_v4 a) (prefix_v4 p)
parts_interface _ = none

-- `IPv4Interface(text)`
unfoldable pub parse_interface : Text → Option Interface
unfolding parts_interface
parse_interface t = parts_interface (split b'/' t)

-- `str(address)`
unfoldable pub print_v4 : ℕ → Text
print_v4 ip =
    decimal (ip / 256 / 256 / 256)
    ++ (b'.'
        ∷ (decimal (ip / 256 / 256 % 256)
            ++ (b'.' ∷ (decimal (ip / 256 % 256) ++ (b'.' ∷ decimal (ip % 256))))))

-- `str(interface)`
unfoldable pub print_interface : Interface → Text
unfolding print_v4
print_interface i = print_v4 i.ip ++ (b'/' ∷ decimal i.prefixlen)

-- `str(network)`
unfoldable pub print_network : Network → Text
unfolding print_v4
print_network n = print_v4 n.network_address ++ (b'/' ∷ decimal n.prefixlen)

-- What the type of the value gives: the address has 32 bits, and the prefix is one.
pub record IsInterface (i : Interface) : Type 0 where
  pub ip_bound : i.ip < 2 ^ 32
  pub prefixlen_bound : i.prefixlen ≤ 32
