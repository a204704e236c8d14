-- ===== src/Helper/Scope.antt =====
-- `_validate_allowed_ips` on IPv6 addresses with a scope id.
use keekars_pi_vpn.Base.{
  ℕ, false, none, some, List, [], ◌∷◌, ◌++◌, ◌≡◌, refl, ◌∙◌, ◌*◌, ◌^◌, ◌==◌, elem, all, is_nil, ok,
}
use keekars_pi_vpn.Base.Text.{
  Text, codes, add_to_head, split, split-append, is_digit, text_operations,
}
use keekars_pi_vpn.Ip.{
  v6, ip_interface, ip_network, parse_v4, parse_v6, octets_address, parse_octet, print_any_network,
}
use keekars_pi_vpn.Helper.Request.{str, arr, item, nil, ip_network_of}
use keekars_pi_vpn.Helper.Validate.{validate_allowed_ips}

-- A link-local network with the scope id `s`
abbrev pub scoped : Text → Text
scoped s = codes "fe80::%" ++ (s ++ codes "/64")

-- A text that is not empty and has neither `%` nor `/`
abbrev pub IsScope : Text → Type 0
IsScope s = (is_nil s ≡ false) × (elem b'%' s ≡ false) × (elem b'/' s ≡ false)

parts_scoped :
    (s : Text)
    → elem b'/' s ≡ false
    → split b'/' (scoped s) ≡ (codes "fe80::%" ++ s) ∷ codes "64" ∷ []
parts_scoped s h =
    split-append b'/' (codes "fe80::%" ++ s) (codes "64") (unfold elem in h) ∙ unfold split in refl

-- The text is no IPv4 address: its first octet begins with a letter.
octets_address-letter :
    (c : ℕ) (cs : Text) (ts : List Text)
    → is_digit c ≡ false
    → octets_address ((c ∷ cs) ∷ ts) ≡ none
unfolding octets_address parse_octet all
octets_address-letter c cs [] n = refl
octets_address-letter c cs (a ∷ []) n = refl
octets_address-letter c cs (a ∷ b ∷ []) n = refl
octets_address-letter c cs (a ∷ b ∷ d ∷ []) n = rw n
octets_address-letter c cs (a ∷ b ∷ d ∷ e ∷ ts) n = refl

octets_address-add :
    (c : ℕ) (ts : List Text) → is_digit c ≡ false → octets_address (add_to_head c ts) ≡ none
octets_address-add c [] n = octets_address-letter c [] [] n
octets_address-add c (t ∷ ts) n = octets_address-letter c t ts n

parse_v4-letter :
    (c : ℕ) (t : Text) → is_digit c ≡ false → c == b'.' ≡ false → parse_v4 (c ∷ t) ≡ none
unfolding parse_v4 split
parse_v4-letter c t n d = rw d (octets_address-add c (split b'.' t) n)

parse_v6-scoped :
    (s : Text)
    → IsScope s
    → parse_v6 (codes "fe80::%" ++ s) ≡ some (record { value = 0xfe80 * 2 ^ 112; scope = some s })
unfolding parse_v6 text_operations
parse_v6-scoped s (n, p, q) = rw (n, p)

ip_interface-scoped :
    (s : Text)
    → IsScope s
    → ip_interface (scoped s) ≡ some (v6 (record { value = 0xfe80 * 2 ^ 112; scope = some s }) 64)
unfolding ip_interface is_digit
ip_interface-scoped s h = rw (parts_scoped s h.2) (
    rw (parse_v4-letter b'f' (codes "e80::%" ++ s) refl refl)
      (rw (parse_v6-scoped s h) (unfold text_operations in refl)))

-- `_validate_allowed_ips` takes the network fe80::/64 with any scope id that is not empty and has
-- neither `%` nor `/`, newlines included, and gives its text back as it is.
pub validate_allowed_ips-scoped :
    (s : Text) → IsScope s → validate_allowed_ips (arr (item (str (scoped s)) nil)) ≡ ok (scoped s)
unfolding validate_allowed_ips ip_network_of ip_network
validate_allowed_ips-scoped s h =
    rw (ip_interface-scoped s h) (unfold print_any_network text_operations in refl)
