-- ===== src/Helper/Validate.antt =====
-- The patterns, and `_validate_tunnel_name`, `_validate_wg_key`, `_validate_allowed_ips`.
use keekars_pi_vpn.Base.{
  ℕ, zero, suc, Bool, false, ◌&&◌, ◌||◌, Option, none, some, List, [], ◌∷◌, leb, ◌==◌,
  if◌then◌else◌, length, all, elem, is_nil, Result, ok, err,
}
use keekars_pi_vpn.Base.Text.{Text, codes, newline, join}
use keekars_pi_vpn.Ip.{AnyNetwork, print_any_network}
use keekars_pi_vpn.Helper.Request.{Json, Items, str, arr, nil, item, ip_network_of}

-- The texts of a `HelperError`.
pub data Reason : Type 0 where
  invalid_tunnel_name not_a_list invalid_address invalid_listen_port invalid_keepalive : Reason
  tunnel_exists tunnel_not_found peer_exists invalid_action : Reason
  invalid_key : Text → Reason
  invalid_allowed_ips_entry : Json → Reason
  tool_failed : Text → Text → Reason

-- An exception: a `HelperError`, or any other.
pub data Failure : Type 0 where
  rejected : Reason → Failure
  crashed : Failure

abbrev pub Checked : Type 0 → Type 0
Checked A = Result Failure A

unfoldable pub is_alnum : ℕ → Bool
is_alnum c = (leb b'a' c && leb c b'z') || (leb b'A' c && leb c b'Z') || (leb b'0' c && leb c b'9')

-- `[a-zA-Z0-9_-]`
unfoldable pub is_name_char : ℕ → Bool
unfolding is_alnum
is_name_char c = is_alnum c || c == b'_' || c == b'-'

-- `$` also matches before a newline that ends the text.
unfoldable pub drop_final_newline : Text → Text
drop_final_newline [] = []
drop_final_newline (c ∷ cs) =
    let rest = drop_final_newline cs in if c == newline && is_nil cs then [] else c ∷ rest

unfoldable pub is_tunnel_name : Text → Bool
unfolding is_name_char
is_tunnel_name w = all is_name_char w && leb 1 (length w) && leb (length w) 15

-- `TUNNEL_NAME_PATTERN.match(name)`
unfoldable pub matches_tunnel_name : Text → Bool
unfolding is_tunnel_name
matches_tunnel_name t = is_tunnel_name (drop_final_newline t)

-- `[A-Za-z0-9+/]`
unfoldable pub is_base64_char : ℕ → Bool
unfolding is_alnum
is_base64_char c = is_alnum c || c == b'+' || c == b'/'

-- The end of a key: `[AEIMQUYcgkosw048]=`
unfoldable pub is_key_end : Text → Bool
is_key_end (c ∷ e ∷ []) = elem c (codes "AEIMQUYcgkosw048") && e == b'='
is_key_end _ = false

unfoldable pub is_key_from : ℕ → Text → Bool
unfolding is_base64_char is_key_end
is_key_from zero t = is_key_end t
is_key_from (suc n) [] = false
is_key_from (suc n) (c ∷ cs) = is_base64_char c && is_key_from n cs

-- `WG_KEY_PATTERN.match(key)`
unfoldable pub matches_wg_key : Text → Bool
unfolding is_key_from
matches_wg_key t = is_key_from 42 (drop_final_newline t)

unfoldable pub validate_tunnel_name : Json → Checked Text
validate_tunnel_name (str t) =
    if matches_tunnel_name t then ok t else err (rejected invalid_tunnel_name)
validate_tunnel_name _ = err (rejected invalid_tunnel_name)

-- The field's name goes into the message.
unfoldable pub validate_wg_key : Text → Json → Checked Text
validate_wg_key field (str t) =
    if matches_wg_key t then ok t else err (rejected (invalid_key field))
validate_wg_key field _ = err (rejected (invalid_key field))

abbrev add_net : Json → Option AnyNetwork → Checked (List Text) → Checked (List Text)
add_net entry none rest = err (rejected (invalid_allowed_ips_entry entry))
add_net entry (some net) (ok nets) = ok (print_any_network net ∷ nets)
add_net entry (some net) (err e) = err e

-- The loop of `_validate_allowed_ips`
unfoldable pub validate_entries : Items → Checked (List Text)
validate_entries nil = ok []
validate_entries (item entry rest) = add_net entry (ip_network_of entry) (validate_entries rest)

abbrev joined : Checked (List Text) → Checked Text
joined (ok nets) = ok (join (codes ", ") nets)
joined (err e) = err e

unfoldable pub validate_allowed_ips : Json → Checked Text
unfolding validate_entries
validate_allowed_ips (arr (item entry rest)) = joined (validate_entries (item entry rest))
validate_allowed_ips _ = err (rejected not_a_list)
