-- ===== src/Network/Terse.antt =====
-- app/network.py: `_parse_nmcli_terse`.
use keekars_pi_vpn.Base.{ℕ, Bool, false, not, ◌&&◌, List, [], ◌∷◌, ◌==◌, if◌then◌else◌, is_nil}
use keekars_pi_vpn.Base.Text.{Text, add_to_head, splitlines}

-- `re.split(r"(?<!\\):", line)`; `escaped` says whether a backslash stands before.
unfoldable pub split_unescaped : Bool → Text → List Text
split_unescaped escaped [] = [] ∷ []
split_unescaped escaped (c ∷ cs) =
    let rest = split_unescaped (c == b'\\') cs in
    if c == b':' && not escaped then [] ∷ rest else add_to_head c rest

abbrev keep_pending : Bool → ℕ → Text → Text
keep_pending pending x t = if pending then x ∷ t else t

-- `replace(xy, z)` for two characters `x` and `y`; `pending` says that an `x` has been read and not
-- been given out yet.
unfoldable pub replace_pair : ℕ → ℕ → ℕ → Bool → Text → Text
replace_pair x y z pending [] = keep_pending pending x []
replace_pair x y z pending (c ∷ cs) =
    let found = pending && c == y in
    let rest = replace_pair x y z (not found && c == x) cs in
    if found then z ∷ rest else keep_pending pending x (if c == x then rest else c ∷ rest)

unfoldable pub unescape_field : Text → Text
unfolding replace_pair
unescape_field f = replace_pair b'\\' b'\\' b'\\' false (replace_pair b'\\' b':' b':' false f)

unfoldable pub unescape_fields : List Text → List Text
unfolding unescape_field
unescape_fields [] = []
unescape_fields (f ∷ fs) = unescape_field f ∷ unescape_fields fs

unfoldable pub parse_lines : List Text → List (List Text)
unfolding split_unescaped unescape_fields
parse_lines [] = []
parse_lines (line ∷ lines) =
    let rest = parse_lines lines in
    if is_nil line then rest else unescape_fields (split_unescaped false line) ∷ rest

unfoldable pub parse_nmcli_terse : Text → List (List Text)
unfolding parse_lines
parse_nmcli_terse output = parse_lines (splitlines output)
