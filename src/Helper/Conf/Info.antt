-- ===== src/Helper/Conf/Info.antt =====
-- `_ADDRESS_LINE`, `_ENDPOINT_LINE`, `_ALLOWED_IPS_LINE` and `_parse_conf_info`. The three patterns
-- are `^\s*KEY\s*=\s*(.+?)\s*$` with `re.MULTILINE`; `\s` takes newlines too, so a value may stand
-- on a later line than its key.
use keekars_pi_vpn.Base.{
  ℕ, zero, suc, ◌-◌, Bool, true, false, not, Option, none, some, List, [], ◌∷◌, ◌++◌, map, ◌==◌,
  if◌then◌else◌, is_nil, filter, head?, length,
}
use keekars_pi_vpn.Base.Maybe.{◌>>=◌, when_none}
use keekars_pi_vpn.Base.Text.{Text, codes, newline, lstrip, rstrip, strip, strip_prefix, split}
use keekars_pi_vpn.Helper.Conf.{split_conf}

-- The text up to the next newline, and the rest with that newline.
unfoldable pub line_of : Text → Text × Text
line_of [] = ([], [])
line_of (c ∷ cs) =
    let (line, rest) = line_of cs in if c == newline then ([], c ∷ cs) else (c ∷ line, rest)

-- The last character that is no newline. Where only spaces follow the `=`, `\s*` gives back
-- characters from its end until `.` takes one.
last_on_line : Text → Option ℕ
last_on_line [] = none
last_on_line (c ∷ cs) = when_none (last_on_line cs) (if c == newline then none else some c)

-- `\s*(.+?)\s*$` behind the `=`: the group, and the text that is left.
unfoldable pub value_behind : Text → Text → Option (Text × Text)
unfolding last_on_line
value_behind spaces [] = do c ← last_on_line spaces; some (c ∷ [], [])
value_behind spaces (c ∷ cs) = let (line, rest) = line_of (c ∷ cs) in some (rstrip line, rest)

-- One of the patterns, at a place where `^` matches.
unfoldable pub match_line : Text → Text → Option (Text × Text)
match_line key t = do
  after_key ← strip_prefix key (lstrip t)
  after_equals ← strip_prefix (b'=' ∷ []) (lstrip after_key)
  value_behind after_equals (lstrip after_equals)

abbrev at_start : Bool → Option (Text × Text) → Option (Text × Text)
at_start true m = m
at_start false m = none

-- `finditer`: the groups of all matches. The flag says that `^` matches here, and `skip` characters
-- belong to the match before.
unfoldable pub find_lines : Text → Bool → ℕ → Text → List Text
find_lines key start skip [] = []
find_lines key start (suc skip) (c ∷ cs) = find_lines key (c == newline) skip cs
find_lines key start zero (c ∷ cs) = elim (at_start start (match_line key (c ∷ cs))) [
  | none ↦ find_lines key (c == newline) 0 cs
  | some (value, rest) ↦ value ∷ find_lines key (c == newline) (length cs - length rest) cs
]

-- `pattern.search(text)`, its group
unfoldable pub search_line : Text → Text → Option Text
search_line key t = head? (find_lines key true 0 t)

pub data Mode : Type 0 where
  client server : Mode

pub record ConfInfo : Type 0 where
  pub mode : Mode
  pub configured_address : Option Text
  pub configured_endpoint : Option Text
  pub configured_allowed_ips : List Text

-- `if endpoint`: a text is true unless it is empty.
unfoldable pub mode_of : Option Text → Mode
mode_of none = server
mode_of (some e) = if is_nil e then server else client

-- The parts of one `AllowedIPs` value
unfoldable pub allowed_ips_of : Text → List Text
allowed_ips_of value = filter (λ part. not (is_nil part)) (map strip (split b',' value))

flat_allowed_ips : List Text → List Text
unfolding allowed_ips_of
flat_allowed_ips [] = []
flat_allowed_ips (v ∷ vs) = allowed_ips_of v ++ flat_allowed_ips vs

-- The loop over the peer blocks: the first endpoint, and all allowed addresses.
unfoldable pub scan_blocks : Option Text → List Text → List Text → Option Text × List Text
unfolding flat_allowed_ips
scan_blocks endpoint ips [] = (endpoint, ips)
scan_blocks endpoint ips (block ∷ blocks) =
    scan_blocks (when_none endpoint (search_line (codes "Endpoint") block))
      (ips ++ flat_allowed_ips (find_lines (codes "AllowedIPs") true 0 block)) blocks

unfoldable pub parse_conf_info : Text → ConfInfo
unfolding scan_blocks mode_of
parse_conf_info content =
    let (header, blocks) = split_conf content in
    let (endpoint, ips) = scan_blocks none [] blocks in
    record {
      mode = mode_of endpoint;
      configured_address = search_line (codes "Address") header;
      configured_endpoint = endpoint;
      configured_allowed_ips = ips;
    }

-- Unfolds the reading of a file, for runs on given texts.
unfoldable pub info_operations : Unit {0}
unfolding match_line value_behind line_of find_lines search_line scan_blocks allowed_ips_of
    parse_conf_info split_conf mode_of
info_operations = tt
