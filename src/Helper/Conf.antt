-- ===== src/Helper/Conf.antt =====
-- The text of a tunnel's .conf file: `_split_conf` and `_rebuild_conf`.
pub mod Rebuild
pub mod Info
mod Tests
use keekars_pi_vpn.Base.{ℕ, Bool, ◌&&◌, List, [], ◌∷◌, ◌++◌, ◌==◌, if◌then◌else◌}
use keekars_pi_vpn.Base.Text.{Text, codes, newline, starts_with, rstrip_newlines}

abbrev pub peer_mark : Text
peer_mark = codes "[Peer]"

abbrev cons_part : Bool → ℕ → Text × List Text → Text × List Text
cons_part breaks c (part, parts) = if breaks then ([], part ∷ parts) else (c ∷ part, parts)

-- `re.split(r"\n(?=\[Peer\])", content)`: a newline before `[Peer]` separates, and is dropped.
unfoldable pub split_conf : Text → Text × List Text
split_conf [] = ([], [])
split_conf (c ∷ cs) = cons_part (c == newline && starts_with peer_mark cs) c (split_conf cs)

-- One part, with one newline at its end.
abbrev pub line_end : Text → Text
line_end part = rstrip_newlines part ++ newline ∷ []

-- The loop of `_rebuild_conf` over the peer blocks.
unfoldable pub rebuild_blocks : List Text → Text
rebuild_blocks [] = []
rebuild_blocks (block ∷ blocks) = newline ∷ (line_end block ++ rebuild_blocks blocks)

unfoldable pub rebuild_conf : Text → List Text → Text
unfolding rebuild_blocks
rebuild_conf header blocks = line_end header ++ rebuild_blocks blocks
