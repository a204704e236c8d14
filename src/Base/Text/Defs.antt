-- ===== src/Base/Text/Defs.antt =====
-- Python's `str` as a list of code points, with the operations of it that the source uses.
use Prim.Native.Char.{code}
use Prim.Native.Nat.{ℕ}
use Prim.Native.String.{String}
use mathlib.Core.Bool.{Bool, true, false, ◌&&◌, ◌||◌}
use mathlib.Core.List.{List, [], ◌∷◌, ◌++◌}
use mathlib.Core.Option.{Option, none, some}
use keekars_pi_vpn.Base.Tests.{leb, ◌==◌, if◌then◌else◌}
use keekars_pi_vpn.Base.Lists.{is_nil, elem}

abbrev pub Text : Type 0
Text = List ℕ

-- The code points of a literal.
abbrev pub codes : String → Text
codes String.[] = []
codes (String.◌∷◌ c s) = code c ∷ codes s

abbrev pub newline : ℕ
newline = 10

-- `==` on two texts.
unfoldable pub text_eq : Text → Text → Bool
text_eq [] [] = true
text_eq (x ∷ xs) (y ∷ ys) = x == y && text_eq xs ys
text_eq _ _ = false

-- `text.startswith(prefix)`
unfoldable pub starts_with : Text → Text → Bool
starts_with [] t = true
starts_with (x ∷ p) [] = false
starts_with (x ∷ p) (y ∷ t) = x == y && starts_with p t

-- What follows the prefix `p`, if the text begins with it.
unfoldable pub strip_prefix : Text → Text → Option Text
strip_prefix [] t = some t
strip_prefix (x ∷ p) [] = none
strip_prefix (x ∷ p) (y ∷ t) = let rest = strip_prefix p t in if x == y then rest else none

-- `needle in text`
unfoldable pub contains : Text → Text → Bool
unfolding starts_with
contains needle [] = starts_with needle []
contains needle (c ∷ cs) = starts_with needle (c ∷ cs) || contains needle cs

-- `text.rstrip("\n")`
unfoldable pub rstrip_newlines : Text → Text
rstrip_newlines [] = []
rstrip_newlines (c ∷ cs) =
    let r = rstrip_newlines cs in if c == newline && is_nil r then [] else c ∷ r

-- `c.isspace()`, which is also `\s` of a regular expression over `str`.
unfoldable pub is_space : ℕ → Bool
unfolding elem
is_space c =
    (leb 9 c && leb c 13)
    || (leb 28 c && leb c 32)
    || (leb 0x2000 c && leb c 0x200a)
    || elem c (0x85 ∷ 0xa0 ∷ 0x1680 ∷ 0x2028 ∷ 0x2029 ∷ 0x202f ∷ 0x205f ∷ 0x3000 ∷ [])

unfoldable pub lstrip : Text → Text
lstrip [] = []
lstrip (c ∷ cs) = let rest = lstrip cs in if is_space c then rest else c ∷ cs

unfoldable pub rstrip : Text → Text
rstrip [] = []
rstrip (c ∷ cs) = let r = rstrip cs in if is_space c && is_nil r then [] else c ∷ r

-- `text.strip()`
unfoldable pub strip : Text → Text
unfolding lstrip rstrip
strip t = rstrip (lstrip t)

abbrev pub add_to_head : ℕ → List Text → List Text
add_to_head c [] = (c ∷ []) ∷ []
add_to_head c (t ∷ ts) = (c ∷ t) ∷ ts

-- `text.split(sep)` for a separator of one character.
unfoldable pub split : ℕ → Text → List Text
split sep [] = [] ∷ []
split sep (c ∷ cs) = let rest = split sep cs in if c == sep then [] ∷ rest else add_to_head c rest

-- `sep.join(parts)`
unfoldable pub join : Text → List Text → Text
join sep [] = []
join sep (t ∷ []) = t
join sep (t ∷ u ∷ ts) = t ++ (sep ++ join sep (u ∷ ts))

unfoldable pub concat : List Text → Text
concat [] = []
concat (t ∷ ts) = t ++ concat ts

-- `c in "0123456789"`, for the ASCII digits.
unfoldable pub is_digit : ℕ → Bool
is_digit c = leb b'0' c && leb c b'9'

abbrev cons_some : ℕ → Option Text → Option Text
cons_some c none = none
cons_some c (some t) = some (c ∷ t)

-- What stands before the suffix `s`, if the text ends in it.
unfoldable pub strip_suffix : Text → Text → Option Text
unfolding text_eq
strip_suffix s [] = if text_eq s [] then some [] else none
strip_suffix s (c ∷ cs) =
    let later = cons_some c (strip_suffix s cs) in if text_eq s (c ∷ cs) then some [] else later
