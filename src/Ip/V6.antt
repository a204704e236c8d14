-- ===== src/Ip/V6.antt =====
-- `IPv6Address`, and the texts of `IPv6Network` and `IPv6Interface`. An address may carry a scope id,
-- the text behind a `%`, which is kept and printed as it was read.
use keekars_pi_vpn.Base.{
  ℕ, zero, suc, ◌+◌, ◌-◌, ◌*◌, ◌/◌, ◌%◌, ◌^◌, Bool, true, false, not, ◌&&◌, ◌||◌, Option, none,
  some, List, [], ◌∷◌, ◌++◌, ltb, leb, ◌==◌, if◌then◌else◌, all, is_nil, elem, length,
}
use keekars_pi_vpn.Base.Maybe.{◌>>=◌}
use keekars_pi_vpn.Base.Text.{Text, is_digit, split, join, text_eq}
use keekars_pi_vpn.Ip.V4.{parse_v4, prefix_from_prefix_string}

pub record Address6 : Type 0 where
  pub value : ℕ
  pub scope : Option Text

hex_value : ℕ → ℕ
hex_value c = if is_digit c then c - 48 else if leb b'a' c then c - 87 else c - 55

is_hex_digit : ℕ → Bool
is_hex_digit c = is_digit c || (leb b'a' c && leb c b'f') || (leb b'A' c && leb c b'F')

hex_from : ℕ → Text → ℕ
unfolding hex_value
hex_from acc [] = acc
hex_from acc (c ∷ cs) = hex_from (acc * 16 + hex_value c) cs

-- `_parse_hextet`; `int("", 16)` raises.
parse_hextet : Text → Option ℕ
unfolding is_hex_digit hex_from
parse_hextet [] = none
parse_hextet (c ∷ cs) =
    if all is_hex_digit (c ∷ cs) && leb (length cs) 3 then some (hex_from 0 (c ∷ cs)) else none

parse_hextets : ℕ → List Text → Option ℕ
unfolding parse_hextet
parse_hextets acc [] = some acc
parse_hextets acc (t ∷ ts) = do h ← parse_hextet t; parse_hextets (acc * 65536 + h) ts

hex_digit : ℕ → ℕ
hex_digit d = if ltb d 10 then 48 + d else 87 + d

-- `'%x' % n`, for at most `fuel` digits
hex_fuel : ℕ → ℕ → Text
unfolding hex_digit
hex_fuel zero n = []
hex_fuel (suc f) n =
    let high = hex_fuel f (n / 16) in
    if ltb n 16 then hex_digit n ∷ [] else high ++ hex_digit (n % 16) ∷ []

-- The last part may be an IPv4 address, which stands for two hextets.
expand_suffix : List Text → Option (List Text)
unfolding parse_v4 hex_fuel
expand_suffix [] = some []
expand_suffix (t ∷ []) =
    if elem b'.' t
    then (do n ← parse_v4 t; some (hex_fuel 4 (n / 65536) ∷ hex_fuel 4 (n % 65536) ∷ []))
    else some (t ∷ [])
expand_suffix (t ∷ u ∷ ts) = do rest ← expand_suffix (u ∷ ts); some (t ∷ rest)

-- The parts before and after the first empty part that is not the last.
find_skip : List Text → Option (List Text × List Text)
find_skip [] = none
find_skip (t ∷ []) = none
find_skip (t ∷ u ∷ ts) =
    let later = (do (h, l) ← find_skip (u ∷ ts); some (t ∷ h, l)) in
    if is_nil t then some ([], u ∷ ts) else later

abbrev is_none {ℓ} : {A : Type ℓ} → Option A → Bool
is_none none = true
is_none (some a) = false

-- The hextets to copy from before the `::`.
high_parts : Text → List Text → Option (List Text)
high_parts first taken =
    if is_nil first then (if is_nil taken then some [] else none) else some (first ∷ taken)

last_is_nil : List Text → Bool
last_is_nil [] = false
last_is_nil (t ∷ []) = is_nil t
last_is_nil (t ∷ u ∷ ts) = last_is_nil (u ∷ ts)

-- The hextets to copy from after it.
low_parts : List Text → Option (List Text)
unfolding last_is_nil
low_parts lo = if last_is_nil lo then (if leb (length lo) 1 then some [] else none) else some lo

with_skip : Text → List Text × List Text → Option ℕ
unfolding find_skip high_parts low_parts parse_hextets
with_skip first (taken, lo) = if not (is_none (find_skip lo)) then none else do
  hi ← high_parts first taken
  lo' ← low_parts lo
  if ltb (length hi + length lo') 8
      then (do
        high ← parse_hextets 0 hi
        parse_hextets (high * 65536 ^ (8 - (length hi + length lo'))) lo')
      else none

abbrev or_all : Option (List Text × List Text) → Text → List Text → Option ℕ
unfolding with_skip
or_all (some s) first rest = with_skip first s
or_all none first rest = if length (first ∷ rest) == 8 then parse_hextets 0 (first ∷ rest) else none

from_parts : List Text → Option ℕ
unfolding find_skip with_skip parse_hextets
from_parts [] = none
from_parts (first ∷ rest) =
    if ltb 9 (length (first ∷ rest)) then none else or_all (find_skip rest) first rest

-- `_ip_int_from_string`
ip_int_from_string : Text → Option ℕ
unfolding expand_suffix from_parts
ip_int_from_string t =
    let parts = split b':' t in
    if ltb (length parts) 3 then none else do expanded ← expand_suffix parts; from_parts expanded

-- `text.partition("%")`, with `none` where there is no `%`
partition_scope : Text → Text × Option Text
partition_scope [] = ([], none)
partition_scope (c ∷ cs) =
    let (before, scope) = partition_scope cs in
    if c == b'%' then ([], some cs) else (c ∷ before, scope)

address_with : Option ℕ → Option Text → Option Address6
address_with none scope = none
address_with (some n) none = some (record { value = n; scope = none })
address_with (some n) (some s) =
    if is_nil s || elem b'%' s then none else some (record { value = n; scope = some s })

-- `IPv6Address(text)`
unfoldable pub parse_v6 : Text → Option Address6
unfolding partition_scope address_with ip_int_from_string
parse_v6 t = let (addr, scope) = partition_scope t in address_with (ip_int_from_string addr) scope

unfoldable pub prefix_v6 : Text → Option ℕ
unfolding prefix_from_prefix_string
prefix_v6 = prefix_from_prefix_string 128

hextets : ℕ → ℕ → List Text
unfolding hex_fuel
hextets zero n = []
hextets (suc k) n = hextets k (n / 65536) ++ hex_fuel 4 (n % 65536) ∷ []

-- The loop of `_compress_hextets`: the start and the length of the first longest run of zeros.
longest_run : ℕ → ℕ → ℕ → ℕ → List Text → ℕ × ℕ
longest_run index run start len [] = (start, len)
longest_run index run start len (t ∷ ts) =
    let zero? = text_eq t (b'0' ∷ []) in
    let longer = zero? && ltb len (run + 1) in
    longest_run (index + 1) (if zero? then run + 1 else 0) (if longer then index - run else start)
      (if longer then run + 1 else len) ts

take_parts : ℕ → List Text → List Text
take_parts zero ts = []
take_parts (suc n) [] = []
take_parts (suc n) (t ∷ ts) = t ∷ take_parts n ts

drop_parts : ℕ → List Text → List Text
drop_parts zero ts = ts
drop_parts (suc n) [] = []
drop_parts (suc n) (t ∷ ts) = drop_parts n ts

compress : List Text → List Text
unfolding longest_run take_parts drop_parts
compress ts =
    let (start, len) = longest_run 0 0 0 0 ts in
    let padded = if start + len == length ts then ts ++ [] ∷ [] else ts in
    let cut = take_parts start padded ++ ([] ∷ drop_parts (start + len) padded) in
    if leb len 1 then ts else if start == 0 then [] ∷ cut else cut

abbrev scope_suffix : Option Text → Text
scope_suffix none = []
scope_suffix (some s) = b'%' ∷ s

-- `str(address)`
unfoldable pub print_v6 : Address6 → Text
unfolding compress hextets
print_v6 a = join (b':' ∷ []) (compress (hextets 8 a.value)) ++ scope_suffix a.scope
