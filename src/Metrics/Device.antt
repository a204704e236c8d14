-- ===== src/Metrics/Device.antt =====
-- app/metrics.py: `cpu_temp_c`, `uptime_seconds` and `boot_time_utc`.
use keekars_pi_vpn.Base.{
  ℕ, ◌+◌, Bool, ◌&&◌, Option, none, some, List, [], ◌∷◌, ◌++◌, if◌then◌else◌, leb, is_nil, map,
  filter,
}
use keekars_pi_vpn.Base.Maybe.{◌>>=◌, when_none}
use keekars_pi_vpn.Base.Text.{Text, codes, contains, strip, lstrip, is_space, sorted}
use keekars_pi_vpn.Base.Dict.{Dict, keys, lookup}

-- A folder of /sys/class/thermal: the texts of its files; one that cannot be read is `none`.
pub record Zone : Type 0 where
  pub zone_type : Option Text
  pub temp : Option Text

-- What a thousand millidegrees are, and the reading of numbers: a text that is none gives `none`.
pub record Numbers (F : Type 0) : Type 0 where
  pub int_thousandths : Text → Option F
  pub float : Text → Option F

-- `lower()`, on ASCII
unfoldable pub lower_char : ℕ → ℕ
lower_char c = if leb b'A' c && leb c b'Z' then c + 32 else c

unfoldable pub lower : Text → Text
unfolding lower_char
lower t = map lower_char t

-- `_zone_type`
unfoldable pub zone_type_of : Zone → Text
zone_type_of z = elim z.zone_type [ none ↦ [] | some t ↦ lower (strip t) ]

abbrev zone_at : Dict Zone → Text → List Zone
zone_at zones name = elim (lookup name zones) [ none ↦ [] | some z ↦ z ∷ [] ]

-- The folders in the order of their names
unfoldable pub in_order : Dict Zone → List Text → List Zone
in_order zones [] = []
in_order zones (name ∷ names) = zone_at zones name ++ in_order zones names

-- `text.split()[0]`, whose IndexError is `none`
unfoldable pub take_word : Text → Text
take_word [] = []
take_word (c ∷ cs) = let rest = take_word cs in if is_space c then [] else c ∷ rest

unfoldable pub first_word : Text → Option Text
unfolding take_word
first_word t = let word = take_word (lstrip t) in if is_nil word then none else some word

module _ {F : Type 0} (numbers : Numbers F) where
  -- The first zone whose temperature can be read
  unfoldable pub first_temp : List Zone → Option F
  first_temp [] = none
  first_temp (z ∷ zs) =
      when_none (z.temp >>= λ t. numbers.int_thousandths (strip t)) (first_temp zs)

  unfoldable pub cpu_temp_c : Dict Zone → Option F
  unfolding in_order zone_type_of first_temp
  cpu_temp_c folders =
      let zones = in_order folders (sorted (keys folders)) in
      let preferred = filter (λ z. contains (codes "cpu") (zone_type_of z)) zones in
      first_temp (preferred ++ zones)

  -- The text of /proc/uptime, if it can be read
  unfoldable pub uptime_seconds : Option Text → Option F
  unfolding first_word
  uptime_seconds file = file >>= λ t. first_word t >>= λ word. numbers.float word

-- `boot_time` is what psutil reports.
unfoldable pub boot_time_utc : Bool → ℕ → Option ℕ
boot_time_utc ntp_synced boot_time = if ntp_synced then some boot_time else none
