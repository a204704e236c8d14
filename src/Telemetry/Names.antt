-- ===== src/Telemetry/Names.antt =====
-- app/telemetry.py: the settings, `_slug` and `_select_interfaces`.
use keekars_pi_vpn.Base.{
  ℕ, Bool, false, not, ◌&&◌, ◌||◌, List, [], ◌∷◌, ◌==◌, leb, if◌then◌else◌, is_nil, any, filter,
  map,
}
use keekars_pi_vpn.Base.Text.{Text, codes, text_eq, starts_with, strip, split}
use keekars_pi_vpn.Metrics.Device.{lower}

pub record TelemetrySettings : Type 0 where
  pub mqtt_host : Text
  pub mqtt_port : ℕ
  pub device_id : Text
  pub device_name : Text
  pub interfaces : Text
  pub interval_s : ℕ

-- `[a-z0-9_]`
unfoldable pub is_slug_char : ℕ → Bool
is_slug_char c = (leb b'a' c && leb c b'z') || (leb b'0' c && leb c b'9') || c == b'_'

-- `re.sub(r"[^a-z0-9_]+", "_", t)`; `in_run` says that the run before has its underscore.
unfoldable pub replace_runs : Bool → Text → Text
unfolding is_slug_char
replace_runs in_run [] = []
replace_runs in_run (c ∷ cs) =
    let rest = replace_runs (not (is_slug_char c)) cs in
    if is_slug_char c then c ∷ rest else if in_run then rest else b'_' ∷ rest

-- `strip("_")`
unfoldable pub lstrip_underscores : Text → Text
lstrip_underscores [] = []
lstrip_underscores (c ∷ cs) = let rest = lstrip_underscores cs in if c == b'_' then rest else c ∷ cs

unfoldable pub rstrip_underscores : Text → Text
rstrip_underscores [] = []
rstrip_underscores (c ∷ cs) =
    let rest = rstrip_underscores cs in if c == b'_' && is_nil rest then [] else c ∷ rest

unfoldable pub slug : Text → Text
unfolding replace_runs lstrip_underscores rstrip_underscores
slug value = rstrip_underscores (lstrip_underscores (replace_runs false (lower value)))

abbrev pub ignored_prefixes : List Text
ignored_prefixes = codes "lo" ∷ codes "docker" ∷ codes "br-" ∷ codes "veth" ∷ codes "hassio" ∷ []

-- The names of a list that stands in the settings
unfoldable pub wanted_interfaces : Text → List Text
wanted_interfaces interfaces =
    map strip (filter (λ i. not (is_nil (strip i))) (split b',' interfaces))

unfoldable pub select_interfaces : TelemetrySettings → List Text → List Text
unfolding wanted_interfaces
select_interfaces settings available =
    let chosen =
      filter (λ i. any (λ a. text_eq a i) available) (wanted_interfaces settings.interfaces) in
    let quiet = filter (λ i. not (any (λ p. starts_with p i) ignored_prefixes)) available in
    if is_nil (strip settings.interfaces) then quiet else chosen
