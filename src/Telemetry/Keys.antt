-- ===== src/Telemetry/Keys.antt =====
-- The components that the agent announces, and the values that it publishes.
use keekars_pi_vpn.Base.{◌≡◌, refl, Bool, true, false, ◌||◌, List, [], ◌∷◌, arith}
use keekars_pi_vpn.Base.Text.{Text, codes, text_eq, text_eq_iff}
use keekars_pi_vpn.Base.Dict.{Dict, has_key, insert}
use keekars_pi_vpn.Metrics.NetRates.{Sampled}
use keekars_pi_vpn.Telemetry.Names.{slug}
use keekars_pi_vpn.Telemetry.Sensors.{
  Component, add_direction, add_interfaces, components, device_components, bytes_key, rate_key,
}
use keekars_pi_vpn.Telemetry.Collect.{Value, Floats, Readings, device_values, add_values, collect}

has_key-insert :
    {V : Type 0} (k j : Text) (v : V) (d : Dict V)
    → has_key k (insert j v d) ≡ (text_eq j k || has_key k d)
unfolding has_key insert
has_key-insert k j v [] = ground arith
has_key-insert k j v ((i, w) ∷ d) =
    ground (arith, has_key-insert k j v d, text_eq_iff i j, text_eq_iff i k, text_eq_iff j k)

has_key-add_direction :
    (k iface direction label : Text) (c : Dict Component)
    → has_key k (add_direction iface direction label c) ≡ (
        text_eq (rate_key (slug iface) direction) k
        || (text_eq (bytes_key (slug iface) direction) k || has_key k c))
unfolding add_direction
has_key-add_direction k iface direction label c =
    rw
      (
        has_key-insert k (rate_key (slug iface) direction),
        has_key-insert k (bytes_key (slug iface) direction),
      )
      refl

-- The two dictionaries get an interface's keys in different orders.
or_middle :
    (rr br rs bs x : Bool) → (rr || (br || (rs || (bs || x)))) ≡ (rr || (rs || (br || (bs || x))))
or_middle true br rs bs x = refl
or_middle false true true bs x = refl
or_middle false true false bs x = refl
or_middle false false rs bs x = refl

module _ {F : Type 0} (floats : Floats F) (sample : Dict Sampled) (k : Text) where
  has_key-add :
      (ifaces : List Text) (c : Dict Component) (d : Dict (Value F))
      → has_key k c ≡ has_key k d
      → has_key k (add_interfaces ifaces c) ≡ has_key k (add_values floats sample ifaces d)
  unfolding add_interfaces add_values
  has_key-add [] c d h = h
  has_key-add (iface ∷ ifaces) c d h = has_key-add ifaces _ _ (
      rw
        (
          has_key-add_direction k iface (codes "recv") (codes "received"),
          has_key-add_direction k iface (codes "sent") (codes "transmitted"),
          h,
          has_key-insert k (rate_key (slug iface) (codes "recv")),
          has_key-insert k (rate_key (slug iface) (codes "sent")),
          has_key-insert k (bytes_key (slug iface) (codes "recv")),
          has_key-insert k (bytes_key (slug iface) (codes "sent")),
        )
        (or_middle (text_eq (rate_key (slug iface) (codes "recv")) k)
          (text_eq (bytes_key (slug iface) (codes "recv")) k)
          (text_eq (rate_key (slug iface) (codes "sent")) k)
          (text_eq (bytes_key (slug iface) (codes "sent")) k) (has_key k d)))

  -- For any list of interfaces, `_components` announces a sensor under a key exactly if `collect`
  -- publishes a value under that key, whatever is read and whichever interfaces have counters.
  pub components-collect :
      (interfaces : List Text) (r : Readings F)
      → has_key k (components interfaces) ≡ has_key k (collect floats interfaces r sample)
  unfolding components collect device_components device_values has_key
  components-collect interfaces r = has_key-add interfaces _ _ refl
