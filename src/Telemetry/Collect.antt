-- ===== src/Telemetry/Collect.antt =====
-- app/telemetry.py: `collect` and `_round`.
use keekars_pi_vpn.Base.{ℕ, ◌*◌, Option, none, some, List, [], ◌∷◌}
use keekars_pi_vpn.Base.Text.{Text, codes}
use keekars_pi_vpn.Base.Dict.{Dict, insert, lookup}
use keekars_pi_vpn.Metrics.NetRates.{Rate, Sampled}
use keekars_pi_vpn.Telemetry.Names.{slug}
use keekars_pi_vpn.Telemetry.Sensors.{bytes_key, rate_key}

-- A value of the payload
pub data Value (F : Type 0) : Type 0 where
  null : Value F
  number : F → Value F
  integer : ℕ → Value F
  text : Text → Value F

-- The floats: a quotient, and `round(value, digits)`
pub record Floats (F : Type 0) : Type 0 where
  pub divide : ℕ → ℕ → F
  pub round : F → ℕ → F

-- What `collect` reads, apart from the sample of the counters; `boot` is the boot time's `isoformat()`.
pub record Readings (F : Type 0) : Type 0 where
  pub cpu_temp_c : Option F
  pub cpu_percent : F
  pub memory_percent : F
  pub memory_used : ℕ
  pub disk_percent : F
  pub disk_free : ℕ
  pub uptime_seconds : Option F
  pub boot : Option Text
  pub last_downtime_seconds : Option F

abbrev or_null : {F A : Type 0} → (A → Value F) → Option A → Value F
or_null f none = null
or_null f (some a) = f a

module _ {F : Type 0} (floats : Floats F) where
  -- `_round`
  unfoldable pub rounded : Option F → ℕ → Value F
  rounded value digits = or_null (λ v. number (floats.round v digits)) value

  unfoldable pub device_values : Readings F → Dict (Value F)
  unfolding rounded
  device_values r =
      (codes "cpu_temp_c", rounded r.cpu_temp_c 1)
      ∷ (codes "cpu_percent", number r.cpu_percent)
      ∷ (codes "memory_percent", number r.memory_percent)
      ∷ (codes "memory_used_mb", rounded (some (floats.divide r.memory_used (1024 * 1024))) 1)
      ∷ (codes "disk_percent", number r.disk_percent)
      ∷ (codes "disk_free_gb", rounded (some (floats.divide r.disk_free (1024 * 1024 * 1024))) 2)
      ∷ (codes "uptime_seconds", rounded r.uptime_seconds 0)
      ∷ (codes "last_boot", or_null text r.boot)
      ∷ (codes "last_downtime_seconds", or_null number r.last_downtime_seconds)
      ∷ []

  -- Bytes per second, of a time in microseconds
  unfoldable pub rounded_rate : Rate → Value F
  unfolding rounded
  rounded_rate rate = rounded (some (floats.divide (rate.bytes * 1000000) rate.elapsed)) 1

  unfoldable pub add_values : Dict Sampled → List Text → Dict (Value F) → Dict (Value F)
  unfolding rounded_rate
  add_values sample [] payload = payload
  add_values sample (iface ∷ ifaces) payload =
      let key = slug iface in
      let counters = lookup iface sample in
      add_values sample ifaces (
        insert (rate_key key (codes "recv")) (or_null (λ c. rounded_rate c.recv_rate) counters) (
          insert (rate_key key (codes "sent")) (or_null (λ c. rounded_rate c.sent_rate) counters) (
            insert (bytes_key key (codes "recv")) (or_null (λ c. integer c.bytes_recv) counters) (
              insert (bytes_key key (codes "sent")) (or_null (λ c. integer c.bytes_sent) counters)
                payload))))

  unfoldable pub collect : List Text → Readings F → Dict Sampled → Dict (Value F)
  unfolding add_values device_values
  collect interfaces r sample = add_values sample interfaces (device_values r)
