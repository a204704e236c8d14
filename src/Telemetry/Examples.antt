-- ===== src/Telemetry/Examples.antt =====
-- Given settings and readings, and the theorems on app/telemetry.py at them.
use keekars_pi_vpn.Base.{ℕ, ◌≡◌, refl, none, some, [], ◌∷◌}
use keekars_pi_vpn.Base.Text.{codes}
use keekars_pi_vpn.Base.Dict.{has_key}
use keekars_pi_vpn.Metrics.Device.{lower, lower_char}
use keekars_pi_vpn.Telemetry.Names.{
  TelemetrySettings, slug, is_slug_char, replace_runs, lstrip_underscores, rstrip_underscores,
}
use keekars_pi_vpn.Telemetry.Sensors.{Platform, components}
use keekars_pi_vpn.Telemetry.Collect.{Floats, Readings, collect}
use keekars_pi_vpn.Telemetry.Keys.{components-collect}
use keekars_pi_vpn.Telemetry.Agent.{Agent, connack, callback_goes_on, loop_turn, step}
use keekars_pi_vpn.Telemetry.Order.{start, goes_on, IsOrdered, first_agent, reached-IsOrdered}

abbrev settings : TelemetrySettings
settings = record {
  mqtt_host = codes "broker";
  mqtt_port = 1883;
  device_id = codes "pi";
  device_name = [];
  interfaces = [];
  interval_s = 60;
}

abbrev floats : Floats ℕ
floats = record { divide = λ a b. a; round = λ a digits. a }

abbrev readings : Readings ℕ
readings = record {
  cpu_temp_c = none;
  cpu_percent = 3;
  memory_percent = 40;
  memory_used = 1000;
  disk_percent = 10;
  disk_free = 2000;
  uptime_seconds = some 60;
  boot = none;
  last_downtime_seconds = none;
}

components-collect_example :
    has_key (codes "wlan0_sent_rate") (components (codes "eth0" ∷ codes "wlan0" ∷ []))
    ≡ has_key
        (codes "wlan0_sent_rate")
        (collect floats (codes "eth0" ∷ codes "wlan0" ∷ []) readings [])
components-collect_example =
    components-collect floats [] (codes "wlan0_sent_rate") (codes "eth0" ∷ codes "wlan0" ∷ [])
      readings

abbrev uname : Platform
uname = record { machine = codes "armv6l"; release = codes "6.1"; version = codes "1.0" }

abbrev after_connack : Agent ℕ
after_connack = step uname settings [] (connack 0 none) (first_agent uname settings [])

abbrev busy_agent : Agent ℕ
busy_agent =
    step uname settings [] (loop_turn (some []))
      (step uname settings [] callback_goes_on after_connack)

reached-IsOrdered_example : IsOrdered uname settings [] busy_agent
reached-IsOrdered_example =
    reached-IsOrdered uname settings []
      (goes_on (goes_on (goes_on start (connack 0 none)) callback_goes_on) (loop_turn (some [])))

-- Two interfaces can have one name in the topics.
same_slug : slug (codes "eth0.1") ≡ slug (codes "eth0-1")
unfolding slug is_slug_char replace_runs lstrip_underscores rstrip_underscores lower lower_char
same_slug = refl
