-- ===== src/Telemetry/Sensors.antt =====
-- app/telemetry.py: `_sensor`, `_components` and `_discovery_payload`.
use keekars_pi_vpn.Base.{ℕ, Option, none, some, List, [], ◌∷◌, ◌++◌, if◌then◌else◌, is_nil}
use keekars_pi_vpn.Base.Text.{Text, codes}
use keekars_pi_vpn.Base.Dict.{Dict, insert}
use keekars_pi_vpn.Telemetry.Names.{TelemetrySettings, slug}

-- One component; a key that the dictionary does not have is `none`.
pub record Component : Type 0 where
  pub platform : Text
  pub name : Text
  pub value_template : Text
  pub availability_template : Text
  pub availability_topic : Option Text
  pub state_class : Option Text
  pub unit_of_measurement : Option Text
  pub device_class : Option Text
  pub icon : Option Text
  pub unique_id : Option Text

unfoldable pub sensor :
    Text → Text → Option Text → Option Text → Option Text → Option Text → Component
sensor name key unit device_class state_class icon = record {
  platform = codes "sensor";
  name = name;
  value_template = codes "{{ value_json." ++ (key ++ codes " }}");
  availability_template =
      codes "{{ 'online' if value_json." ++ (key ++ codes " is not none else 'offline' }}");
  availability_topic = none;
  state_class = state_class;
  unit_of_measurement = unit;
  device_class = device_class;
  icon = icon;
  unique_id = none;
}

abbrev measurement : Option Text
measurement = some (codes "measurement")

unfoldable pub device_components : Dict Component
unfolding sensor
device_components =
    (
      codes "cpu_temp_c",
      sensor (codes "CPU temperature") (codes "cpu_temp_c") (some (codes "°C"))
          (some (codes "temperature")) measurement none,
    )
    ∷ (
      codes "cpu_percent",
      sensor (codes "CPU usage") (codes "cpu_percent") (some (codes "%")) none measurement
          (some (codes "mdi:cpu-64-bit")),
    )
    ∷ (
      codes "memory_percent",
      sensor (codes "Memory usage") (codes "memory_percent") (some (codes "%")) none measurement
          (some (codes "mdi:memory")),
    )
    ∷ (
      codes "memory_used_mb",
      sensor (codes "Memory used") (codes "memory_used_mb") (some (codes "MB"))
          (some (codes "data_size")) measurement none,
    )
    ∷ (
      codes "disk_percent",
      sensor (codes "Disk usage") (codes "disk_percent") (some (codes "%")) none measurement
          (some (codes "mdi:harddisk")),
    )
    ∷ (
      codes "disk_free_gb",
      sensor (codes "Disk free") (codes "disk_free_gb") (some (codes "GB"))
          (some (codes "data_size")) measurement none,
    )
    ∷ (
      codes "uptime_seconds",
      sensor (codes "Uptime") (codes "uptime_seconds") (some (codes "s")) (some (codes "duration"))
          measurement none,
    )
    ∷ (
      codes "last_boot",
      sensor (codes "Last boot") (codes "last_boot") none (some (codes "timestamp")) none none,
    )
    ∷ (
      codes "last_downtime_seconds",
      sensor (codes "Last downtime") (codes "last_downtime_seconds") (some (codes "s"))
          (some (codes "duration")) none none,
    )
    ∷ []

-- `f"{key}_bytes_{direction}"` and `f"{key}_{direction}_rate"`
unfoldable pub bytes_key : Text → Text → Text
bytes_key key direction = key ++ (codes "_bytes_" ++ direction)

unfoldable pub rate_key : Text → Text → Text
rate_key key direction = key ++ (codes "_" ++ (direction ++ codes "_rate"))

-- One turn of the inner loop
unfoldable pub add_direction : Text → Text → Text → Dict Component → Dict Component
unfolding sensor
add_direction iface direction label components =
    let key = slug iface in
    let with_bytes =
      insert (bytes_key key direction)
        (sensor (iface ++ (codes " " ++ label)) (bytes_key key direction) (some (codes "B"))
          (some (codes "data_size")) (some (codes "total_increasing")) none)
        components in
    insert (rate_key key direction)
      (sensor (iface ++ (codes " " ++ (label ++ codes " rate"))) (rate_key key direction)
        (some (codes "B/s")) (some (codes "data_rate")) measurement none)
      with_bytes

unfoldable pub add_interfaces : List Text → Dict Component → Dict Component
unfolding add_direction
add_interfaces [] components = components
add_interfaces (iface ∷ ifaces) components = add_interfaces ifaces (
    add_direction iface (codes "recv") (codes "received")
      (add_direction iface (codes "sent") (codes "transmitted") components))

unfoldable pub components : List Text → Dict Component
unfolding add_interfaces device_components
components interfaces = add_interfaces interfaces device_components

unfoldable pub topic : Text → Text → Text
topic device_id last = codes "pi-telemetry/" ++ (device_id ++ (codes "/" ++ last))

-- The loop of `_discovery_payload` over the components
unfoldable pub with_ids : Text → Dict Component → Dict Component
with_ids device_id [] = []
with_ids device_id ((key, c) ∷ rest) =
    (
      key,
      record c {
        unique_id = some (device_id ++ (codes "_" ++ key));
        availability_topic = some (topic device_id (codes "availability"));
      },
    )
    ∷ with_ids device_id rest

-- What `os.uname()` and `__version__` give
pub record Platform : Type 0 where
  pub machine : Text
  pub release : Text
  pub version : Text

pub record Discovery : Type 0 where
  pub identifiers : List Text
  pub device_name : Text
  pub manufacturer : Text
  pub model : Text
  pub sw_version : Text
  pub origin_name : Text
  pub origin_version : Text
  pub state_topic : Text
  pub availability_topic : Text
  pub payload_available : Text
  pub payload_not_available : Text
  pub qos : ℕ
  pub components : Dict Component

unfoldable pub discovery_payload : Platform → TelemetrySettings → List Text → Discovery
unfolding with_ids topic
discovery_payload uname settings interfaces = record {
  identifiers = settings.device_id ∷ [];
  device_name = if is_nil settings.device_name then settings.device_id else settings.device_name;
  manufacturer = codes "Keekar";
  model = uname.machine;
  sw_version =
      codes "pi-config-ui " ++ (uname.version ++ (codes " (" ++ (uname.release ++ codes ")")));
  origin_name = codes "pi-config-ui";
  origin_version = uname.version;
  state_topic = topic settings.device_id (codes "state");
  availability_topic = topic settings.device_id (codes "availability");
  payload_available = codes "online";
  payload_not_available = codes "offline";
  qos = 1;
  components = with_ids settings.device_id (components interfaces);
}
