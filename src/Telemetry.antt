-- ===== src/Telemetry.antt =====
-- app/telemetry.py: the agent that publishes the device's health over MQTT.
pub mod Names
pub mod Sensors
pub mod Collect
pub mod Keys
pub mod Agent
pub mod Order
mod Examples
