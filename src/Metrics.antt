-- ===== src/Metrics.antt =====
-- app/metrics.py: the network counters, and the readings of the device.
pub mod NetRates
pub mod Conserve
pub mod Device
mod Examples
