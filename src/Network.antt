-- ===== src/Network.antt =====
-- app/network.py: the routes that run NetworkManager's `nmcli`.
pub mod Terse
pub mod TerseLaws
pub mod Nmcli
pub mod Configure
pub mod Wifi
pub mod ScanLaws
pub mod Profile
pub mod Refines
mod Examples
