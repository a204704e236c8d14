-- ===== src/Ip.antt =====
-- The parts of Python's `ipaddress` that app/wireguard.py, app/models.py and
-- deploy/pi-wg-helperd/helper.py call: reading and printing interfaces and networks of both
-- versions, `network`, `overlaps` and `hosts`.
mod V4
mod V6
mod Any
unfoldable pub use V4.*
unfoldable pub use V6.*
unfoldable pub use Any.*
pub mod Overlap
pub mod Print
pub mod Bounds
mod Tests
