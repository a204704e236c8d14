-- ===== src/Helper.antt =====
-- deploy/pi-wg-helperd/helper.py: the root daemon that keeps the tunnels' files.
pub mod Conf
pub mod Injection
pub mod Peers
pub mod Files
pub mod Reading
pub mod PeerFiles
pub mod AddRemove
pub mod Names
pub mod Scope
pub mod Create
pub mod Made
pub mod MadePeer
pub mod ReadBack
pub mod Secrets
pub mod Status
pub mod Server
mod PeerExamples
mod Examples
pub mod Request
pub mod Validate
pub mod Host
pub mod Blocks
pub mod Commands
