-- ===== src/Wireguard.antt =====
-- app/wireguard.py: the tunnels and peers that the application keeps, over the daemon's files.
pub mod Metadata
pub mod Subnets
pub mod Allocate
pub mod AllocateLaws
pub mod Fits
pub mod Tunnels
pub mod Quiet
pub mod Conflicts
pub mod Activation
pub mod Peers
pub mod Register
pub mod Sound
pub mod Invariant
pub mod Concurrent
pub mod Agree
pub mod AgreePeer
mod SoundExamples
mod AgreeExamples
mod AgreePeerExamples
mod ActivationExamples
mod Examples
