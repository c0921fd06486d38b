-- ===== src/Net.antt =====
-- crates/lattice-net: discovery, pairing and authenticated transport.
pub mod Discovery
pub mod Error
pub mod Bytes
pub mod Stream
pub mod Codec
pub mod Message
pub mod Activation
pub mod Identity
pub mod Json
pub mod Trust
pub mod Mesh
pub mod Control
pub mod Probe
pub mod Tls
pub mod Transport
pub mod Pairing
pub mod Rpc
pub mod Dispatch
pub mod Examples
