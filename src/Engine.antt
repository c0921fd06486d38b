-- ===== src/Engine.antt =====
-- crates/lattice-engine: the shard ABI and the engines behind it.
pub mod Dtype
pub mod Error
pub mod Abi
pub mod Facts
pub mod Metadata
pub mod TensorName
pub mod Inventory
pub mod Candle
