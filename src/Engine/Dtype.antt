-- ===== src/Engine/Dtype.antt =====
-- crates/lattice-engine/src/abi.rs: the number formats at a boundary and in the cache.
use p2p_distributed_inferenc.Prelude.{ℕ}

pub data WireDtype : Type 0 where
  f16 f32 : WireDtype

-- `WireDtype::size`
abbrev pub size : WireDtype → ℕ
size f16 = 2
size f32 = 4

pub data KvDtype : Type 0 where
  kv_f16 : KvDtype

-- `KvDtype::size`
abbrev pub kv_size : KvDtype → ℕ
kv_size kv_f16 = 2
