-- ===== src/Engine/Facts.antt =====
-- crates/lattice-engine/src/facts.rs: what the planner knows about a model.
use Prim.Native.String.{String}
use p2p_distributed_inferenc.Prelude.{ℕ, List}

pub record ModelFacts : Type 0 where
  pub arch : String
  pub layers : ℕ
  pub hidden_dim : ℕ
  pub heads : ℕ
  pub kv_heads : ℕ
  pub train_context : ℕ

pub record ModelInventory : Type 0 where
  pub facts : ModelFacts
  pub layer_bytes : List ℕ
  pub output_bytes : ℕ
