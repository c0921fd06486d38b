-- ===== src/Engine/Error.antt =====
-- crates/lattice-engine/src/lib.rs: the errors of the crate. Where the source formats a text for
-- `Error::Engine`, the model names the occasion.
use Prim.Native.String.{String}
use p2p_distributed_inferenc.Prelude.{ℕ, List}
use p2p_distributed_inferenc.Prelude.Results
use p2p_distributed_inferenc.Engine.Dtype.{WireDtype}
pub use p2p_distributed_inferenc.Prelude.Results.{
  ok, err, ◌>>=◌, ◌>>◌, guard, or_fail, map_err, succeeded, Result-cases,
}

pub data Fault : Type 0 where
  unreadable tensor_library split_file layer_count missing_weights : Fault
  missing not_text not_an_integer : String → Fault
  out_of_range : String → ℕ → Fault
  -- The tensor's name.
  invalid : List ℕ → Fault

pub data Error : Type 0 where
  wrong_payload : ℕ × ℕ → String → Error
  shape : ℕ → ℕ → ℕ → ℕ → WireDtype → Error
  unsupported_range : ℕ × ℕ → ℕ → Error
  unsupported_arch : String → Error
  unknown_session : ℕ → Error
  engine : Fault → Error

abbrev pub Result {ℓ} : Type ℓ → Type ℓ
Result A = Results.Result Error A
