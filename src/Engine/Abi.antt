-- ===== src/Engine/Abi.antt =====
-- crates/lattice-engine/src/abi.rs: what crosses a shard boundary, and what a shard is. A float is its
-- bits.
use Prim.Native.String.{String}
use p2p_distributed_inferenc.Prelude.{ℕ, ◌-◌, ◌*◌, ◌%◌, ◌^◌, List, length, ◌==◌}
use p2p_distributed_inferenc.Engine.Dtype.{WireDtype, size, KvDtype}
use p2p_distributed_inferenc.Engine.Error.{Result, ok, ◌>>◌, guard, shape}

pub record Activation : Type 0 where
  pub n_tokens : ℕ
  pub hidden_dim : ℕ
  pub dtype : WireDtype
  pub bytes : List ℕ

-- `Activation::new`; the product wraps around in a usize of 64 bits.
unfoldable pub activation : ℕ → ℕ → WireDtype → List ℕ → Result Activation
activation n_tokens hidden_dim dtype bytes = do
  let want = (n_tokens * hidden_dim % 2 ^ 64) * size dtype % 2 ^ 64
  guard (length bytes == want) (shape (length bytes) want n_tokens hidden_dim dtype)
  ok (record { n_tokens = n_tokens; hidden_dim = hidden_dim; dtype = dtype; bytes = bytes })

pub data Payload : Type 0 where
  tokens : List ℕ → Payload
  hidden : Activation → Payload
  logits : List ℕ → Payload

abbrev pub kind : Payload → String
kind (tokens _) = "tokens"
kind (hidden _) = "hidden states"
kind (logits _) = "logits"

pub record ShardSpec : Type 0 where
  pub model_hash : String
  pub first_layer : ℕ
  pub last_layer : ℕ
  pub max_context : ℕ
  pub kv_dtype : KvDtype
  pub wire_dtype : WireDtype

-- `ShardSpec::layers`, of a range that does not end before it starts.
abbrev pub layers : ShardSpec → ℕ
layers spec = spec.last_layer - spec.first_layer

pub record ShardStats : Type 0 where
  pub sessions : ℕ
  pub kv_bytes : ℕ
  pub weight_bytes : ℕ
  pub decode_micros : ℕ
