-- ===== src/Engine/Metadata.antt =====
-- crates/lattice-engine/src/facts.rs: the facts of a model, read from its GGUF metadata. candle parses
-- the file; its map is a function here, and its other kinds of value are one.
use Prim.Native.String.{String, ◌++◌}
use p2p_distributed_inferenc.Prelude.{
  ℕ, ◌*◌, ◌/◌, ◌%◌, ◌^◌, Option, none, some, ltb, ◌==◌, if◌then◌else◌,
}
use p2p_distributed_inferenc.Engine.Dtype.{KvDtype, kv_size}
use p2p_distributed_inferenc.Engine.Error.{
  Result, ok, err, ◌>>=◌, engine, missing, not_text, not_an_integer, out_of_range,
}
use p2p_distributed_inferenc.Engine.Facts.{ModelFacts}

pub data Value : Type 0 where
  u8 u16 u32 u64 : ℕ → Value
  text : String → Value
  other : Value

abbrev pub Metadata : Type 0
Metadata = String → Option Value

abbrev pub text_of : String → Option Value → Result String
text_of key none = err (engine (missing key))
text_of key (some (text s)) = ok s
text_of key (some _) = err (engine (not_text key))

unfoldable pub string : Metadata → String → Result String
string metadata key = text_of key (metadata key)

abbrev pub u32_of : String → Option Value → Result ℕ
u32_of key none = err (engine (missing key))
u32_of key (some (u8 v)) = ok v
u32_of key (some (u16 v)) = ok v
u32_of key (some (u32 v)) = ok v
u32_of key (some (u64 v)) = if ltb v (2 ^ 32) then ok v else err (engine (out_of_range key v))
u32_of key (some (text _)) = err (engine (not_an_integer key))
u32_of key (some other) = err (engine (not_an_integer key))

unfoldable pub u32_at : Metadata → String → Result ℕ
u32_at metadata key = u32_of key (metadata key)

abbrev pub unwrap_or : ℕ → Result ℕ → ℕ
unwrap_or d (ok v) = v
unwrap_or d (err _) = d

-- `ModelFacts::read`
unfoldable pub read_facts : Metadata → Result ModelFacts
read_facts metadata = do
  arch ← string metadata "general.architecture"
  heads ← u32_at metadata (arch ++ ".attention.head_count")
  layers ← u32_at metadata (arch ++ ".block_count")
  hidden_dim ← u32_at metadata (arch ++ ".embedding_length")
  let kv_heads = unwrap_or heads (u32_at metadata (arch ++ ".attention.head_count_kv"))
  train_context ← u32_at metadata (arch ++ ".context_length")
  ok (record {
    arch = arch;
    layers = layers;
    hidden_dim = hidden_dim;
    heads = heads;
    kv_heads = kv_heads;
    train_context = train_context;
  })

-- `head_dim`: the division by zero of a model without heads panics.
unfoldable pub head_dim : ModelFacts → Option ℕ
head_dim facts = if facts.heads == 0 then none else some (facts.hidden_dim / facts.heads)

abbrev pub kv_of : ModelFacts → ℕ → ℕ → KvDtype → Option ℕ → Option ℕ
kv_of facts layers max_context dtype none = none
kv_of facts layers max_context dtype (some dim) =
    let per_token = (2 * facts.kv_heads % 2 ^ 64) * dim % 2 ^ 64 in
    some (((per_token * max_context % 2 ^ 64) * layers % 2 ^ 64) * kv_size dtype % 2 ^ 64)

-- `kv_bytes`, in u64 that wrap around.
unfoldable pub kv_bytes : ModelFacts → ℕ → ℕ → KvDtype → Option ℕ
kv_bytes facts layers max_context dtype = kv_of facts layers max_context dtype (head_dim facts)
