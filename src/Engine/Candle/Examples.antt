-- ===== src/Engine/Candle/Examples.antt =====
-- A small model file and a library whose models remember what they were fed, and the theorems at them.
use Prim.Native.String.{String}
use package.text.Mathlib.Text as Text
use p2p_distributed_inferenc.Prelude.{
  ℕ, ◌≡◌, refl, ap, ◌∙◌, true, not, ◌||◌, ◌==◌, Option, none, some, List, [], ◌∷◌, ◌++◌,
  if◌then◌else◌, length,
}
use p2p_distributed_inferenc.Engine.Dtype.{f32, kv_f16}
use p2p_distributed_inferenc.Engine.Error.{ok}
use p2p_distributed_inferenc.Engine.Abi.{tokens}
use p2p_distributed_inferenc.Engine.Facts.{ModelInventory}
use p2p_distributed_inferenc.Engine.Metadata.{Value, u32, text, string, u32_at, read_facts}
use p2p_distributed_inferenc.Engine.TensorName.{strip_prefix, digits, parse_uint, block_of}
use p2p_distributed_inferenc.Engine.Inventory.{
  TensorInfo, Content, elements_from, tensor_bytes, add_at, account, account_each, zeros,
  contains_zero, read,
}
use p2p_distributed_inferenc.Engine.Inventory.Accounts.{IsWeighed, read-IsWeighed}
use p2p_distributed_inferenc.Engine.Candle.{
  Library, CandleShard, prefill, is_active, drop_session, run, tensor_in, owns_embedding,
}
use p2p_distributed_inferenc.Engine.Candle.Sessions.{prefills, drops, calls, prefill-calls}

abbrev pub metadata : String → Option Value
metadata key =
    if Text.◌==◌ key "general.architecture"
    then some (text "llama")
    else if Text.◌==◌ key "llama.block_count"
    then some (u32 2)
    else if Text.◌==◌ key "llama.embedding_length"
    then some (u32 32)
    else if Text.◌==◌ key "llama.attention.head_count"
    then some (u32 1)
    else if Text.◌==◌ key "llama.context_length"
    then some (u32 128)
    else none

abbrev tensor : List ℕ → ℕ → ℕ → TensorInfo
tensor name block bytes = record {
  name = name;
  dims = 32 ∷ 2 ∷ [];
  ggml_dtype = record { block_size = block; type_size = bytes };
}

-- `blk.0.q`, `blk.1.q` and `token`
abbrev pub content : Content
content = record {
  metadata = metadata;
  tensor_infos =
      tensor (98 ∷ 108 ∷ 107 ∷ 46 ∷ 48 ∷ 46 ∷ 113 ∷ []) 32 18
      ∷ tensor (98 ∷ 108 ∷ 107 ∷ 46 ∷ 49 ∷ 46 ∷ 113 ∷ []) 1 2
      ∷ tensor (116 ∷ 111 ∷ 107 ∷ 101 ∷ 110 ∷ []) 1 4
      ∷ [];
}

abbrev pub inventory : ModelInventory
inventory = record {
  facts = record {
    arch = "llama";
    layers = 2;
    hidden_dim = 32;
    heads = 1;
    kv_heads = 1;
    train_context = 128;
  };
  layer_bytes = 36 ∷ 128 ∷ [];
  output_bytes = 256;
}

pub inventory_read : read content ≡ ok inventory
unfolding read read_facts string u32_at account_each account tensor_bytes elements_from block_of
    strip_prefix parse_uint digits add_at zeros contains_zero
inventory_read = refl

read-IsWeighed_example : IsWeighed content inventory
read-IsWeighed_example = read-IsWeighed content inventory inventory_read

abbrev pub remembering : Library
remembering = record {
  Tensor = List ℕ × (ℕ × ℕ × ℕ);
  of_tokens = λ ids. some (ids, (1, length ids, 1));
  from_vec = λ values dims. some (values, dims);
  dims3 = λ x. some x.1;
  f16_values = λ x. some x.0;
  f32_values = λ x. some x.0;
  to_f32 = λ v. v;
  Model = List ℕ;
  from_gguf = λ content first last. some [];
  forward = λ m x pos. (some (m ++ x.0, x.1), m ++ x.0);
  clear_kv_cache = λ m. [];
  Alike = λ m n. m ≡ n;
  alike_refl = λ m. refl;
  alike_trans = λ m n o p q. p ∙ q;
  forward-Alike = λ m n x pos e. ap (λ (l : List ℕ). some (l ++ x.0, x.1)) e;
  clear-Alike = λ m n e. refl;
  clear-forward = λ m x pos. refl;
  clear_clear = λ m. refl;
}

abbrev opened : CandleShard remembering
opened = record {
  model = [];
  facts = inventory.facts;
  spec = record {
    model_hash = "h";
    first_layer = 0;
    last_layer = 2;
    max_context = 128;
    kv_dtype = kv_f16;
    wire_dtype = f32;
  };
  weight_bytes = 164;
  active = none;
  decodes = 0;
  decode_micros = 0;
}

starts_again :
    (not (
        is_active remembering 2
          (calls remembering (prefills 1 0 (tokens (5 ∷ [])) ∷ drops 3 ∷ []) opened).active)
      || (0 == 0))
    ≡ true
unfolding is_active drop_session prefill run tensor_in owns_embedding
starts_again = refl

prefill-calls_example :
    (prefill remembering 2 0
      (tokens (7 ∷ []))
      (calls remembering (prefills 1 0 (tokens (5 ∷ [])) ∷ drops 3 ∷ []) opened)).0
    ≡ (prefill remembering 2 0 (tokens (7 ∷ [])) opened).0
prefill-calls_example =
    prefill-calls remembering (prefills 1 0 (tokens (5 ∷ [])) ∷ drops 3 ∷ []) opened 2 0
      (tokens (7 ∷ [])) refl starts_again
