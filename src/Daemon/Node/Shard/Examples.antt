-- ===== src/Daemon/Node/Shard/Examples.antt =====
-- A node with the model file of the engine's examples.
use Prim.Native.String.{String}
use p2p_distributed_inferenc.Prelude.{ℕ, ◌≡◌, ◌≢◌, refl, none, some, List, [], arith}
use p2p_distributed_inferenc.Engine.Dtype.{f32, kv_f16}
use p2p_distributed_inferenc.Engine.Error.{Error}
use p2p_distributed_inferenc.Engine.Abi.{ShardSpec}
use p2p_distributed_inferenc.Engine.Metadata.{string, u32_at, read_facts, head_dim, kv_bytes}
use p2p_distributed_inferenc.Engine.Candle.{
  CandleShard, open_shard, stats, shard_weight_bytes, blocks, in_range, quantized_of, elem_count,
  same_name,
}
use p2p_distributed_inferenc.Engine.TensorName.{block_of, parse_uint, strip_prefix, digits}
use p2p_distributed_inferenc.Engine.Candle.Examples.{content, remembering}
use p2p_distributed_inferenc.Net.Activation.{serve_stream}
use p2p_distributed_inferenc.Net.Control.{shard_loaded}
use p2p_distributed_inferenc.Net.Examples.{byte_pipe}
use p2p_distributed_inferenc.Net.Examples.Streams.{steps, replies, two_steps_bytes}
use p2p_distributed_inferenc.Daemon.Node.Shard.{
  ModelFile, Thread, holding, load_job, load_shard, node_executor,
}
use p2p_distributed_inferenc.Daemon.Node.Shard.Loaded.{
  IsLoaded, IsFree, load_shard-IsLoaded, load_shard_answers, serve_stream-IsFree,
}

abbrev file : ModelFile
file = record { hash = some "c0ffee"; content = some content }

abbrev spec : ShardSpec
spec = record {
  model_hash = "c0ffee";
  first_layer = 1;
  last_layer = 2;
  max_context = 128;
  kv_dtype = kv_f16;
  wire_dtype = f32;
}

abbrev loaded : Thread remembering
loaded = (load_shard remembering (some file) spec (holding none)).1

loads :
    load_shard remembering (some file) spec (holding none) ≡ (some (shard_loaded 128 16384), loaded)
unfolding load_shard load_job open_shard stats kv_bytes head_dim read_facts string u32_at
    shard_weight_bytes blocks in_range block_of parse_uint quantized_of elem_count same_name
    strip_prefix digits
loads = refl

load_shard-IsLoaded_example :
    (from : ModelFile) × (shard : CandleShard remembering) × (some file ≡ some from)
    × (loaded ≡ holding (some shard))
    × IsLoaded remembering from spec shard
    × (128 ≡ shard.weight_bytes)
    × (kv_bytes shard.facts 1 128 kv_f16 ≡ some 16384)
load_shard-IsLoaded_example =
    load_shard-IsLoaded remembering (some file) spec (holding none) loaded 128 16384 loads

load_shard_answers_example : (load_shard remembering (some file) spec (holding none)).0 ≢ none
load_shard_answers_example =
    load_shard_answers remembering (some file) spec (holding none)
      (omega arith, (omega arith, (omega arith, (omega arith, (omega arith, (omega arith, tt))))))

abbrev display : Error → String
display e = "error"

serve_stream-IsFree_example :
    (s : List ℕ) × (t : Thread remembering) × (serve_stream byte_pipe steps replies
        (node_executor remembering display (λ session step. 1))
        7
        []
        two_steps_bytes
        loaded
      ≡ some (s, t))
    × IsFree remembering 7 t
serve_stream-IsFree_example =
    serve_stream-IsFree remembering byte_pipe steps replies display (λ session step. 1) 7 []
      two_steps_bytes loaded
