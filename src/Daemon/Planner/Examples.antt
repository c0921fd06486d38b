-- ===== src/Daemon/Planner/Examples.antt =====
-- The planner run on the inputs of the tests in crates/latticed/src/chat/plan.rs.
use Prim.Native.Nat.{compare}
use p2p_distributed_inferenc.Prelude.{
  ℕ, ◌+◌, ◌-◌, ◌*◌, ◌/◌, ◌%◌, ◌^◌, drop, ◌≤◌, ◌<◌, ◌≡◌, ◌≢◌, refl, true, none, some, List, [], ◌∷◌,
  map, arith, length, get_or, sum, All,
}
use p2p_distributed_inferenc.Engine.Facts.{ModelInventory}
use p2p_distributed_inferenc.Net.Control.{GpuDevice}
use p2p_distributed_inferenc.Engine.Dtype.{f32, kv_f16}
use p2p_distributed_inferenc.Engine.Error.{ok}
use p2p_distributed_inferenc.Engine.Abi.{ShardSpec, ShardStats}
use p2p_distributed_inferenc.Engine.Metadata.{read_facts, string, u32_at}
use p2p_distributed_inferenc.Engine.TensorName.{block_of, parse_uint, strip_prefix, digits}
use p2p_distributed_inferenc.Engine.Candle.{
  CandleShard, shard_weight_bytes, blocks, in_range, quantized_of, elem_count, same_name, embedding,
  head, is_absent, info, output, open_shard, stats,
}
use p2p_distributed_inferenc.Engine.Candle.Examples.{
  content, inventory as content_inventory, inventory_read, remembering,
}
use p2p_distributed_inferenc.Daemon.Planner.Placement.{load}
use p2p_distributed_inferenc.Daemon.Planner.Reported.{load_reported}
use p2p_distributed_inferenc.Daemon.Planner.{
  Floats, planned, does_not_fit, panicked, supported, count_allowed, budget, kv_per_layer,
  prefix_from, bump_last, place, build,
}
use p2p_distributed_inferenc.Daemon.Planner.Correct.{
  IsPlacement, Plans, build_sound, build_complete, build_refusal, build-ne-panicked,
}
use p2p_distributed_inferenc.Daemon.Planner.Shape.{IsU32Model, plan_shape, prefix_no_overflow}

-- Truncating integers in place of the floats.
abbrev whole_floats : Floats
whole_floats = record {
  F64 = ℕ;
  of_u128 = λ n. n;
  mul = ◌*◌;
  div = ◌/◌;
  sub = λ a b. (a - b) + (b - a);
  abs = λ a. a;
  total_cmp = compare;
}

abbrev inventory : List ℕ → ℕ → ModelInventory
inventory weights output = record {
  facts = record {
    arch = "llama";
    layers = length weights;
    hidden_dim = 1;
    heads = 1;
    kv_heads = 1;
    train_context = 2048;
  };
  layer_bytes = weights;
  output_bytes = output;
}

abbrev device : ℕ → GpuDevice
device bytes = record {
  name = "GPU";
  description = "test GPU";
  kind = "gpu";
  total_memory = bytes;
  free_memory = bytes;
}

uneven_layers :
    build whole_floats (inventory (800 ∷ 100 ∷ 100 ∷ []) 0) 0 (device 900 ∷ device 300 ∷ []) 0
    ≡ planned (record { layers = 1 ∷ 3 ∷ [] })
unfolding build supported count_allowed budget kv_per_layer place
uneven_layers = refl

large_output :
    build whole_floats
      (inventory (100 ∷ 100 ∷ 100 ∷ 100 ∷ []) 700)
      0
      (device 400 ∷ device 900 ∷ [])
      0
    ≡ planned (record { layers = 3 ∷ 2 ∷ [] })
unfolding build supported count_allowed budget kv_per_layer place
large_output = refl

large_output_reversed :
    build whole_floats
      (inventory (100 ∷ 100 ∷ 100 ∷ 100 ∷ []) 700)
      0
      (device 900 ∷ device 400 ∷ [])
      0
    ≡ does_not_fit
unfolding build supported count_allowed budget kv_per_layer place
large_output_reversed = refl

abbrev three_layers : ModelInventory
three_layers = inventory (800 ∷ 100 ∷ 100 ∷ []) 0

abbrev gpus : List GpuDevice
gpus = device 900 ∷ device 300 ∷ []

abbrev small_model : ModelInventory
small_model = inventory (100 ∷ 100 ∷ 100 ∷ 100 ∷ []) 700

abbrev reversed : List GpuDevice
reversed = device 900 ∷ device 400 ∷ []

three_layers-supported : supported three_layers ≡ true
unfolding supported
three_layers-supported = refl

two_gpus_allowed : count_allowed 2 3 ≡ true
unfolding count_allowed
two_gpus_allowed = refl

three_layers_placed : IsPlacement three_layers 0 gpus 0 (1 ∷ 2 ∷ [])
unfolding budget kv_per_layer
three_layers_placed =
    (omega arith, omega arith, omega arith, (omega arith, omega arith, omega arith, refl))

build_sound_example :
    (sizes : List ℕ) × IsPlacement three_layers 0 gpus 0 sizes
    × (bump_last sizes ≡ some (1 ∷ 3 ∷ []))
build_sound_example =
    build_sound whole_floats three_layers 0 gpus 0 (record { layers = 1 ∷ 3 ∷ [] }) uneven_layers

build_complete_example :
    Plans whole_floats
      (kv_per_layer three_layers.facts 0)
      0
      (800 ∷ 100 ∷ 100 ∷ [])
      (map (budget 0) gpus)
      (build whole_floats three_layers 0 gpus 0)
build_complete_example =
    build_complete whole_floats three_layers 0 gpus 0 (1 ∷ 2 ∷ []) three_layers-supported
      two_gpus_allowed three_layers_placed

build_refusal_example : ¬ IsPlacement small_model 0 reversed 0 (3 ∷ 1 ∷ [])
build_refusal_example =
    build_refusal whole_floats small_model 0 reversed 0 large_output_reversed (3 ∷ 1 ∷ [])

build-ne-panicked_example : build whole_floats three_layers 0 gpus 0 ≢ panicked
build-ne-panicked_example = build-ne-panicked whole_floats three_layers 0 gpus 0

plan_shape_example :
    (sum (1 ∷ 3 ∷ []) ≡ length {A = ℕ} (800 ∷ 100 ∷ 100 ∷ []) + 1)
    × (length {A = ℕ} (1 ∷ 3 ∷ []) ≡ length gpus)
    × All (λ n. 0 < n) (1 ∷ 3 ∷ [])
plan_shape_example =
    plan_shape whole_floats three_layers 0 gpus 0 (record { layers = 1 ∷ 3 ∷ [] }) uneven_layers

used_fits : 700 ≤ budget 100 (device 900)
unfolding budget
used_fits = omega arith

small_fields : IsU32Model three_layers 2048
small_fields = record {
  kv_heads = omega arith;
  hidden_dim = omega arith;
  asked = omega arith;
  layer_bytes = (omega arith, (omega arith, (omega arith, tt)));
  output_bytes = omega arith;
}

prefix_no_overflow_example :
    get_or (prefix_from (kv_per_layer three_layers.facts 2048) 0 (800 ∷ 100 ∷ 100 ∷ [])) 2 0 + 0
    < 2 ^ 128
prefix_no_overflow_example =
    prefix_no_overflow three_layers 2048 2 small_fields three_layers-supported (omega arith)

has_head : content_inventory.facts.heads ≢ 0
has_head e = ground arith

abbrev second_spec : ShardSpec
second_spec = record {
  model_hash = "c0ffee";
  first_layer = 1;
  last_layer = 2;
  max_context = 128;
  kv_dtype = kv_f16;
  wire_dtype = f32;
}

abbrev second_layer : CandleShard remembering
second_layer = record {
  model = [];
  facts = content_inventory.facts;
  spec = second_spec;
  weight_bytes = 128;
  active = none;
  decodes = 0;
  decode_micros = 0;
}

second_opens : open_shard remembering content second_spec ≡ ok second_layer
unfolding open_shard read_facts string u32_at shard_weight_bytes blocks in_range block_of parse_uint
    quantized_of elem_count same_name strip_prefix digits
second_opens = refl

load_reported_example :
    (told : ShardStats) × (stats remembering second_layer ≡ some told)
    × ((told.weight_bytes + told.kv_bytes) % 2 ^ 64
        ≡ (load
              (kv_per_layer content_inventory.facts 128)
              (2 - 1)
              (drop 1 content_inventory.layer_bytes)
            + embedding 1 content.tensor_infos
            + head true (is_absent (info output content.tensor_infos)) content.tensor_infos)
          % 2 ^ 64)
load_reported_example =
    load_reported remembering content content_inventory second_spec second_layer inventory_read
      has_head refl second_opens
