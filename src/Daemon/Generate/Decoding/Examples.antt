-- ===== src/Daemon/Generate/Decoding/Examples.antt =====
-- crates/latticed/src/generate.rs: two layers here, or one here and one on a peer.
use mathlib.Core.Path.{subst}
use p2p_distributed_inferenc.Prelude.{
  ℕ, suc, ◌≤◌, All, drop, get_elem?, ◌+◌, ◌-◌, ◌%◌, ◌^◌, ◌<◌, ◌≡◌, refl, sym, ap, ◌∙◌, Option, none,
  some, List, [], ◌∷◌, arith, length,
}
use p2p_distributed_inferenc.Prelude.Order.{cmp_bytes}
use p2p_distributed_inferenc.Prelude.Results.{ok, err}
use p2p_distributed_inferenc.Engine.Dtype.{f32}
use p2p_distributed_inferenc.Engine.Metadata.{string, u32_at, read_facts, head_dim, kv_bytes}
use p2p_distributed_inferenc.Engine.TensorName.{block_of, parse_uint, strip_prefix, digits}
use p2p_distributed_inferenc.Engine.Abi.{activation, logits}
use p2p_distributed_inferenc.Daemon.Generate.Decoding.Sampling.{argmax-greatest}
use p2p_distributed_inferenc.Net.Bytes.{to_le_bytes, from_le_bytes}
use p2p_distributed_inferenc.Engine.Candle.{
  Library, open_shard, stats, shard_weight_bytes, blocks, in_range, quantized_of, elem_count,
  same_name, tensor_in, owns_embedding, payload_out, owns_head, to_tensor, from_tensor, run,
  prefill, decode, is_active, chunks4, le_bytes, values_of,
}
use p2p_distributed_inferenc.Engine.Candle.Composition.{Composes, IsHidden}
use p2p_distributed_inferenc.Engine.Candle.Examples.{content, inventory}
use p2p_distributed_inferenc.Net.Identity.{DeviceId}
use p2p_distributed_inferenc.Daemon.Node.Shard.{
  ModelFile, holding, load_job, load_shard, run_job, run_step, drop_job,
}
use p2p_distributed_inferenc.Daemon.Generate.{Host, Placement, check_tiling, check_from}
use p2p_distributed_inferenc.Daemon.Generate.Decoding
use p2p_distributed_inferenc.Daemon.Generate.Pipeline.{
  Options, Surroundings, Network, Stage, run_stage, run_stages, open_remote, open_stage,
  open_stages, open_pipeline,
}
use p2p_distributed_inferenc.Daemon.Generate.Decoding.{
  total_key, best_from, argmax, finish, decode_from, generate,
}
use p2p_distributed_inferenc.Daemon.Generate.Pipeline.Opening.{SameFile}
use p2p_distributed_inferenc.Daemon.Generate.Decoding.Whole.{SameOutcome}
use p2p_distributed_inferenc.Daemon.Generate.Decoding.Placed.{run-SameOutcome}

abbrev first_value : List ℕ → ℕ
first_value [] = 0
first_value (v ∷ values) = v

-- A library whose layers each add one.
abbrev adding : Library
adding = record {
  Tensor = List ℕ × (ℕ × ℕ × ℕ);
  of_tokens = λ ids. some (ids, (1, length ids, 1));
  from_vec = λ values dims. some (values, dims);
  dims3 = λ x. some x.1;
  f16_values = λ x. some x.0;
  f32_values = λ x. some x.0;
  to_f32 = λ v. v;
  Model = ℕ;
  from_gguf = λ content first last. some (last - first);
  forward = λ m x pos. (some ((first_value x.0 + m) % 2 ^ 32 ∷ 5 ∷ [], (1, 1, 2)), m);
  clear_kv_cache = λ m. m;
  Alike = λ m n. m ≡ n;
  alike_refl = λ m. refl;
  alike_trans = λ m n o p q. p ∙ q;
  forward-Alike =
      λ m n x pos e. ap (λ (k : ℕ). some ((first_value x.0 + k) % 2 ^ 32 ∷ 5 ∷ [], (1, 1, 2))) e;
  clear-Alike = λ m n e. e;
  clear-forward = λ m x pos. refl;
  clear_clear = λ m. refl;
}

adding-IsHidden : (v : ℕ) → IsHidden adding (v % 2 ^ 32 ∷ 5 ∷ [], (1, 1, 2))
adding-IsHidden v = record {
  n_tokens = 1;
  hidden_dim = 2;
  values = v % 2 ^ 32 ∷ 5 ∷ [];
  dims = refl;
  flat = refl;
  full = refl;
  words = (omega arith, (omega arith, tt));
  n_tokens_lt = omega arith;
  hidden_dim_lt = omega arith;
  size_lt = omega arith;
  rebuilt = refl;
}

adding_twice : (v m n : ℕ) → (v + (m + n)) % 2 ^ 32 ≡ ((v + m) % 2 ^ 32 + n) % 2 ^ 32
adding_twice v m n = omega arith

from_gguf_joined :
    (a b c m n : ℕ)
    → a < b
    → b < c
    → ◌≡◌ {A = Option ℕ} (some (b - a)) (some m)
    → ◌≡◌ {A = Option ℕ} (some (c - b)) (some n)
    → (o : ℕ) × (◌≡◌ {A = Option ℕ} (some (c - a)) (some o)) × (m + n ≡ o)
from_gguf_joined a b c m n h k e f =
    let p : b - a ≡ m = cc in let q : c - b ≡ n = cc in (c - a, refl, omega arith)

forward_joined :
    (m n o : ℕ) (x y : adding.Tensor) (pos : ℕ)
    → m + n ≡ o
    → (adding.forward m x pos).0 ≡ some y
    → IsHidden adding y × ((adding.forward o x pos).0 ≡ (adding.forward n y pos).0) × (m + n ≡ o)
forward_joined m n o x y pos j e =
    let it : ◌≡◌ {A = adding.Tensor} ((first_value x.0 + m) % 2 ^ 32 ∷ 5 ∷ [], (1, 1, 2)) y = cc in
    subst
      (λ (z : adding.Tensor).
        IsHidden adding z × ((adding.forward o x pos).0 ≡ (adding.forward n z pos).0) × (m + n ≡ o))
      it
      (
        adding-IsHidden (first_value x.0 + m),
        ap (λ (w : ℕ). some (w ∷ 5 ∷ [], (1, 1, 2)))
            (ap (λ k. (first_value x.0 + k) % 2 ^ 32) (sym j) ∙ adding_twice (first_value x.0) m n),
        j,
      )

adding_Composes : Composes adding
adding_Composes = record {
  Joined = λ m n o. m + n ≡ o;
  from_gguf-Joined = λ content a b c m n h k e f. from_gguf_joined a b c m n h k e f;
  clear-Joined = λ m n o j. j;
  forward-Joined = λ m n o x y pos j e. forward_joined m n o x y pos j e;
  forward_fails = λ m n o x pos j e. absurd cc;
}

abbrev file : ModelFile
file = record { hash = some "c0ffee"; content = some content }

abbrev around : Surroundings
around = record { display = λ e. "error"; elapsed = λ session step. 1; models = λ id. some file }

abbrev other_device : DeviceId
other_device = 1 ∷ 2 ∷ 3 ∷ 4 ∷ 5 ∷ 6 ∷ 7 ∷ 8 ∷ []

abbrev place : ℕ → ℕ → Host → Placement
place first last host = record { first_layer = first; last_layer = last; host = host }

abbrev options : Options
options = record {
  max_new = 3;
  max_context = 128;
  places = place 0 1 Host.here ∷ place 1 2 (Host.peer other_device) ∷ [];
  wire_dtype = f32;
}

abbrev alone : List Placement
alone = place 0 2 Host.here ∷ []

abbrev network : Network adding
network id = some (holding none)

same_file : SameFile "c0ffee" content around.models
same_file id found h e f g =
    let it : file ≡ found = cc in ap (λ (x : ModelFile). x.content) (sym it)

abbrev stages_of : List Placement → List (Stage adding)
stages_of places =
    elim (open_pipeline adding around (some "c0ffee") content inventory.facts
      (record options { places = places }) network).0 [ ok stages ↦ stages | err e ↦ [] ]

opens :
    (open_pipeline adding around (some "c0ffee") content inventory.facts options network).0
    ≡ ok (stages_of options.places)
unfolding open_pipeline check_tiling check_from open_stages open_stage open_remote load_shard
    load_job open_shard stats kv_bytes head_dim read_facts string u32_at shard_weight_bytes blocks
    in_range block_of parse_uint quantized_of elem_count same_name strip_prefix digits cmp_bytes
opens = refl

opens_alone :
    (open_pipeline adding around
      (some "c0ffee")
      content
      inventory.facts
      (record options { places = alone })
      network).0
    ≡ ok (stages_of alone)
unfolding open_pipeline check_tiling check_from open_stages open_stage open_shard stats kv_bytes
    head_dim read_facts string u32_at shard_weight_bytes blocks in_range block_of parse_uint
    quantized_of elem_count same_name strip_prefix digits cmp_bytes
opens_alone = refl

facts_read : read_facts content.metadata ≡ ok inventory.facts
unfolding read_facts string u32_at
facts_read = refl

run-SameOutcome_example :
    SameOutcome
      (Decoding.run adding around file (3 ∷ []) options network).0
      (Decoding.run adding around file (3 ∷ []) (record options { places = alone }) network).0
run-SameOutcome_example =
    run-SameOutcome adding adding_Composes around file "c0ffee" content inventory.facts (3 ∷ [])
      options alone network network (stages_of options.places) (stages_of alone) refl refl
      facts_read (omega arith) (omega arith) refl same_file (tt, (tt, tt)) (tt, tt) opens
      opens_alone

printed : (Decoding.run adding around file (3 ∷ []) options network).0 ≡ ok (1 ∷ 1 ∷ 1 ∷ [])
unfolding Decoding.run open_pipeline check_tiling check_from open_stages open_stage open_remote
    load_shard load_job open_shard stats kv_bytes head_dim read_facts string u32_at
    shard_weight_bytes blocks in_range block_of parse_uint quantized_of elem_count same_name
    strip_prefix digits cmp_bytes generate decode_from run_stages run_stage argmax best_from
    total_key run_job run_step prefill decode run tensor_in owns_embedding payload_out owns_head
    to_tensor from_tensor is_active chunks4 le_bytes values_of finish drop_job activation
    to_le_bytes from_le_bytes
printed = refl

argmax-greatest_example :
    (i : ℕ) × (v : ℕ) × (argmax (logits (5 ∷ 7 ∷ 7 ∷ [])) ≡ ok i)
    × (get_elem? (5 ∷ 7 ∷ 7 ∷ []) i ≡ some v)
    × All (λ w. total_key w ≤ total_key v) (5 ∷ 7 ∷ 7 ∷ [])
    × All (λ w. total_key w < total_key v) (drop (suc i) (5 ∷ 7 ∷ 7 ∷ []))
argmax-greatest_example = argmax-greatest 5 (7 ∷ 7 ∷ []) (omega arith)
