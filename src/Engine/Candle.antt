-- ===== src/Engine/Candle.antt =====
-- crates/lattice-engine/src/candle.rs: a shard over candle, one session at a time. The model with its
-- caches is the fork of candle's in llama.rs, a library here, and so are tensors and half floats.
pub mod Sessions
pub mod Boundary
pub mod Weights
pub mod Composition
pub mod Halves
pub mod Recounted
pub mod Opened
pub mod Examples
use Prim.Native.String.{String}
use text.Mathlib.Text as Text
use p2p_distributed_inferenc.Prelude.{
  ℕ, zero, suc, ◌+◌, ◌-◌, ◌*◌, ◌/◌, ◌%◌, ◌^◌, ◌≡◌, Bool, true, false, not, ◌&&◌, ◌||◌, Option, none,
  some, List, [], ◌∷◌, ◌++◌, map, ltb, leb, ◌==◌, if◌then◌else◌, sum, retain, find,
}
use mathlib.Core.Option
use p2p_distributed_inferenc.Net.Bytes.{to_le_bytes, from_le_bytes}
use p2p_distributed_inferenc.Engine.Dtype.{WireDtype, f16, f32}
use p2p_distributed_inferenc.Engine.Error.{
  Result, ok, err, ◌>>=◌, ◌>>◌, guard, or_fail, unsupported_arch, unsupported_range, wrong_payload,
  unknown_session, engine, tensor_library,
}
use p2p_distributed_inferenc.Engine.Abi.{
  Activation, activation, Payload, tokens, hidden, logits, kind, ShardSpec, layers, ShardStats,
}
use p2p_distributed_inferenc.Engine.Facts.{ModelFacts}
use p2p_distributed_inferenc.Engine.Metadata.{read_facts, kv_bytes}
use p2p_distributed_inferenc.Engine.TensorName.{block_of}
use p2p_distributed_inferenc.Engine.Inventory.{TensorInfo, Content}

-- What the shard uses of candle and half. A float is its bits. Two models are alike where they hold
-- the same weights and caches; the masks that a model remembers tell nothing. Clearing the caches
-- undoes what running the model did to them.
pub record Library : Type 1 where
  pub Tensor : Type 0
  pub of_tokens : List ℕ → Option Tensor
  pub from_vec : List ℕ → ℕ × ℕ × ℕ → Option Tensor
  pub dims3 : Tensor → Option (ℕ × ℕ × ℕ)
  pub f16_values : Tensor → Option (List ℕ)
  pub f32_values : Tensor → Option (List ℕ)
  pub to_f32 : ℕ → ℕ
  pub Model : Type 0
  pub from_gguf : Content → ℕ → ℕ → Option Model
  pub forward : Model → Tensor → ℕ → Option Tensor × Model
  pub clear_kv_cache : Model → Model
  pub Alike : Model → Model → Type 0
  pub alike_refl : (m : Model) → Alike m m
  pub alike_trans : (m n o : Model) → Alike m n → Alike n o → Alike m o
  pub forward-Alike :
      (m n : Model) (x : Tensor) (pos : ℕ) → Alike m n → (forward m x pos).0 ≡ (forward n x pos).0
  pub clear-Alike : (m n : Model) → Alike m n → Alike (clear_kv_cache m) (clear_kv_cache n)
  pub clear-forward :
      (m : Model) (x : Tensor) (pos : ℕ)
      → Alike (clear_kv_cache (forward m x pos).1) (clear_kv_cache m)
  pub clear_clear : (m : Model) → Alike (clear_kv_cache (clear_kv_cache m)) (clear_kv_cache m)

-- `in_range`
unfoldable pub in_range : ℕ → ℕ → Option (Option ℕ) → Bool
in_range first last none = false
in_range first last (some none) = false
in_range first last (some (some index)) = leb first index && ltb index last

-- `elem_count() / block_size() * type_size()`, in a usize.
unfoldable pub elem_count : ℕ → List ℕ → ℕ
elem_count n [] = n
elem_count n (d ∷ dims) = elem_count (n * d % 2 ^ 64) dims

unfoldable pub quantized_of : TensorInfo → ℕ
quantized_of t = elem_count 1 t.dims / t.ggml_dtype.block_size * t.ggml_dtype.type_size % 2 ^ 64

unfoldable pub same_name : List ℕ → List ℕ → Bool
same_name [] [] = true
same_name [] (y ∷ ys) = false
same_name (x ∷ xs) [] = false
same_name (x ∷ xs) (y ∷ ys) = let rest = same_name xs ys in x == y && rest

-- `tensor_infos.get(name)`
abbrev pub info : List ℕ → List TensorInfo → Option TensorInfo
info name = find (λ t. same_name t.name name)

abbrev pub map_or : Option TensorInfo → (TensorInfo → ℕ) → ℕ
map_or none f = 0
map_or (some t) f = f t

-- The names of the tensors outside the blocks.
abbrev pub token_embd : List ℕ
token_embd =
    116 ∷ 111 ∷ 107 ∷ 101 ∷ 110 ∷ 95 ∷ 101 ∷ 109 ∷ 98 ∷ 100 ∷ 46 ∷ 119 ∷ 101 ∷ 105 ∷ 103 ∷ 104 ∷ 116
    ∷ []

abbrev pub output_norm : List ℕ
output_norm =
    111 ∷ 117 ∷ 116 ∷ 112 ∷ 117 ∷ 116 ∷ 95 ∷ 110 ∷ 111 ∷ 114 ∷ 109 ∷ 46 ∷ 119 ∷ 101 ∷ 105 ∷ 103
    ∷ 104 ∷ 116 ∷ []

abbrev pub output : List ℕ
output = 111 ∷ 117 ∷ 116 ∷ 112 ∷ 117 ∷ 116 ∷ 46 ∷ 119 ∷ 101 ∷ 105 ∷ 103 ∷ 104 ∷ 116 ∷ []

-- `blocks`: each key's tensor is its own entry. The sums of u64 wrap around.
unfoldable pub blocks : ℕ → ℕ → List TensorInfo → ℕ
blocks first last infos =
    sum (map quantized_of (retain (λ t. in_range first last (block_of (2 ^ 32) t.name)) infos))
    % 2 ^ 64

abbrev pub embedding : ℕ → List TensorInfo → ℕ
embedding zero infos = map_or (info token_embd infos) (λ t. elem_count 1 t.dims * 4 % 2 ^ 64)
embedding (suc first) infos = 0

abbrev pub is_absent : Option TensorInfo → Bool
is_absent none = true
is_absent (some t) = false

abbrev pub head : Bool → Bool → List TensorInfo → ℕ
head false tied infos = 0
head true false infos =
    map_or (info output_norm infos) quantized_of + map_or (info output infos) quantized_of
head true true infos =
    map_or (info output_norm infos) quantized_of + map_or (info token_embd infos) quantized_of

unfoldable pub shard_weight_bytes : Content → ShardSpec → ℕ → ℕ
shard_weight_bytes content spec layers =
    (blocks spec.first_layer spec.last_layer infos
      + embedding spec.first_layer infos
      + head (spec.last_layer == layers) (is_absent (info output infos)) infos)
    % 2 ^ 64
  where
    open content use {tensor_infos as infos}

-- `chunks_exact(n)`, by rounds: bytes that do not fill a chunk are left out.
unfoldable pub chunks4 : List ℕ → List ℕ
chunks4 (a ∷ b ∷ c ∷ d ∷ rest) = from_le_bytes (a ∷ b ∷ c ∷ d ∷ []) ∷ chunks4 rest
chunks4 _ = []

unfoldable pub chunks2 : List ℕ → List ℕ
chunks2 (a ∷ b ∷ rest) = from_le_bytes (a ∷ b ∷ []) ∷ chunks2 rest
chunks2 _ = []

-- `flat_map(to_le_bytes)`
unfoldable pub le_bytes : ℕ → List ℕ → List ℕ
le_bytes width [] = []
le_bytes width (v ∷ values) = to_le_bytes width v ++ le_bytes width values

module _ (lib : Library) where
  open lib use {Tensor, of_tokens, from_vec, dims3, f16_values, f32_values, to_f32}

  unfoldable pub values_of : WireDtype → List ℕ → List ℕ
  values_of f16 bytes = map to_f32 (chunks2 bytes)
  values_of f32 bytes = chunks4 bytes

  unfoldable pub to_tensor : Activation → Result Tensor
  to_tensor a =
      or_fail (engine tensor_library)
        (from_vec (values_of a.dtype a.bytes) (1, a.n_tokens, a.hidden_dim))

  abbrev pub bytes_in : WireDtype → Tensor → Option (List ℕ)
  bytes_in f16 out = Option.map (le_bytes 2) (f16_values out)
  bytes_in f32 out = Option.map (le_bytes 4) (f32_values out)

  unfoldable pub from_tensor : Tensor → WireDtype → Result Activation
  from_tensor out dtype = do
    (batch, n_tokens, hidden_dim) ← or_fail (engine tensor_library) (dims3 out)
    bytes ← or_fail (engine tensor_library) (bytes_in dtype out)
    activation (n_tokens % 2 ^ 32) (hidden_dim % 2 ^ 32) dtype bytes

  pub record CandleShard : Type 0 where
    pub model : lib.Model
    pub facts : ModelFacts
    pub spec : ShardSpec
    pub weight_bytes : ℕ
    pub active : Option ℕ
    pub decodes : ℕ
    pub decode_micros : ℕ

  -- `CandleShard::open`, of the file that candle has parsed.
  unfoldable pub open_shard : Content → ShardSpec → Result CandleShard
  open_shard content spec = do
    facts ← read_facts content.metadata
    guard (Text.◌==◌ facts.arch "llama") (unsupported_arch facts.arch)
    guard (leb spec.last_layer facts.layers && leb spec.first_layer spec.last_layer)
        (unsupported_range (spec.first_layer, spec.last_layer) facts.layers)
    model ← or_fail (engine tensor_library) (lib.from_gguf content spec.first_layer spec.last_layer)
    ok (record {
      model = model;
      facts = facts;
      spec = spec;
      weight_bytes = shard_weight_bytes content spec facts.layers;
      active = none;
      decodes = 0;
      decode_micros = 0;
    })

  unfoldable pub owns_embedding : ShardSpec → Bool
  owns_embedding spec = spec.first_layer == 0

  unfoldable pub owns_head : ShardSpec → ModelFacts → Bool
  owns_head spec facts = spec.last_layer == facts.layers

  -- The tensor that a payload is, for the end of the model that the shard holds.
  unfoldable pub tensor_in : ShardSpec → Payload → Bool → Result Tensor
  tensor_in spec (tokens ids) true = or_fail (engine tensor_library) (of_tokens ids)
  tensor_in spec (hidden a) false = to_tensor a
  tensor_in spec input _ = err (wrong_payload (spec.first_layer, spec.last_layer) (kind input))

  unfoldable pub payload_out : ShardSpec → ModelFacts → Tensor → Result Payload
  payload_out spec facts out =
      if not (owns_head spec facts)
      then from_tensor out spec.wire_dtype >>= (λ a. ok (hidden a))
      else or_fail (engine tensor_library) (Option.map logits (f32_values out))

  abbrev pub forwarded : CandleShard → Option Tensor × lib.Model → Result Payload × CandleShard
  forwarded c (out, m) =
      (or_fail (engine tensor_library) out >>= payload_out c.spec c.facts, record c { model = m })

  abbrev pub run_tensor : CandleShard → ℕ → Result Tensor → Result Payload × CandleShard
  run_tensor c pos (err e) = (err e, c)
  run_tensor c pos (ok x) = forwarded c (lib.forward c.model x pos)

  -- `run`, with the shard that it leaves.
  unfoldable pub run : Payload → ℕ → CandleShard → Result Payload × CandleShard
  run input pos c = run_tensor c pos (tensor_in c.spec input (owns_embedding c.spec))

  unfoldable pub is_active : ℕ → Option ℕ → Bool
  is_active session none = false
  is_active session (some s) = s == session

  unfoldable pub prefill : ℕ → ℕ → Payload → CandleShard → Result Payload × CandleShard
  prefill session pos_start input c = run input pos_start (
      if not (is_active session c.active) || pos_start == 0
      then record c { model = lib.clear_kv_cache c.model; active = some session }
      else c)

  -- The first decode is not timed. `micros` is what the clock says of this one.
  abbrev pub timed : ℕ → Result Payload × CandleShard → Result Payload × CandleShard
  timed micros (err e, c) = (err e, c)
  timed micros (ok out, c) = (
    ok out,
    record c {
      decodes = (c.decodes + 1) % 2 ^ 64;
      decode_micros =
          if ltb 1 ((c.decodes + 1) % 2 ^ 64)
          then (c.decode_micros + micros) % 2 ^ 64
          else c.decode_micros;
    },
  )

  unfoldable pub decode : ℕ → ℕ → ℕ → Payload → CandleShard → Result Payload × CandleShard
  decode micros session pos input c =
      if not (is_active session c.active)
      then (err (unknown_session session), c)
      else timed micros (run input pos c)

  unfoldable pub drop_session : ℕ → CandleShard → CandleShard
  drop_session session c =
      if is_active session c.active
      then record c { model = lib.clear_kv_cache c.model; active = none }
      else c

  abbrev pub mean : ℕ → ℕ → ℕ
  mean total n = if n == 0 then 0 else total / n

  abbrev pub stats_of : CandleShard → Option ℕ → Option ShardStats
  stats_of c none = none
  stats_of c (some kv) = some (record {
    sessions = elim c.active [ none ↦ 0 | some _ ↦ 1 ];
    kv_bytes = kv;
    weight_bytes = c.weight_bytes;
    decode_micros = mean c.decode_micros (c.decodes - 1);
  })

  -- `stats`; a model without heads panics.
  unfoldable pub stats : CandleShard → Option ShardStats
  stats c = stats_of c (kv_bytes c.facts (layers c.spec) c.spec.max_context c.spec.kv_dtype)
