-- ===== src/Engine/Inventory.antt =====
-- crates/lattice-engine/src/facts.rs: `ModelInventory::read`, what each layer of a model weighs.
pub mod Accounts
use Prim.Native.String.{String}
use text.Mathlib.Text as Text
use p2p_distributed_inferenc.Prelude.{
  ℕ, zero, suc, ◌+◌, ◌*◌, ◌/◌, ◌%◌, ◌^◌, Bool, true, false, not, ◌&&◌, ◌||◌, Option, none, some,
  List, [], ◌∷◌, ltb, leb, ◌==◌, if◌then◌else◌,
}
use p2p_distributed_inferenc.Engine.Error.{
  Result, ok, err, ◌>>=◌, ◌>>◌, guard, or_fail, unsupported_arch, engine, invalid, split_file,
  layer_count, missing_weights,
}
use p2p_distributed_inferenc.Engine.Facts.{ModelFacts, ModelInventory}
use p2p_distributed_inferenc.Engine.Metadata.{Metadata, Value, u32_at, read_facts}
use p2p_distributed_inferenc.Engine.TensorName.{block_of}

-- `ggml_dtype` as candle describes it: how many elements a block has, and how many bytes.
pub record GgmlDtype : Type 0 where
  pub block_size : ℕ
  pub type_size : ℕ

pub record TensorInfo : Type 0 where
  pub name : List ℕ
  pub dims : List ℕ
  pub ggml_dtype : GgmlDtype

-- `gguf_file::Content`; the tensors stand in the order in which the map gives them.
pub record Content : Type 0 where
  pub metadata : Metadata
  pub tensor_infos : List TensorInfo

abbrev pub fits_u64 : ℕ → Option ℕ
fits_u64 n = if ltb n (2 ^ 64) then some n else none

abbrev pub times : ℕ → Option ℕ → Option ℕ
times d none = none
times d (some n) = fits_u64 (n * d)

-- `try_fold(1, checked_mul)`
unfoldable pub elements_from : Option ℕ → List ℕ → Option ℕ
elements_from n [] = n
elements_from n (d ∷ dims) = elements_from (times d n) dims

abbrev pub whole_blocks : GgmlDtype → Option ℕ → Option ℕ
whole_blocks dtype none = none
whole_blocks dtype (some n) =
    if n == 0 || not (n % dtype.block_size == 0)
    then none
    else fits_u64 (n / dtype.block_size * dtype.type_size)

-- The bytes of a tensor, where its shape is valid.
unfoldable pub tensor_bytes : TensorInfo → Option ℕ
tensor_bytes t = whole_blocks t.ggml_dtype (elements_from (some 1) t.dims)

-- `checked_add`
abbrev pub checked_add : ℕ → ℕ → Option ℕ
checked_add a b = fits_u64 (a + b)

abbrev pub put : ℕ → Option (List ℕ) → Option (List ℕ)
put x none = none
put x (some xs) = some (x ∷ xs)

abbrev pub replace : Option ℕ → List ℕ → Option (List ℕ)
replace none xs = none
replace (some x) xs = some (x ∷ xs)

-- `get_mut(index)`, and the checked sum at its place.
unfoldable pub add_at : ℕ → ℕ → List ℕ → Option (List ℕ)
add_at i bytes [] = none
add_at zero bytes (x ∷ xs) = replace (checked_add x bytes) xs
add_at (suc i) bytes (x ∷ xs) = put x (add_at i bytes xs)

-- The bytes of the layers, and of what is no layer's.
abbrev pub Sums : Type 0
Sums = List ℕ × ℕ

abbrev pub with_layers : ℕ → Option (List ℕ) → Option Sums
with_layers output none = none
with_layers output (some layers) = some (layers, output)

abbrev pub with_output : List ℕ → Option ℕ → Option Sums
with_output layers none = none
with_output layers (some output) = some (layers, output)

abbrev pub add_to : Option (Option ℕ) → ℕ → Sums → Option Sums
add_to none bytes (layers, output) = with_output layers (checked_add output bytes)
add_to (some none) bytes sums = none
add_to (some (some index)) bytes (layers, output) = with_layers output (add_at index bytes layers)

abbrev pub account_bytes : Option (Option ℕ) → Option ℕ → Sums → Option Sums
account_bytes place none sums = none
account_bytes place (some bytes) sums = add_to place bytes sums

-- One round of the loop over the tensors.
unfoldable pub account : TensorInfo → Sums → Option Sums
account t sums = account_bytes (block_of (2 ^ 64) t.name) (tensor_bytes t) sums

unfoldable pub account_each : List TensorInfo → Sums → Result Sums
account_each [] sums = ok sums
account_each (t ∷ tensors) sums =
    or_fail (engine (invalid t.name)) (account t sums) >>= account_each tensors

unfoldable pub zeros : ℕ → List ℕ
zeros zero = []
zeros (suc n) = 0 ∷ zeros n

unfoldable pub contains_zero : List ℕ → Bool
contains_zero [] = false
contains_zero (x ∷ xs) = x == 0 || contains_zero xs

-- The guard on `split.count`.
abbrev pub not_split : Metadata → Option Value → Result (Unit {0})
not_split metadata none = ok tt
not_split metadata (some _) = do
  count ← u32_at metadata "split.count"
  guard (leb count 1) (engine split_file)

-- `ModelInventory::read`
unfoldable pub read : Content → Result ModelInventory
read content = do
  not_split content.metadata (content.metadata "split.count")
  facts ← read_facts content.metadata
  guard (Text.◌==◌ facts.arch "llama") (unsupported_arch facts.arch)
  guard (not (facts.layers == 0) && leb facts.layers 4096) (engine layer_count)
  sums ← account_each content.tensor_infos (zeros facts.layers, 0)
  guard (not (contains_zero sums.0)) (engine missing_weights)
  ok (record { facts = facts; layer_bytes = sums.0; output_bytes = sums.1 })
