-- ===== src/Engine/Candle/Weights.antt =====
-- crates/lattice-engine: what a shard says that it holds, against what the planner took it to hold.
use mathlib.Core.Path.{fun_ext}
use p2p_distributed_inferenc.Prelude.{
  ℕ, zero, suc, ◌+◌, ◌-◌, ◌*◌, ◌/◌, ◌%◌, ◌^◌, ◌≤◌, ◌<◌, ◌≡◌, refl, sym, ap, ◌∙◌, inl, inr, true,
  not, ◌&&◌, ◌||◌, Option, none, some, List, [], ◌∷◌, map, arith, ltb, leb, ◌==◌, if◌then◌else◌,
  get_or, take, drop, sum, retain, Bool-cases, Option-cases,
}
use p2p_distributed_inferenc.Engine.Error.{ok}
use p2p_distributed_inferenc.Engine.Facts.{ModelInventory}
use p2p_distributed_inferenc.Engine.TensorName.{
  strip_prefix, blk, first_part, unsigned, without_plus, below, parse_uint, block_of,
}
use p2p_distributed_inferenc.Engine.Inventory.{
  TensorInfo, Content, fits_u64, elements_from, tensor_bytes, Sums, account, account_each, read,
}
use p2p_distributed_inferenc.Engine.Inventory.Accounts.{
  bytes_of, layer_share, place_of, layer_weight, read-IsWeighed, read-account_each,
}
use p2p_distributed_inferenc.Engine.Candle.{in_range, elem_count, quantized_of, blocks}

elements_from-none : (dims : List ℕ) (m : ℕ) → elements_from none dims ≡ some m → ⊥
unfolding elements_from
elements_from-none [] m h = cc
elements_from-none (d ∷ dims) m h = elements_from-none dims m h

elem_count_of_elements :
    (n m : ℕ) (dims : List ℕ) → elements_from (some n) dims ≡ some m → elem_count n dims ≡ m
unfolding elements_from elem_count
elem_count_of_elements n m [] h = ground arith
elem_count_of_elements n m (d ∷ dims) h = elim (Bool-cases (ltb (n * d) (2 ^ 64))) [
  | inr big ↦ absurd (elements_from-none dims m (rw big at h))
  | inl small ↦
      let same : n * d % 2 ^ 64 ≡ n * d = ground arith in
      rw same (elem_count_of_elements (n * d) m dims (rw small at h))
]

-- A tensor that the inventory accepts weighs the same to the shard.
quantized_of_bytes :
    (t : TensorInfo) (bytes : ℕ) → tensor_bytes t ≡ some bytes → quantized_of t ≡ bytes
unfolding tensor_bytes quantized_of
quantized_of_bytes t bytes h = elim (Option-cases (elements_from (some 1) t.dims)) [
  | inl bad ↦ cc (rw bad at h)
  | inr (m, e) ↦
      rw (elem_count_of_elements 1 m t.dims e) (in_blocks m (t.ggml_dtype.block_size) (rw e at h))
]
  where
    in_blocks :
        (m size : ℕ)
        → (if m == 0 || not (m % size == 0)
            then none
            else fits_u64 (m / size * t.ggml_dtype.type_size))
          ≡ some bytes
        → m / size * t.ggml_dtype.type_size % 2 ^ 64 ≡ bytes
    in_blocks m size h = ground arith

accounted_bytes :
    (t : TensorInfo) (tensors : List TensorInfo) (before after : Sums)
    → account_each (t ∷ tensors) before ≡ ok after
    → (bytes : ℕ) × (next : Sums) × (tensor_bytes t ≡ some bytes)
      × (account_each tensors next ≡ ok after)
unfolding account_each account
accounted_bytes t tensors before after h = elim (Option-cases (tensor_bytes t)) [
  | inl bad ↦ cc (rw bad at h)
  | inr (bytes, e) ↦ elim (Option-cases (account t before)) [
    | inl bad ↦ cc (rw bad at h)
    | inr (next, f) ↦ (bytes, next, e, rw f at h)
  ]
]

-- The sum of `f` over `count` numbers from `first` on.
abbrev over : (ℕ → ℕ) → ℕ → ℕ → ℕ
over f first zero = 0
over f first (suc count) = f first + over f (first + 1) count

over-add :
    (f g : ℕ → ℕ) (first count : ℕ)
    → over (λ i. f i + g i) first count ≡ over f first count + over g first count
over-add f g first zero = omega arith
over-add f g first (suc count) = omega (arith, over-add f g (first + 1) count)

over_zero : (first count : ℕ) → over (λ i. 0) first count ≡ 0
over_zero first zero = refl
over_zero first (suc count) = omega (arith, over_zero (first + 1) count)

over_point :
    (j bytes first count : ℕ)
    → over (λ i. if j == i then bytes else 0) first count
      ≡ (if leb first j && ltb j (first + count) then bytes else 0)
over_point j bytes first zero = ground arith
over_point j bytes first (suc count) = ground (arith, over_point j bytes (first + 1) count)

sum_slice :
    (xs : List ℕ) (first count : ℕ)
    → sum (take count (drop first xs)) ≡ over (λ i. get_or xs i 0) first count
sum_slice xs first zero = refl
sum_slice [] first (suc count) = rw (drop_nil first) (nothing first (suc count))
  where
    drop_nil : (n : ℕ) → drop {A = ℕ} n [] ≡ []
    drop_nil zero = refl
    drop_nil (suc n) = refl

    nothing : (first count : ℕ) → 0 ≡ over (λ i. 0) first count
    nothing first zero = refl
    nothing first (suc count) = omega (arith, nothing (first + 1) count)
sum_slice (x ∷ xs) zero (suc count) = omega (arith, sum_slice xs zero count, shift 0 count)
  where
    shift :
        (first count : ℕ)
        → over (λ i. get_or (x ∷ xs) i 0) (first + 1) count ≡ over (λ i. get_or xs i 0) first count
    shift first zero = refl
    shift first (suc count) = ground (arith, shift (first + 1) count)
sum_slice (x ∷ xs) (suc first) (suc count) =
    sum_slice xs first (suc count) ∙ shift first (suc count)
  where
    shift :
        (first count : ℕ)
        → over (λ i. get_or xs i 0) first count ≡ over (λ i. get_or (x ∷ xs) i 0) (suc first) count
    shift first zero = refl
    shift first (suc count) = ground (arith, shift (first + 1) count)

below-in_range :
    (o : Option ℕ) (first last bytes : ℕ)
    → first ≤ last
    → last < 2 ^ 32
    → over (λ i. layer_share i (some (below (2 ^ 64) o)) bytes) first (last - first)
      ≡ (if in_range first last (some (below (2 ^ 32) o)) then bytes else 0)
unfolding in_range
below-in_range none first last bytes le small = over_zero first (last - first)
below-in_range (some j) first last bytes le small = elim (Bool-cases (ltb j (2 ^ 32))) [
  | inl low ↦
      let fits : ltb j (2 ^ 64) ≡ true = ground arith in
      rw (fits, low) (ground (arith, over_point j bytes first (last - first)))
  | inr high ↦ rw high (elim (Bool-cases (ltb j (2 ^ 64))) [
    | inl fits ↦ rw fits (ground (arith, over_point j bytes first (last - first)))
    | inr over ↦ rw over (over_zero first (last - first))
  ])
]

-- A block number is read the same below 2^32 and below 2^64, for a range of layers below 2^32.
share_in_range :
    (t : TensorInfo) (first last bytes : ℕ)
    → first ≤ last
    → last < 2 ^ 32
    → over (λ i. layer_share i (place_of t) bytes) first (last - first)
      ≡ (if in_range first last (block_of (2 ^ 32) t.name) then bytes else 0)
unfolding block_of parse_uint in_range
share_in_range t first last bytes le small = elim (Option-cases (strip_prefix blk t.name)) [
  | inl other ↦ rw other (over_zero first (last - first))
  | inr (rest, e) ↦
      rw e (below-in_range (unsigned (without_plus (first_part rest))) first last bytes le small)
]

over-layer_weight :
    (t : TensorInfo) (tensors : List TensorInfo) (first count : ℕ)
    → over (λ i. layer_weight i (t ∷ tensors)) first count
      ≡ over (λ i. layer_share i (place_of t) (bytes_of (tensor_bytes t))) first count
        + over (λ i. layer_weight i tensors) first count
over-layer_weight t tensors first count =
    over-add (λ i. layer_share i (place_of t) (bytes_of (tensor_bytes t)))
      (λ i. layer_weight i tensors) first count

blocks_of_weights :
    (tensors : List TensorInfo) (before after : Sums) (first last : ℕ)
    → account_each tensors before ≡ ok after
    → first ≤ last
    → last < 2 ^ 32
    → sum (map quantized_of (retain (λ t. in_range first last (block_of (2 ^ 32) t.name)) tensors))
      ≡ over (λ i. layer_weight i tensors) first (last - first)
blocks_of_weights [] before after first last h le small = sym (over_zero first (last - first))
blocks_of_weights (t ∷ tensors) before after first last h le small =
    let (bytes, next, e, rest) = accounted_bytes t tensors before after h in
    let ih = blocks_of_weights tensors next after first last rest le small in
    let share = share_in_range t first last bytes le small in
    let split = over-layer_weight t tensors first (last - first) in
    rw split (
      rw e (elim (Bool-cases (in_range first last (block_of (2 ^ 32) t.name))) [
        | inl hit ↦
            let held : over (λ i. layer_share i (place_of t) bytes) first (last - first) ≡ bytes =
              rw hit at share in
            rw hit (omega (arith, quantized_of_bytes t bytes e, ih, held))
        | inr miss ↦
            let held : over (λ i. layer_share i (place_of t) bytes) first (last - first) ≡ 0 =
              rw miss at share in
            rw miss (omega (arith, ih, held))
      ]))

-- What a shard of the layers from `first` to `last` counts for its blocks is the sum of those layers in
-- the inventory that the planner placed it by, up to the wrap-around of a u64.
pub blocks-layer_bytes :
    (content : Content) (inventory : ModelInventory) (first last : ℕ)
    → read content ≡ ok inventory
    → first ≤ last
    → last ≤ inventory.facts.layers
    → blocks first last content.tensor_infos
      ≡ sum (take (last - first) (drop first inventory.layer_bytes)) % 2 ^ 64
unfolding blocks
blocks-layer_bytes content inventory first last h le hi =
    let w = read-IsWeighed content inventory h in
    let (before, after, accounted) = read-account_each content inventory h in
    let pointwise : (λ (i : ℕ). get_or inventory.layer_bytes i 0)
        ≡ (λ (i : ℕ). layer_weight i content.tensor_infos) =
      fun_ext w.layer in
    ap (λ (n : ℕ). n % 2 ^ 64)
      (blocks_of_weights content.tensor_infos before after first last accounted le
          (omega (arith, w.bounded))
        ∙ rw (sum_slice inventory.layer_bytes first (last - first)) (rw pointwise refl))
