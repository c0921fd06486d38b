-- ===== src/Daemon/Planner/Reported.antt =====
-- crates/latticed/src/chat/plan.rs and crates/lattice-engine: the load that the planner charges a GPU
-- for, and the memory that the shard of those layers reports.
use native.Mathlib.Nat.{mul-zero, mul-suc, mul_comm, mul_assoc, add-mod, mod-mod}
use p2p_distributed_inferenc.Prelude.{
  ℕ, zero, suc, ◌+◌, ◌-◌, ◌*◌, ◌/◌, ◌%◌, ◌^◌, ◌≡◌, refl, sym, ap, ◌∙◌, ◌≢◌, inl, inr, false, some,
  arith, ◌==◌, drop, take, sum, leb→le, Option-cases,
}
use p2p_distributed_inferenc.Engine.Abi.{ShardSpec, layers, ShardStats}
use p2p_distributed_inferenc.Engine.Dtype.{kv_f16}
use p2p_distributed_inferenc.Engine.Error.{ok}
use p2p_distributed_inferenc.Engine.Facts.{ModelFacts, ModelInventory}
use p2p_distributed_inferenc.Engine.Metadata.{head_dim, kv_bytes}
use p2p_distributed_inferenc.Engine.Inventory.{Content, read}
use p2p_distributed_inferenc.Engine.Inventory.Accounts.{read-read_facts}
use p2p_distributed_inferenc.Engine.Candle.{
  Library, CandleShard, shard_weight_bytes, embedding, head, is_absent, info, output, open_shard,
  stats,
}
use p2p_distributed_inferenc.Engine.Candle.Opened.{open_shard-IsOpened}
use p2p_distributed_inferenc.Engine.Candle.Weights.{blocks-layer_bytes}
use p2p_distributed_inferenc.Daemon.Planner.{kv_per_layer}
use p2p_distributed_inferenc.Daemon.Planner.Placement.{load}

mod-mul-mod : (a b m : ℕ) → (a % m) * b % m ≡ a * b % m
mod-mul-mod a zero m = rw (mul-zero, mul-zero) refl
mod-mul-mod a (suc b) m =
    rw (mul-suc, mul-suc, add-mod ((a % m) * b) (a % m) m, mod-mul-mod a b m, mod-mod)
      (sym (add-mod (a * b) a m))

reorder : (k d context n : ℕ) → 2 * k * d * context * n * 2 ≡ n * (4 * k * d * context)
reorder k d context n =
    let x = k * d * context * n in
    let left : 2 * k * d * context * n ≡ 2 * x =
      rw (mul_assoc 2 k d, mul_assoc 2 (k * d) context, mul_assoc 2 (k * d * context) n) refl in
    let right : 4 * k * d * context * n ≡ 4 * x =
      rw (mul_assoc 4 k d, mul_assoc 4 (k * d) context, mul_assoc 4 (k * d * context) n) refl in
    rw (mul_comm n (4 * k * d * context), right, left) (omega arith)

kv_wraps :
    (m k d context n : ℕ)
    → ((((2 * k % m) * d % m) * context % m) * n % m) * 2 % m ≡ n * (4 * k * d * context) % m
kv_wraps m k d context n =
    rw
      (
        mod-mul-mod (2 * k) d m,
        mod-mul-mod (2 * k * d) context m,
        mod-mul-mod (2 * k * d * context) n m,
        mod-mul-mod (2 * k * d * context * n) 2 m,
      )
      (ap (λ (x : ℕ). x % m) (reorder k d context n))

kv_bytes_lem :
    (facts : ModelFacts) (layers context : ℕ)
    → facts.heads ≢ 0
    → kv_bytes facts layers context kv_f16 ≡ some (layers * kv_per_layer facts context % 2 ^ 64)
unfolding kv_bytes head_dim kv_per_layer
kv_bytes_lem facts layers context ne =
    let some_head : (facts.heads == 0) ≡ false = ground arith in
    rw some_head
      (ap some (kv_wraps (2 ^ 64) facts.kv_heads (facts.hidden_dim / facts.heads) context layers))

wrapped : (s k e h m : ℕ) → ((((s % m) + e + h) % m) + (k % m)) % m ≡ (s + k + e + h) % m
wrapped s k e h m =
    let others = e + h + k in
    let left : (s % m + e + h) + k ≡ s % m + others = omega arith in
    let right : s + others ≡ s + k + e + h = omega arith in
    let joined : (s % m + others) % m ≡ (s + others) % m =
      rw (add-mod (s % m) others m, mod-mod s m) (sym (add-mod s others m)) in
    sym (add-mod (s % m + e + h) k m)
    ∙ ap (λ (x : ℕ). x % m) left
    ∙ joined
    ∙ ap (λ (x : ℕ). x % m) right

module _ (lib : Library) where
  stats-some :
      (shard : CandleShard lib) (kv : ℕ)
      → kv_bytes shard.facts (layers shard.spec) shard.spec.max_context shard.spec.kv_dtype
        ≡ some kv
      → (told : ShardStats) × (stats lib shard ≡ some told)
        × (told.weight_bytes ≡ shard.weight_bytes)
        × (told.kv_bytes ≡ kv)
  unfolding stats
  stats-some shard kv h = elim (Option-cases (stats lib shard)) [
    | inl dead ↦ absurd (cc (rw h at dead))
    | inr (told, e) ↦ let same = rw h at e in (told, e, ground arith, ground arith)
  ]

  -- A shard of the engine reports for its layers what the planner charges a GPU for them: the weights and
  -- the cache that its `stats` tell are together the load of those layers, and the embedding and the
  -- head where the shard has them, up to the wrap-around of a u64. The shard is opened with a cache of
  -- half floats on the file that the inventory was read from, of a model with heads.
  pub load_reported :
      (content : Content) (inventory : ModelInventory) (spec : ShardSpec) (shard : CandleShard lib)
      → read content ≡ ok inventory
      → inventory.facts.heads ≢ 0
      → spec.kv_dtype ≡ kv_f16
      → open_shard lib content spec ≡ ok shard
      → (told : ShardStats) × (stats lib shard ≡ some told)
        × ((told.weight_bytes + told.kv_bytes) % 2 ^ 64
            ≡ (load
                  (kv_per_layer inventory.facts spec.max_context)
                  (spec.last_layer - spec.first_layer)
                  (drop spec.first_layer inventory.layer_bytes)
                + embedding spec.first_layer content.tensor_infos
                + head
                    (spec.last_layer == inventory.facts.layers)
                    (is_absent (info output content.tensor_infos))
                    content.tensor_infos)
              % 2 ^ 64)
  unfolding shard_weight_bytes
  load_reported content inventory spec shard h ne half opens =
      let o = open_shard-IsOpened lib content spec shard opens in
      let facts : shard.facts ≡ inventory.facts =
        cc (o.read, read-read_facts content inventory h) in
      let n = spec.last_layer - spec.first_layer in
      let cached : kv_bytes shard.facts (layers shard.spec) shard.spec.max_context
            shard.spec.kv_dtype
          ≡ some (n * kv_per_layer inventory.facts spec.max_context % 2 ^ 64) =
        rw (facts, o.as_asked, half) (kv_bytes_lem inventory.facts n spec.max_context ne) in
      let (told, e, weight, kv) = stats-some shard _ cached in
      let blocks_are =
        blocks-layer_bytes content inventory spec.first_layer spec.last_layer h
          (leb→le spec.first_layer spec.last_layer o.ordered)
          (rw facts at (leb→le spec.last_layer shard.facts.layers o.in_model)) in
      (
        told,
        e,
        rw (weight, kv, o.weighed, facts, blocks_are)
            (wrapped (sum (take n (drop spec.first_layer inventory.layer_bytes)))
              (n * kv_per_layer inventory.facts spec.max_context)
              (embedding spec.first_layer content.tensor_infos)
              (head (spec.last_layer == inventory.facts.layers)
                (is_absent (info output content.tensor_infos)) content.tensor_infos)
              (2 ^ 64)),
      )
