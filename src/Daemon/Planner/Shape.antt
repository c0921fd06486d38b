-- ===== src/Daemon/Planner/Shape.antt =====
-- crates/latticed/src/chat/plan.rs: the shape of a plan, the memory that stays free, and the width of the planner's sums.
use native.Mathlib.Nat.{mul-le-mul, le_refl, le_of_lt}
use mathlib.Core.Option.{some-injective}
use p2p_distributed_inferenc.Prelude.{
  ℕ, zero, suc, ◌+◌, ◌*◌, ◌/◌, ◌^◌, ◌≤◌, ◌<◌, ◌≡◌, refl, true, some, List, [], ◌∷◌, map, arith,
  length, get_or, take, drop, sum, All, length-drop, length-map, inl, inr, min, Option-cases,
}
use p2p_distributed_inferenc.Engine.Facts.{ModelInventory}
use p2p_distributed_inferenc.Net.Control.{GpuDevice}
use p2p_distributed_inferenc.Daemon.Planner.{
  Floats, Plan, planned, supported, budget, kv_per_layer, prefix_from, bump_last, build,
}
use p2p_distributed_inferenc.Daemon.Planner.Scan.{prefix_at}
use p2p_distributed_inferenc.Daemon.Planner.Placement.{Placed}
use p2p_distributed_inferenc.Daemon.Planner.Correct.{build_sound}

module _ (kv output : ℕ) where
  Placed-shape :
      (budgets ls sizes : List ℕ)
      → Placed kv output budgets ls sizes
      → (sum sizes ≡ length ls) × (length sizes ≡ length budgets) × All (λ n. 0 < n) sizes
  Placed-shape [] ls [] h = (omega arith, refl, tt)
  Placed-shape [] ls (n ∷ sizes) h = absurd h
  Placed-shape (b ∷ rest) ls [] h = absurd h
  Placed-shape (b ∷ []) ls (n ∷ sizes) (pos, hi, fit, h) =
      let (total, count, all) = Placed-shape [] (drop n ls) sizes h in
      (omega (arith, length-drop n ls), omega arith, (pos, all))
  Placed-shape (b ∷ c ∷ rest) ls (n ∷ sizes) (pos, hi, fit, h) =
      let (total, count, all) = Placed-shape (c ∷ rest) (drop n ls) sizes h in
      (omega (arith, length-drop n ls), omega arith, (pos, all))

bump_last_shape :
    (sizes plan : List ℕ)
    → bump_last sizes ≡ some plan
    → All (λ n. 0 < n) sizes
    → (sum plan ≡ sum sizes + 1) × (length plan ≡ length sizes) × All (λ n. 0 < n) plan
unfolding bump_last
bump_last_shape [] plan h all = cc
bump_last_shape (n ∷ []) plan h all = ground arith
bump_last_shape (n ∷ m ∷ rest) plan h all = elim (Option-cases (bump_last (m ∷ rest))) [
  | inl e ↦ cc
  | inr (more, e) ↦
      let (total, count, rest_all) = bump_last_shape (m ∷ rest) more e all.1 in
      let p : n ∷ more ≡ plan = some-injective _ _ (rw e at h) in
      rw (← p) (omega arith, omega arith, (all.0, rest_all))
]

module _ (floats : Floats) (inventory : ModelInventory) (context : ℕ) (devices : List GpuDevice)
    (reserve : ℕ) where
  supported-length :
      supported inventory ≡ true → length inventory.layer_bytes ≡ inventory.facts.layers
  unfolding supported
  supported-length h = ground arith

  -- A plan gives every GPU at least one slot, and its slots are the model's layers and the output
  -- layer: one more than the layers.
  pub plan_shape :
      (plan : Plan)
      → build floats inventory context devices reserve ≡ planned plan
      → (sum plan.layers ≡ length inventory.layer_bytes + 1)
        × (length plan.layers ≡ length devices)
        × All (λ n. 0 < n) plan.layers
  plan_shape plan h =
      let (sizes, placed, bumped) = build_sound floats inventory context devices reserve plan h in
      let (total, count, all) =
        Placed-shape (kv_per_layer inventory.facts context) inventory.output_bytes
          (map (budget reserve) devices) inventory.layer_bytes sizes placed in
      let (total', count', all') = bump_last_shape sizes plan.layers bumped all in
      (omega arith, omega (arith, length-map devices (budget reserve)), all')

-- What fits a GPU's budget leaves the reserve and a tenth of its free memory free.
pub budget_reserve :
    (reserve used : ℕ) (device : GpuDevice)
    → 0 < used
    → used ≤ budget reserve device
    → (used + reserve ≤ device.free_memory)
      × (used + reserve ≤ device.total_memory)
      × (used + min device.free_memory device.total_memory / 10 ≤ device.free_memory)
unfolding budget
budget_reserve reserve used device pos fit = omega arith

kv_bound :
    (a b c : ℕ)
    → a < 2 ^ 32
    → b < 2 ^ 32
    → c < 2 ^ 32
    → 4 * a * b * c ≤ 4 * 2 ^ 32 * 2 ^ 32 * 2 ^ 32
kv_bound a b c ha hb hc =
    mul-le-mul (mul-le-mul (mul-le-mul (le_refl 4) (le_of_lt ha)) (le_of_lt hb)) (le_of_lt hc)

sum_bound : (i : ℕ) (ls : List ℕ) → All (λ l. l < 2 ^ 64) ls → sum (take i ls) ≤ i * 2 ^ 64
sum_bound zero ls h = omega arith
sum_bound (suc i) [] h = omega arith
sum_bound (suc i) (l ∷ ls) h = omega (arith, sum_bound i ls h.1)

pub record IsU32Model (inventory : ModelInventory) (context : ℕ) : Type 0 where
  pub kv_heads : inventory.facts.kv_heads < 2 ^ 32
  pub hidden_dim : inventory.facts.hidden_dim < 2 ^ 32
  pub asked : context < 2 ^ 32
  pub layer_bytes : All (λ l. l < 2 ^ 64) inventory.layer_bytes
  pub output_bytes : inventory.output_bytes < 2 ^ 64

supported-layers :
    (inventory : ModelInventory) → supported inventory ≡ true → length inventory.layer_bytes ≤ 4096
unfolding supported
supported-layers inventory h = ground arith

kv_per_layer_bound :
    (inventory : ModelInventory) (context : ℕ)
    → IsU32Model inventory context
    → kv_per_layer inventory.facts context ≤ 4 * 2 ^ 32 * 2 ^ 32 * 2 ^ 32
unfolding kv_per_layer
kv_per_layer_bound inventory context fits =
    kv_bound inventory.facts.kv_heads _ context fits.kv_heads (omega (arith, fits.hidden_dim))
      fits.asked

-- With every field in the range of its Rust type, no entry of `prefix`, nor `prefix[layers] +
-- output`, reaches the end of a u128.
pub prefix_no_overflow :
    (inventory : ModelInventory) (context i : ℕ)
    → IsU32Model inventory context
    → supported inventory ≡ true
    → i ≤ length inventory.layer_bytes
    → get_or (prefix_from (kv_per_layer inventory.facts context) 0 inventory.layer_bytes) i 0
        + inventory.output_bytes
      < 2 ^ 128
prefix_no_overflow inventory context i fits good hi = omega (
  arith,
  prefix_at (kv_per_layer inventory.facts context) 0 inventory.layer_bytes i hi,
  sum_bound i inventory.layer_bytes fits.layer_bytes,
  mul-le-mul few (kv_per_layer_bound inventory context fits),
  few,
  fits.output_bytes,
)
  where
    few : i ≤ 4096
    few = omega (arith, supported-layers inventory good)
