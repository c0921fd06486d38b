-- ===== src/Daemon/Planner.antt =====
-- crates/latticed/src/chat/plan.rs: which GPU holds which contiguous run of layers.
-- Rust's u128 sums are natural numbers here.
mod Scan
mod Row
mod Table
mod Greedy
pub mod Placement
pub mod Correct
pub mod Shape
pub mod Reported
pub mod Examples
use Prim.Native.Nat.{Ordering}
use mathlib.Core.Option
use p2p_distributed_inferenc.Prelude.{
  ℕ, zero, suc, ◌+◌, ◌-◌, ◌*◌, ◌/◌, ◌%◌, min, max, Bool, true, false, not, ◌&&◌, Option, none, some,
  List, [], ◌∷◌, map, ltb, leb, ◌==◌, if◌then◌else◌, length, get_or, drop, sum, retain, take_while,
  range_from,
}
use p2p_distributed_inferenc.Engine.Facts.{ModelFacts, ModelInventory}
use p2p_distributed_inferenc.Net.Control.{GpuDevice}

pub record Plan : Type 0 where
  pub layers : List ℕ

-- `panicked` is the `expect` of the source.
pub data Outcome : Type 0 where
  planned : Plan → Outcome
  unsupported_model : Outcome
  gpu_count : ℕ → Outcome
  does_not_fit : Outcome
  panicked : Outcome

-- The hardware floats that rank the cuts; nothing is assumed of them.
pub record Floats : Type 1 where
  pub F64 : Type 0
  pub of_u128 : ℕ → F64
  pub mul : F64 → F64 → F64
  pub div : F64 → F64 → F64
  pub sub : F64 → F64 → F64
  pub abs : F64 → F64
  pub total_cmp : F64 → F64 → Ordering

-- `hidden_dim.checked_rem(heads) != Some(0)`: a remainder by zero is `None`.
pub divides_evenly : ℕ → ℕ → Bool
divides_evenly heads hidden_dim = not (heads == 0) && hidden_dim % heads == 0

-- The negation of the first guard of `build`.
pub supported : ModelInventory → Bool
unfolding divides_evenly
supported inventory =
    not (facts.layers == 0)
    && leb facts.layers 4096
    && not (facts.hidden_dim == 0)
    && divides_evenly facts.heads facts.hidden_dim
    && not (facts.kv_heads == 0)
    && leb facts.kv_heads facts.heads
    && length inventory.layer_bytes == facts.layers
  where
    open inventory use {facts}

-- Free memory is clipped to the total, and the larger of the reserve and a tenth of it stays free.
pub budget : ℕ → GpuDevice → ℕ
budget reserve device =
    let free = min device.free_memory device.total_memory in free - max reserve (free / 10)

pub kv_per_layer : ModelFacts → ℕ → ℕ
kv_per_layer facts context = 4 * facts.kv_heads * (facts.hidden_dim / facts.heads) * context

-- The vector `prefix`, from its entry `acc` on.
pub prefix_from : ℕ → ℕ → List ℕ → List ℕ
prefix_from kv acc [] = acc ∷ []
prefix_from kv acc (bytes ∷ rest) = acc ∷ prefix_from kv (acc + bytes + kv) rest

-- The vector `reachable`: how many of the entries before each are set.
pub reachable_from : ℕ → List Bool → List ℕ
reachable_from acc [] = acc ∷ []
reachable_from acc (b ∷ row) = acc ∷ reachable_from (if b then acc + 1 else acc) row

-- `output` is charged to the last GPU only: `rest` are the budgets of those behind it.
pub extra : ℕ → List ℕ → ℕ
extra output [] = output
extra output (b ∷ rest) = 0

-- A row of the table before it is written, and the row past the last GPU.
pub unset : ℕ → List Bool
unset zero = []
unset (suc n) = false ∷ unset n

pub goal_row : ℕ → List Bool
goal_row zero = true ∷ []
goal_row (suc n) = false ∷ goal_row n

module _ (layers : ℕ) (prefix : List ℕ) where
  -- `while end < layers && prefix[end + 1] - prefix[start] <= budget { end += 1; }`
  pub advance : ℕ → ℕ → ℕ → ℕ → ℕ
  advance zero limit start end = end
  advance (suc fuel) limit start end =
      elim (ltb end layers && leb (get_or prefix (end + 1) 0 - get_or prefix start 0) limit) [
        | true ↦ advance fuel limit start (end + 1)
        | false ↦ end
      ]

  -- The loop over `start`, with `rounds` starts left and the two-pointer `end` of the last one.
  -- The entry at `layers` stays unset.
  pub scan : ℕ → List ℕ → ℕ → ℕ → ℕ → List Bool
  unfolding advance
  scan zero reachable limit start end = false ∷ []
  scan (suc rounds) reachable limit start end =
      let end' = advance layers limit start (max end start) in
      ltb (get_or reachable (start + 1) 0) (get_or reachable (end' + 1) 0)
      ∷ scan rounds reachable limit (start + 1) end'

  -- One round of the loop over the devices: `checked_sub`, then the row of `device` from that of
  -- `device + 1`.
  pub row : ℕ → ℕ → List Bool → List Bool
  unfolding scan reachable_from unset
  row limit charge next =
      if ltb limit charge
      then unset (layers + 1)
      else scan layers (reachable_from 0 next) (limit - charge) 0 0

  -- The rows of `feasible` from a device on, the last device's budget last in the list.
  pub table : ℕ → List ℕ → List (List Bool)
  unfolding row goal_row extra
  table output [] = goal_row layers ∷ []
  table output (b ∷ rest) =
      let below = table output rest in row b (extra output rest) (get_or below 0 []) ∷ below

  module _ (floats : Floats) where
    open floats use {F64, of_u128, mul, div, sub, abs, total_cmp}

    pub distance : F64 → ℕ → ℕ → F64
    distance target charge end = abs (sub (of_u128 (get_or prefix end 0 + charge)) target)

    -- `Iterator::min_by` keeps the earlier of two that compare equal.
    pub nearest : F64 → ℕ → ℕ → List ℕ → ℕ
    unfolding distance
    nearest target charge best [] = best
    nearest target charge best (x ∷ xs) =
        nearest target charge
          (elim (total_cmp (distance target charge best) (distance target charge x)) [
            | Ordering.gt ↦ x
            | _ ↦ best
          ])
          xs

    pub closest : F64 → ℕ → List ℕ → Option ℕ
    closest target charge [] = none
    closest target charge (x ∷ xs) = some (nearest target charge x xs)

    -- The cuts after `start` that fit this GPU and leave the rest feasible.
    pub candidates : ℕ → ℕ → ℕ → List Bool → List ℕ
    candidates limit charge start next =
        retain (λ end. get_or next end false)
          (take_while (λ end. leb (get_or prefix end 0 - get_or prefix start 0 + charge) limit)
            (range_from (start + 1) (layers - start)))

    -- The second loop over the devices; `rows` are `feasible[device + 1]` and on.
    pub assign : ℕ → ℕ → ℕ → ℕ → ℕ → List ℕ → List (List Bool) → Option (List ℕ)
    unfolding nearest closest candidates extra
    assign output total_bytes total_budget cumulative start [] rows = some []
    assign output total_bytes total_budget cumulative start (b ∷ rest) rows =
        let charge = extra output rest in
        let target =
          div (mul (of_u128 total_bytes) (of_u128 (cumulative + b))) (of_u128 total_budget) in
        elim (closest target charge (candidates b charge start (get_or rows 0 []))) [
          | none ↦ none
          | some end ↦
              Option.map (λ sizes. (end - start) ∷ sizes)
                (assign output total_bytes total_budget (cumulative + b) end rest (drop 1 rows))
        ]

-- `*assigned.last_mut().unwrap() += 1`: the output layer goes with the last GPU.
pub bump_last : List ℕ → Option (List ℕ)
bump_last [] = none
bump_last (n ∷ []) = some ((n + 1) ∷ [])
bump_last (n ∷ m ∷ rest) = Option.map (λ sizes. n ∷ sizes) (bump_last (m ∷ rest))

pub finish : Option (List ℕ) → Outcome
unfolding bump_last
finish none = panicked
finish (some sizes) = elim (bump_last sizes) [
  | none ↦ panicked
  | some layers ↦ planned (record { layers = layers })
]

-- `if !feasible[0][0] { bail }`, and the plan from the second pass otherwise.
pub conclude : Bool → Option (List ℕ) → Outcome
unfolding finish
conclude marked assigned = if not marked then does_not_fit else finish assigned

-- What `build` does once its guards have passed.
pub place : Floats → ℕ → List ℕ → ℕ → List ℕ → Outcome
unfolding prefix_from table assign conclude
place floats kv layer_bytes output budgets =
    let layers = length layer_bytes in
    let prefix = prefix_from kv 0 layer_bytes in
    let rows = table layers prefix output budgets in
    conclude (get_or (get_or rows 0 []) 0 false) (
      assign layers prefix floats output (get_or prefix layers 0 + output) (sum budgets) 0 0 budgets
        (drop 1 rows))

-- `count == 0 || count > 63 || count > layers`, negated.
pub count_allowed : ℕ → ℕ → Bool
count_allowed count layers = not (count == 0) && leb count 63 && leb count layers

pub build : Floats → ModelInventory → ℕ → List GpuDevice → ℕ → Outcome
build floats inventory context devices reserve =
    if not (supported inventory)
    then unsupported_model
    else if not (count_allowed (length devices) inventory.facts.layers)
    then gpu_count (min inventory.facts.layers 63)
    else place floats (kv_per_layer inventory.facts context) inventory.layer_bytes
        inventory.output_bytes (map (budget reserve) devices)
