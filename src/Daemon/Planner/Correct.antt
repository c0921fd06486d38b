-- ===== src/Daemon/Planner/Correct.antt =====
-- crates/latticed/src/chat/plan.rs: `build` against the placements.
use p2p_distributed_inferenc.Prelude.{
  ℕ, ◌+◌, ◌<◌, ◌≡◌, refl, ◌≢◌, ◌⊎◌, inl, inr, Bool, true, false, Option, some, List, [], ◌∷◌, map,
  arith, length, get_or, drop, sum, length-map, Bool-cases, min,
}
use p2p_distributed_inferenc.Engine.Facts.{ModelInventory}
use p2p_distributed_inferenc.Net.Control.{GpuDevice}
use p2p_distributed_inferenc.Daemon.Planner.{
  Floats, Plan, Outcome, planned, unsupported_model, gpu_count, does_not_fit, panicked, supported,
  count_allowed, budget, kv_per_layer, prefix_from, table, assign, bump_last, conclude, place,
  build,
}
use p2p_distributed_inferenc.Daemon.Planner.Scan.{prefix_mono}
use p2p_distributed_inferenc.Daemon.Planner.Table.{Cuts, first_row, table_iff}
use p2p_distributed_inferenc.Daemon.Planner.Greedy.{assign_total}
use p2p_distributed_inferenc.Daemon.Planner.Placement.{Placed, Placed-of_Cuts, Cuts-of_Placed}

bump_last_total :
    (n : ℕ) (sizes : List ℕ) → (bumped : List ℕ) × (bump_last (n ∷ sizes) ≡ some bumped)
unfolding bump_last
bump_last_total n [] = (_, refl)
bump_last_total n (m ∷ rest) = let (bumped, e) = bump_last_total m rest in (n ∷ bumped, rw e)

module _ (floats : Floats) (kv output : ℕ) (layer_bytes : List ℕ) where
  -- A plan that is a placement, the last GPU's count raised by one for the output layer.
  abbrev pub Plans : List ℕ → Outcome → Type 0
  Plans budgets outcome =
      (sizes : List ℕ) × (plan : List ℕ) × Placed kv output budgets layer_bytes sizes
      × (bump_last sizes ≡ some plan)
      × (outcome ≡ planned (record { layers = plan }))

  abbrev prefix : List ℕ
  prefix = prefix_from kv 0 layer_bytes

  abbrev layers : ℕ
  layers = length layer_bytes

  abbrev marked : List ℕ → Bool
  marked budgets =
      get_or (first_row layers prefix (prefix_mono kv 0 layer_bytes) output budgets) 0 false

  abbrev assigned : List ℕ → Option (List ℕ)
  assigned budgets =
      assign layers prefix floats output (get_or prefix layers 0 + output) (sum budgets) 0 0 budgets
        (drop 1 (table layers prefix output budgets))

  place_lem :
      (budgets : List ℕ)
      → place floats kv layer_bytes output budgets ≡ conclude (marked budgets) (assigned budgets)
  unfolding place
  place_lem budgets = refl

  conclude-Plans :
      (budgets sizes : List ℕ)
      → 0 < length budgets
      → Cuts layers prefix output budgets 0 sizes
      → Plans budgets (conclude true (some sizes))
  unfolding conclude
  conclude-Plans [] sizes some_gpu cuts = absurd (omega arith)
  conclude-Plans (b ∷ rest) [] some_gpu cuts = absurd cuts
  conclude-Plans (b ∷ rest) (n ∷ sizes) some_gpu cuts =
      let (plan, bumped) = bump_last_total n sizes in
      (
        n ∷ sizes,
        plan,
        Placed-of_Cuts kv output layer_bytes (b ∷ rest) (n ∷ sizes) 0 (omega arith) cuts,
        bumped,
        ground arith,
      )

  -- A set first entry leads to a plan.
  marked-Plans :
      (budgets : List ℕ)
      → 0 < length budgets
      → marked budgets ≡ true
      → Plans budgets (place floats kv layer_bytes output budgets)
  marked-Plans budgets some_gpu set =
      let (sizes, found, cuts) =
        assign_total layers prefix (prefix_mono kv 0 layer_bytes) floats output
          (get_or prefix layers 0 + output) (sum budgets) budgets 0 0 (omega arith) set in
      rw (place_lem budgets, set, found) (conclude-Plans budgets sizes some_gpu cuts)

  -- An unset one means that there is no placement.
  unmarked :
      (budgets : List ℕ)
      → marked budgets ≡ false
      → (place floats kv layer_bytes output budgets ≡ does_not_fit)
        × ((sizes : List ℕ) → ¬ Placed kv output budgets layer_bytes sizes)
  unfolding conclude
  unmarked budgets unset = (
    rw (place_lem budgets, unset),
    λ sizes placed. cc (
      unset,
      (table_iff layers prefix (prefix_mono kv 0 layer_bytes) output budgets 0 (omega arith)).1
          (sizes, Cuts-of_Placed kv output layer_bytes budgets sizes 0 (omega arith) placed),
    ),
  )

  -- The two ways in which `place` ends.
  pub place_cases :
      (budgets : List ℕ)
      → 0 < length budgets
      → Plans budgets (place floats kv layer_bytes output budgets)
        ⊎ ((place floats kv layer_bytes output budgets ≡ does_not_fit)
            × ((sizes : List ℕ) → ¬ Placed kv output budgets layer_bytes sizes))
  place_cases budgets some_gpu = elim (Bool-cases (marked budgets)) [
    | inl set ↦ inl (marked-Plans budgets some_gpu set)
    | inr unset ↦ inr (unmarked budgets unset)
  ]

-- The placements of a model on the GPUs that `build` is asked about.
abbrev pub IsPlacement : ModelInventory → ℕ → List GpuDevice → ℕ → List ℕ → Type 0
IsPlacement inventory context devices reserve sizes =
    Placed (kv_per_layer inventory.facts context) inventory.output_bytes
      (map (budget reserve) devices) inventory.layer_bytes sizes

count_allowed-pos : (count layers : ℕ) → count_allowed count layers ≡ true → 0 < count
unfolding count_allowed
count_allowed-pos count layers h = ground arith

module _ (floats : Floats) (inventory : ModelInventory) (context : ℕ) (devices : List GpuDevice)
    (reserve : ℕ) where
  abbrev placing : Outcome
  placing =
      place floats (kv_per_layer inventory.facts context) inventory.layer_bytes
        inventory.output_bytes (map (budget reserve) devices)

  -- What `build` answers, guard by guard.
  build_cases :
      ((supported inventory ≡ false)
        × (build floats inventory context devices reserve ≡ unsupported_model))
      ⊎ ((count_allowed (length devices) inventory.facts.layers ≡ false)
          × (build floats inventory context devices reserve
              ≡ gpu_count (min inventory.facts.layers 63)))
      ⊎ ((0 < length devices) × (build floats inventory context devices reserve ≡ placing))
  unfolding build
  build_cases = elim (Bool-cases (supported inventory)) [
    | inr bad ↦ inl (bad, rw bad)
    | inl good ↦ elim (Bool-cases (count_allowed (length devices) inventory.facts.layers)) [
      | inr bad ↦ inr (inl (bad, rw (good, bad)))
      | inl right ↦
          inr (
            inr (count_allowed-pos (length devices) inventory.facts.layers right, rw (good, right)))
    ]
  ]

  placing_cases :
      0 < length devices
      → Plans floats
          (kv_per_layer inventory.facts context)
          inventory.output_bytes
          inventory.layer_bytes
          (map (budget reserve) devices)
          placing
        ⊎ ((placing ≡ does_not_fit)
            × ((sizes : List ℕ) → ¬ IsPlacement inventory context devices reserve sizes))
  placing_cases some_gpu =
      place_cases floats (kv_per_layer inventory.facts context) inventory.output_bytes
        inventory.layer_bytes (map (budget reserve) devices)
        (rw (length-map devices (budget reserve)) some_gpu)

  -- For a model and a GPU count that pass the guards, `build` returns a plan whenever some placement
  -- exists, and the plan comes from a placement: its sizes with one more on the last GPU.
  pub build_complete :
      (sizes : List ℕ)
      → supported inventory ≡ true
      → count_allowed (length devices) inventory.facts.layers ≡ true
      → IsPlacement inventory context devices reserve sizes
      → Plans floats
          (kv_per_layer inventory.facts context)
          inventory.output_bytes
          inventory.layer_bytes
          (map (budget reserve) devices)
          (build floats inventory context devices reserve)
  build_complete sizes good right placed = elim build_cases [
    | inl (bad, _) ↦ cc
    | inr (inl (bad, _)) ↦ cc
    | inr (inr (some_gpu, e)) ↦ rw e (elim (placing_cases some_gpu) [
      | inl plans ↦ plans
      | inr (_, none_fits) ↦ absurd (none_fits sizes placed)
    ])
  ]

  -- A plan that `build` returns comes from a placement: every GPU's layers, caches and, on the last,
  -- the output tensors fit its budget, in order and with no layer left over or empty GPU, and the
  -- plan is the sizes of that placement with one more on the last GPU.
  pub build_sound :
      (plan : Plan)
      → build floats inventory context devices reserve ≡ planned plan
      → (sizes : List ℕ) × IsPlacement inventory context devices reserve sizes
        × (bump_last sizes ≡ some plan.layers)
  build_sound plan h = elim build_cases [
    | inl (_, e) ↦ cc
    | inr (inl (_, e)) ↦ cc
    | inr (inr (some_gpu, e)) ↦ elim (placing_cases some_gpu) [
      | inl (sizes, layers, placed, bumped, e') ↦ (sizes, placed, ground arith)
      | inr (e', _) ↦ cc
    ]
  ]

  -- `build` says that nothing fits only where no placement exists.
  pub build_refusal :
      build floats inventory context devices reserve ≡ does_not_fit
      → (sizes : List ℕ) → ¬ IsPlacement inventory context devices reserve sizes
  build_refusal h = elim build_cases [
    | inl (_, e) ↦ cc
    | inr (inl (_, e)) ↦ cc
    | inr (inr (some_gpu, e)) ↦ elim (placing_cases some_gpu) [
      | inl (sizes, layers, placed, bumped, e') ↦ cc
      | inr (_, none_fits) ↦ none_fits
    ]
  ]

  -- The `expect` and the `unwrap` of `build` never panic, on any input and for any floats.
  pub build-ne-panicked : build floats inventory context devices reserve ≢ panicked
  build-ne-panicked h = elim build_cases [
    | inl (_, e) ↦ cc
    | inr (inl (_, e)) ↦ cc
    | inr (inr (some_gpu, e)) ↦ elim (placing_cases some_gpu) [
      | inl (sizes, layers, placed, bumped, e') ↦ cc
      | inr (e', _) ↦ cc
    ]
  ]
