-- ===== src/Daemon/Planner/Placement.antt =====
-- What a placement is, said of the layers' weights and the GPUs' budgets alone, and how the
-- planner's cuts over `prefix` come to the same.
use p2p_distributed_inferenc.Prelude.{
  ℕ, zero, suc, ◌+◌, ◌-◌, ◌*◌, ◌≤◌, ◌<◌, ◌≡◌, refl, List, [], ◌∷◌, arith, length, take, drop, sum,
  length-drop, drop-drop,
}
use p2p_distributed_inferenc.Daemon.Planner.{extra, prefix_from}
use p2p_distributed_inferenc.Daemon.Planner.Scan.{prefix_at}
use p2p_distributed_inferenc.Daemon.Planner.Row.{at}
use p2p_distributed_inferenc.Daemon.Planner.Table.{Cuts}

-- The weights of `n` layers and their key-value caches.
abbrev pub load : ℕ → ℕ → List ℕ → ℕ
load kv n layer_bytes = sum (take n layer_bytes) + n * kv

-- `sizes` hands the layers out in order: each GPU gets at least one, the weights, caches and, on the
-- last GPU, the output tensors fit its budget, and no layer is left over.
abbrev pub Placed : ℕ → ℕ → List ℕ → List ℕ → List ℕ → Type 0
Placed kv output [] layer_bytes [] = length layer_bytes ≡ 0
Placed kv output [] layer_bytes (n ∷ sizes) = ⊥
Placed kv output (b ∷ rest) layer_bytes [] = ⊥
Placed kv output (b ∷ []) layer_bytes (n ∷ sizes) =
    (0 < n)
    × (n ≤ length layer_bytes)
    × (load kv n layer_bytes + output ≤ b)
    × Placed kv output [] (drop n layer_bytes) sizes
Placed kv output (b ∷ c ∷ rest) layer_bytes (n ∷ sizes) =
    (0 < n)
    × (n ≤ length layer_bytes)
    × (load kv n layer_bytes ≤ b)
    × Placed kv output (c ∷ rest) (drop n layer_bytes) sizes

sum-take :
    (s n m : ℕ) (ls : List ℕ)
    → s + n ≡ m
    → sum (take m ls) ≡ sum (take s ls) + sum (take n (drop s ls))
sum-take zero n m ls e = let p : n ≡ m = omega arith in rw p (omega arith)
sum-take (suc s) n zero ls e = absurd (omega arith)
sum-take (suc s) zero (suc m) [] e = omega arith
sum-take (suc s) (suc n) (suc m) [] e = omega arith
sum-take (suc s) n (suc m) (l ∷ ls) e = omega (arith, sum-take s n m ls (omega arith))

module _ (kv output : ℕ) (layer_bytes : List ℕ) where
  abbrev layers : ℕ
  layers = length layer_bytes

  abbrev prefix : List ℕ
  prefix = prefix_from kv 0 layer_bytes

  -- The difference of two entries of `prefix` is the load between them.
  cut_load :
      (s n : ℕ)
      → s + n ≤ layers
      → at layers prefix (s + n) - at layers prefix s ≡ load kv n (drop s layer_bytes)
  cut_load s n h = omega (
    arith,
    prefix_at kv 0 layer_bytes (s + n) h,
    prefix_at kv 0 layer_bytes s (omega arith),
    sum-take s n (s + n) layer_bytes refl,
  )

  pub Placed-of_Cuts :
      (budgets sizes : List ℕ) (s : ℕ)
      → s ≤ layers
      → Cuts layers prefix output budgets s sizes
      → Placed kv output budgets (drop s layer_bytes) sizes
  unfolding extra
  Placed-of_Cuts [] [] s hs h = omega (arith, length-drop s layer_bytes)
  Placed-of_Cuts [] (n ∷ sizes) s hs h = absurd h
  Placed-of_Cuts (b ∷ rest) [] s hs h = absurd h
  Placed-of_Cuts (b ∷ []) (n ∷ sizes) s hs (pos, hi, fit, cuts) = (
    pos,
    omega (arith, length-drop s layer_bytes),
    omega (arith, cut_load s n hi),
    rw (drop-drop s n (s + n) layer_bytes refl) at (Placed-of_Cuts [] sizes (s + n) hi cuts),
  )
  Placed-of_Cuts (b ∷ c ∷ rest) (n ∷ sizes) s hs (pos, hi, fit, cuts) = (
    pos,
    omega (arith, length-drop s layer_bytes),
    omega (arith, cut_load s n hi),
    rw (drop-drop s n (s + n) layer_bytes refl) at
        (Placed-of_Cuts (c ∷ rest) sizes (s + n) hi cuts),
  )

  pub Cuts-of_Placed :
      (budgets sizes : List ℕ) (s : ℕ)
      → s ≤ layers
      → Placed kv output budgets (drop s layer_bytes) sizes
      → Cuts layers prefix output budgets s sizes
  unfolding extra
  Cuts-of_Placed [] [] s hs h = omega (arith, length-drop s layer_bytes)
  Cuts-of_Placed [] (n ∷ sizes) s hs h = absurd h
  Cuts-of_Placed (b ∷ rest) [] s hs h = absurd h
  Cuts-of_Placed (b ∷ []) (n ∷ sizes) s hs (pos, hi, fit, cuts) =
      let top : s + n ≤ layers = omega (arith, length-drop s layer_bytes) in
      (
        pos,
        top,
        omega (arith, cut_load s n top),
        Cuts-of_Placed [] sizes (s + n) top (rw (drop-drop s n (s + n) layer_bytes refl) cuts),
      )
  Cuts-of_Placed (b ∷ c ∷ rest) (n ∷ sizes) s hs (pos, hi, fit, cuts) =
      let top : s + n ≤ layers = omega (arith, length-drop s layer_bytes) in
      (
        pos,
        top,
        omega (arith, cut_load s n top),
        Cuts-of_Placed (c ∷ rest) sizes (s + n) top
            (rw (drop-drop s n (s + n) layer_bytes refl) cuts),
      )
