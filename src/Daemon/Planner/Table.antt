-- ===== src/Daemon/Planner/Table.antt =====
-- crates/latticed/src/chat/plan.rs: what the entries of the table `feasible` mean.
use p2p_distributed_inferenc.Prelude.{
  ℕ, zero, suc, ◌+◌, ◌-◌, ◌≤◌, ◌<◌, ◌≡◌, refl, ◌↔◌, Bool, true, false, List, [], ◌∷◌, arith, length,
  get_or,
}
use p2p_distributed_inferenc.Daemon.Planner.{extra, row, goal_row, table}
use p2p_distributed_inferenc.Daemon.Planner.Row.{at, row_iff, length-row, HasChargedCut}

-- `sizes` cuts the layers from `start` on among the GPUs of `budgets`, as the table measures them.
abbrev pub Cuts : ℕ → List ℕ → ℕ → List ℕ → ℕ → List ℕ → Type 0
Cuts layers prefix output [] start [] = start ≡ layers
Cuts layers prefix output [] start (n ∷ sizes) = ⊥
Cuts layers prefix output (b ∷ rest) start [] = ⊥
Cuts layers prefix output (b ∷ rest) start (n ∷ sizes) =
    (0 < n)
    × (start + n ≤ layers)
    × (at layers prefix (start + n) - at layers prefix start + extra output rest ≤ b)
    × Cuts layers prefix output rest (start + n) sizes

pub goal_row_iff : (n s : ℕ) → s ≤ n → (get_or (goal_row n) s false ≡ true) ↔ (s ≡ n)
unfolding goal_row
goal_row_iff zero zero h = ((λ t. refl), (λ t. refl))
goal_row_iff zero (suc s) h = elim h [ ]
goal_row_iff (suc n) zero h = ((λ t. cc), (λ t. absurd (omega arith)))
goal_row_iff (suc n) (suc s) h =
    let core = goal_row_iff n s (omega arith) in
    ((λ t. omega (arith, core.0 t)), (λ t. core.1 (omega arith)))

length-goal_row : (n : ℕ) → length (goal_row n) ≡ n + 1
unfolding goal_row
length-goal_row zero = omega arith
length-goal_row (suc n) = omega (arith, length-goal_row n)

module _ (layers : ℕ) (prefix : List ℕ)
    (mono : (i j : ℕ) → i ≤ j → j ≤ layers → at layers prefix i ≤ at layers prefix j)
    (output : ℕ) where
  abbrev pub first_row : List ℕ → List Bool
  first_row budgets = get_or (table layers prefix output budgets) 0 []

  pub length-first_row : (budgets : List ℕ) → length (first_row budgets) ≡ layers + 1
  unfolding table
  length-first_row [] = length-goal_row layers
  length-first_row (b ∷ rest) =
      length-row layers prefix mono (first_row rest) (length-first_row rest) b (extra output rest)

  pub table_iff :
      (budgets : List ℕ) (s : ℕ)
      → s ≤ layers
      → (get_or (first_row budgets) s false ≡ true)
        ↔ ((sizes : List ℕ) × Cuts layers prefix output budgets s sizes)
  unfolding table
  table_iff [] s hs =
      let core = goal_row_iff layers s hs in ((λ t. ([], core.0 t)), (λ c. core.1 (only c.0 c.1)))
    where
      only : (sizes : List ℕ) → Cuts layers prefix output [] s sizes → s ≡ layers
      only [] h = h
      only (n ∷ sizes) h = absurd h
  table_iff (b ∷ rest) s hs = (
    (λ t. forth (core.0 t) (λ e he. (table_iff rest e he).0)),
    (λ c. core.1 (back c.0 c.1 (λ e he. (table_iff rest e he).1))),
  )
    where
      core :
          (get_or (row layers prefix b (extra output rest) (first_row rest)) s false ≡ true)
          ↔ HasChargedCut layers prefix b (extra output rest) (first_row rest) s
      core =
          row_iff layers prefix mono (first_row rest) (length-first_row rest) b (extra output rest)
            s hs

      forth :
          HasChargedCut layers prefix b (extra output rest) (first_row rest) s
          → ((e : ℕ)
              → e ≤ layers
              → get_or (first_row rest) e false ≡ true
              → (sizes : List ℕ) × Cuts layers prefix output rest e sizes)
          → (sizes : List ℕ) × Cuts layers prefix output (b ∷ rest) s sizes
      forth (e, lo, hi, fit, set) ih =
          let (sizes, cuts) = ih e hi set in
          let p : s + (e - s) ≡ e = omega arith in
          ((e - s) ∷ sizes, (omega arith, rw p hi, rw p fit, rw p cuts))

      back :
          (sizes : List ℕ)
          → Cuts layers prefix output (b ∷ rest) s sizes
          → ((e : ℕ)
              → e ≤ layers
              → (sizes : List ℕ) × Cuts layers prefix output rest e sizes
              → get_or (first_row rest) e false ≡ true)
          → HasChargedCut layers prefix b (extra output rest) (first_row rest) s
      back [] h ih = absurd h
      back (n ∷ sizes) (pos, hi, fit, cuts) ih =
          (s + n, omega arith, hi, fit, ih (s + n) hi (sizes, cuts))
