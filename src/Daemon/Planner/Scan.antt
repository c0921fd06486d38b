-- ===== src/Daemon/Planner/Scan.antt =====
-- crates/latticed/src/chat/plan.rs: the running sums of the planner: what the entries of `prefix` and `reachable` hold.
use p2p_distributed_inferenc.Prelude.{
  ℕ, zero, suc, ◌+◌, ◌*◌, ◌≤◌, ◌<◌, ◌≡◌, refl, Bool, true, false, List, [], ◌∷◌, arith, length,
  get_or, take, sum,
}
use p2p_distributed_inferenc.Daemon.Planner.{prefix_from, reachable_from}

-- Entry `i` of `prefix` is the weight of the first `i` layers.
pub prefix_at :
    (kv acc : ℕ) (ls : List ℕ) (i : ℕ)
    → i ≤ length ls
    → get_or (prefix_from kv acc ls) i 0 ≡ acc + sum (take i ls) + i * kv
unfolding prefix_from
prefix_at kv acc [] zero h = omega arith
prefix_at kv acc [] (suc i) h = elim h [ ]
prefix_at kv acc (l ∷ ls) zero h = omega arith
prefix_at kv acc (l ∷ ls) (suc i) h = omega (arith, prefix_at kv (acc + l + kv) ls i (omega arith))

pub prefix_mono :
    (kv acc : ℕ) (ls : List ℕ) (i j : ℕ)
    → i ≤ j
    → j ≤ length ls
    → get_or (prefix_from kv acc ls) i 0 ≤ get_or (prefix_from kv acc ls) j 0
unfolding prefix_from
prefix_mono kv acc [] zero zero h k = omega arith
prefix_mono kv acc [] i (suc j) h k = elim k [ ]
prefix_mono kv acc [] (suc i) zero h k = elim h [ ]
prefix_mono kv acc (l ∷ ls) zero zero h k = omega arith
prefix_mono kv acc (l ∷ ls) zero (suc j) h k =
    omega (arith, prefix_at kv (acc + l + kv) ls j (omega arith))
prefix_mono kv acc (l ∷ ls) (suc i) zero h k = elim h [ ]
prefix_mono kv acc (l ∷ ls) (suc i) (suc j) h k =
    prefix_mono kv (acc + l + kv) ls i j (omega arith) (omega arith)

reachable_start : (acc : ℕ) (row : List Bool) → get_or (reachable_from acc row) 0 0 ≡ acc
unfolding reachable_from
reachable_start acc [] = refl
reachable_start acc (b ∷ row) = refl

reachable_grows :
    (acc : ℕ) (row : List Bool) (j : ℕ) → j ≤ length row → acc ≤ get_or (reachable_from acc row) j 0
unfolding reachable_from
reachable_grows acc [] zero h = omega arith
reachable_grows acc [] (suc j) h = elim h [ ]
reachable_grows acc (b ∷ row) zero h = omega arith
reachable_grows acc (true ∷ row) (suc j) h =
    omega (arith, reachable_grows (acc + 1) row j (omega arith))
reachable_grows acc (false ∷ row) (suc j) h = reachable_grows acc row j (omega arith)

-- A count that grows from `i` to `j` has met a set entry between them.
pub reachable_hit :
    (acc : ℕ) (row : List Bool) (i j : ℕ)
    → i ≤ j
    → j ≤ length row
    → get_or (reachable_from acc row) i 0 < get_or (reachable_from acc row) j 0
    → (e : ℕ) × (i ≤ e) × (e < j) × (get_or row e false ≡ true)
unfolding reachable_from
reachable_hit acc [] zero zero h k lt = absurd (omega arith)
reachable_hit acc [] (suc i) zero h k lt = elim h [ ]
reachable_hit acc [] i (suc j) h k lt = elim k [ ]
reachable_hit acc (b ∷ row) zero zero h k lt = absurd (omega arith)
reachable_hit acc (b ∷ row) (suc i) zero h k lt = elim h [ ]
reachable_hit acc (true ∷ row) zero (suc j) h k lt = (0, omega arith, omega arith, refl)
reachable_hit acc (false ∷ row) zero (suc j) h k lt =
    let (e, lo, hi, set) =
      reachable_hit acc row 0 j (omega arith) (omega arith)
        (omega (arith, reachable_start acc row)) in
    (suc e, omega arith, omega arith, set)
reachable_hit acc (true ∷ row) (suc i) (suc j) h k lt =
    let (e, lo, hi, set) = reachable_hit (acc + 1) row i j (omega arith) (omega arith) lt in
    (suc e, omega arith, omega arith, set)
reachable_hit acc (false ∷ row) (suc i) (suc j) h k lt =
    let (e, lo, hi, set) = reachable_hit acc row i j (omega arith) (omega arith) lt in
    (suc e, omega arith, omega arith, set)

-- A set entry between `i` and `j` makes the count grow.
pub reachable_counts :
    (acc : ℕ) (row : List Bool) (i j e : ℕ)
    → i ≤ e
    → e < j
    → j ≤ length row
    → get_or row e false ≡ true
    → get_or (reachable_from acc row) i 0 < get_or (reachable_from acc row) j 0
unfolding reachable_from
reachable_counts acc row i zero e lo hi k set = elim hi [ ]
reachable_counts acc [] i (suc j) e lo hi k set = elim k [ ]
reachable_counts acc (true ∷ row) zero (suc j) e lo hi k set =
    omega (arith, reachable_grows (acc + 1) row j (omega arith))
reachable_counts acc (false ∷ row) zero (suc j) zero lo hi k set = cc
reachable_counts acc (false ∷ row) zero (suc j) (suc e) lo hi k set = omega (
  arith,
  reachable_start acc row,
  reachable_counts acc row 0 j e (omega arith) (omega arith) (omega arith) set,
)
reachable_counts acc (b ∷ row) (suc i) (suc j) zero lo hi k set = elim lo [ ]
reachable_counts acc (true ∷ row) (suc i) (suc j) (suc e) lo hi k set =
    reachable_counts (acc + 1) row i j e (omega arith) (omega arith) (omega arith) set
reachable_counts acc (false ∷ row) (suc i) (suc j) (suc e) lo hi k set =
    reachable_counts acc row i j e (omega arith) (omega arith) (omega arith) set
