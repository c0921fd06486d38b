-- ===== src/Daemon/Generate/Decoding/Sampling.antt =====
-- crates/latticed/src/generate.rs: greedy sampling.
use p2p_distributed_inferenc.Prelude.{
  ℕ, zero, suc, ◌+◌, ◌%◌, ◌^◌, ◌<◌, ◌≤◌, ◌≡◌, ◌⊎◌, refl, inl, inr, some, List, [], ◌∷◌, arith, All,
  Bool-cases, drop, get_elem?, length, ltb,
}
use p2p_distributed_inferenc.Prelude.Results.{ok}
use p2p_distributed_inferenc.Engine.Abi.{logits}
use p2p_distributed_inferenc.Daemon.Generate.Decoding.{total_key, best_from, argmax}

weaken :
    (k m : ℕ) (values : List ℕ)
    → k ≤ m
    → All (λ w. total_key w < k) values
    → All (λ w. total_key w ≤ m) values
weaken k m [] le h = tt
weaken k m (v ∷ values) le (h, hs) = (omega arith, weaken k m values le hs)

-- What is left never beats the leader, or its last greatest value leads in the end.
abbrev Beaten : ℕ → ℕ → List ℕ → ℕ → Type 0
Beaten next best rest found =
    (j : ℕ) × (v : ℕ) × (found ≡ next + j)
    × (get_elem? rest j ≡ some v)
    × (total_key best ≤ total_key v)
    × All (λ w. total_key w ≤ total_key v) rest
    × All (λ w. total_key w < total_key v) (drop (suc j) rest)

best_from_lem :
    (next at best : ℕ) (rest : List ℕ)
    → ((best_from next at best rest ≡ at) × All (λ w. total_key w < total_key best) rest)
      ⊎ Beaten next best rest (best_from next at best rest)
unfolding best_from
best_from_lem next at best [] = inl (refl, tt)
best_from_lem next at best (v ∷ rest) = elim (Bool-cases (ltb (total_key v) (total_key best))) [
  | inl e ↦
      let less : total_key v < total_key best = ground arith in
      rw e (elim (best_from_lem (next + 1) at best rest) [
        | inl (same, all) ↦ inl (same, (less, all))
        | inr (j, w, found, there, le, all, after) ↦
            inr (suc j, w, omega arith, there, le, (omega arith, all), after)
      ])
  | inr e ↦
      let least : total_key best ≤ total_key v = ground arith in
      rw e (elim (best_from_lem (next + 1) next v rest) [
        | inl (same, all) ↦ inr (
          0,
          v,
          omega arith,
          refl,
          least,
          (omega arith, weaken (total_key v) (total_key v) rest (omega arith) all),
          all,
        )
        | inr (j, w, found, there, le, all, after) ↦
            inr (suc j, w, omega arith, there, omega arith, (le, all), after)
      ])
]

-- Sampling yields the index of the greatest of the logits in the total order of floats, and the last one
-- of those that are equal, of a vocabulary that a u32 can index.
pub argmax-greatest :
    (first : ℕ) (rest : List ℕ)
    → length (first ∷ rest) ≤ 2 ^ 32
    → (i : ℕ) × (v : ℕ) × (argmax (logits (first ∷ rest)) ≡ ok i)
      × (get_elem? (first ∷ rest) i ≡ some v)
      × All (λ w. total_key w ≤ total_key v) (first ∷ rest)
      × All (λ w. total_key w < total_key v) (drop (suc i) (first ∷ rest))
unfolding argmax
argmax-greatest first rest fits = elim (best_from_lem 1 0 first rest) [
  | inl (same, all) ↦ (
    0,
    first,
    rw same refl,
    refl,
    (omega arith, weaken (total_key first) (total_key first) rest (omega arith) all),
    all,
  )
  | inr (j, v, found, there, le, all, after) ↦
      let bound : j < length rest = get_elem?_lt rest j v there in
      let small : (1 + j) % 2 ^ 32 ≡ suc j = omega arith in
      (suc j, v, rw (found, small) refl, there, (le, all), after)
]
  where
    get_elem?_lt : (values : List ℕ) (i v : ℕ) → get_elem? values i ≡ some v → i < length values
    get_elem?_lt [] i v h = absurd cc
    get_elem?_lt (x ∷ values) zero v h = omega arith
    get_elem?_lt (x ∷ values) (suc i) v h = let ih = get_elem?_lt values i v h in omega arith
