-- ===== src/Daemon/Generate/Tiling.antt =====
-- crates/latticed/src/generate.rs: which chains pass the check.
use p2p_distributed_inferenc.Prelude.{
  ℕ, zero, suc, ◌+◌, ◌-◌, ◌≤◌, ◌<◌, ◌≡◌, refl, ap, ◌∙◌, ◌↔◌, List, [], ◌∷◌, ◌++◌, arith, All,
  range_from,
}
use p2p_distributed_inferenc.Daemon.Generate.{Placement, tiled, check_from, check_tiling}

-- The layers that a chain runs, in the order in which it runs them.
abbrev pub run_layers : List Placement → List ℕ
run_layers [] = []
run_layers (p ∷ places) =
    range_from p.first_layer (p.last_layer - p.first_layer) ++ run_layers places

abbrev pub IsRange : Placement → Type 0
IsRange p = p.first_layer < p.last_layer

range_from-append :
    (from m n : ℕ) → range_from from m ++ range_from (from + m) n ≡ range_from from (m + n)
range_from-append from zero n =
    let p : from + 0 ≡ from = omega arith in let q : 0 + n ≡ n = omega arith in rw (p, q) refl
range_from-append from (suc m) n =
    let p : from + suc m ≡ (from + 1) + m = omega arith in
    let q : suc m + n ≡ suc (m + n) = omega arith in
    rw (p, q) (ap (λ xs. from ∷ xs) (range_from-append (from + 1) m n))

module _ (layers : ℕ) where
  check_from_sound :
      (next : ℕ) (places : List Placement)
      → check_from layers next places ≡ tiled
      → (next ≤ layers) × All IsRange places × (run_layers places ≡ range_from next (layers - next))
  unfolding check_from
  check_from_sound next [] h =
      let p : next ≡ layers = ground arith in
      let q : layers - next ≡ 0 = omega arith in (omega arith, tt, rw q refl)
  check_from_sound next (p ∷ places) h =
      let start : p.first_layer ≡ next = ground arith in
      let range : p.first_layer < p.last_layer = ground arith in
      let rest : check_from layers p.last_layer places ≡ tiled = ground arith in
      let (le, all, e) = check_from_sound p.last_layer places rest in
      let q : p.last_layer ≡ next + (p.last_layer - next) = omega arith in
      let r : (p.last_layer - next) + (layers - p.last_layer) ≡ layers - next = omega arith in
      (
        omega arith,
        (range, all),
        rw (start, e)
            (ap (λ x. range_from next (p.last_layer - next) ++ range_from x (layers - p.last_layer))
                q
              ∙ range_from-append next (p.last_layer - next) (layers - p.last_layer)
              ∙ ap (range_from next) r),
      )

range_from-cancel :
    (from m k : ℕ) (xs : List ℕ)
    → range_from from m ++ xs ≡ range_from from k
    → (m ≤ k) × (xs ≡ range_from (from + m) (k - m))
range_from-cancel from zero k xs e =
    let p : from + 0 ≡ from = omega arith in
    let q : k - 0 ≡ k = omega arith in (omega arith, rw (p, q) e)
range_from-cancel from (suc m) zero xs e = absurd cc
range_from-cancel from (suc m) (suc k) xs e =
    let rest : range_from (from + 1) m ++ xs ≡ range_from (from + 1) k = cc in
    let (le, f) = range_from-cancel (from + 1) m k xs rest in
    let p : from + suc m ≡ (from + 1) + m = omega arith in
    let q : suc k - suc m ≡ k - m = omega arith in (omega arith, rw (p, q) f)

-- A run that starts a longer one starts where it does.
head_of_run :
    (first count next k : ℕ) (xs : List ℕ)
    → 0 < count
    → range_from first count ++ xs ≡ range_from next k
    → first ≡ next
head_of_run first zero next k xs pos e = absurd (omega arith)
head_of_run first (suc count) next zero xs pos e = absurd cc
head_of_run first (suc count) next (suc k) xs pos e = cc

module _ (layers : ℕ) where
  check_from_complete :
      (next : ℕ) (places : List Placement)
      → next ≤ layers
      → All IsRange places
      → run_layers places ≡ range_from next (layers - next)
      → check_from layers next places ≡ tiled
  unfolding check_from
  check_from_complete next [] le all e =
      let p : next ≡ layers = whole (layers - next) e (omega arith) in ground arith
    where
      whole : (k : ℕ) → [] ≡ range_from next k → k ≡ layers - next → next ≡ layers
      whole zero e q = omega arith
      whole (suc k) e q = absurd cc
  check_from_complete next (p ∷ places) le (range, all) e =
      let start =
        head_of_run p.first_layer (p.last_layer - p.first_layer) next (layers - next)
          (run_layers places) (omega arith) e in
      let (fits, f) =
        range_from-cancel next (p.last_layer - next) (layers - next) (run_layers places)
          (rw start at e) in
      let q : next + (p.last_layer - next) ≡ p.last_layer = omega arith in
      let r : (layers - next) - (p.last_layer - next) ≡ layers - p.last_layer = omega arith in
      let rest = check_from_complete p.last_layer places (omega arith) all (rw (q, r) at f) in
      ground arith

-- A chain passes the check exactly when its stages are ranges of at least one layer that run the
-- model's layers one after the other, each once, from the first to the last.
pub check_tiling_iff :
    (places : List Placement) (layers : ℕ)
    → (check_tiling places layers ≡ tiled)
      ↔ (All IsRange places × (run_layers places ≡ range_from 0 layers))
unfolding check_tiling
check_tiling_iff places layers = (
  λ h. let (le, all, e) = check_from_sound layers 0 places h in (all, rw zero_sub at e),
  λ h. check_from_complete layers 0 places (omega arith) h.0 (rw zero_sub h.1),
)
  where
    zero_sub : layers - 0 ≡ layers
    zero_sub = omega arith
