-- ===== src/Daemon/Planner/Greedy.antt =====
-- crates/latticed/src/chat/plan.rs: the second pass, from a start that the table marks.
use native.Mathlib.Decide.{dec_lt}
use Prim.Native.Nat.{Ordering}
use mathlib.Core.Path.{subst}
use p2p_distributed_inferenc.Prelude.{
  ℕ, zero, suc, ◌+◌, ◌-◌, ◌≤◌, ◌<◌, ◌≡◌, refl, ◌≢◌, inl, inr, ap, sym, Bool, true, false, some,
  List, [], ◌∷◌, arith, get_or, drop, All, leb, leb→le, le→leb, retain, take_while, range_from,
  Bool-cases,
}
use p2p_distributed_inferenc.Daemon.Planner.{
  Floats, extra, table, distance, nearest, closest, candidates, assign,
}
use p2p_distributed_inferenc.Daemon.Planner.Row.{at, HasChargedCut, row_iff}
use p2p_distributed_inferenc.Daemon.Planner.Table.{Cuts, goal_row_iff, first_row, length-first_row}

module _ (layers : ℕ) (prefix : List ℕ) (floats : Floats) where
  nearest-All :
      (P : ℕ → Type 0) (target : floats.F64) (charge best : ℕ) (xs : List ℕ)
      → P best
      → All P xs
      → P (nearest layers prefix floats target charge best xs)
  unfolding nearest
  nearest-All P target charge best [] h hs = h
  nearest-All P target charge best (x ∷ xs) h hs =
      elim (floats.total_cmp (distance layers prefix floats target charge best)
          (distance layers prefix floats target charge x))
        as (λ o.
          P (
            nearest layers prefix floats target charge (elim o [ Ordering.gt ↦ x | _ ↦ best ])
              xs)) [
                | Ordering.lt ↦ nearest-All P target charge best xs h hs.1
                | Ordering.eq ↦ nearest-All P target charge best xs h hs.1
                | Ordering.gt ↦ nearest-All P target charge x xs hs.0 hs.1
              ]

  -- What `closest` returns is one of the candidates.
  closest-All :
      (P : ℕ → Type 0) (target : floats.F64) (charge : ℕ) (xs : List ℕ)
      → All P xs
      → xs ≢ []
      → (e : ℕ) × (closest layers prefix floats target charge xs ≡ some e) × P e
  unfolding closest
  closest-All P target charge [] hs ne = absurd (ne refl)
  closest-All P target charge (x ∷ xs) hs ne = (_, refl, nearest-All P target charge x xs hs.0 hs.1)

  -- One round of `assign` whose cut is known.
  assign_step :
      (output total_bytes total_budget b : ℕ) (rest : List ℕ) (cumulative start : ℕ)
      (next : List Bool) (rows : List (List Bool)) {end : ℕ} {sizes : List ℕ}
      → closest layers prefix floats
          (floats.div
            (floats.mul (floats.of_u128 total_bytes) (floats.of_u128 (cumulative + b)))
            (floats.of_u128 total_budget))
          (extra output rest)
          (candidates layers prefix floats b (extra output rest) start next)
        ≡ some end
      → assign layers prefix floats output total_bytes total_budget (cumulative + b) end rest rows
        ≡ some sizes
      → assign layers prefix floats output total_bytes total_budget cumulative start
          (b ∷ rest)
          (next ∷ rows)
        ≡ some ((end - start) ∷ sizes)
  unfolding assign
  assign_step output total_bytes total_budget b rest cumulative start next rows taken more =
      rw (taken, assign) (rw more)

-- The filtered range, with its tests abstract.
chosen-All :
    (fits set : ℕ → Bool) (least count lo hi : ℕ)
    → least ≤ lo
    → lo + count ≡ hi
    → All
        (λ e. (least ≤ e) × (e < hi) × (fits e ≡ true) × (set e ≡ true))
        (retain set (take_while fits (range_from lo count)))
chosen-All fits set least zero lo hi l e = tt
chosen-All fits set least (suc count) lo hi l e =
    let rest = chosen-All fits set least count (lo + 1) hi (omega arith) (omega arith) in
    elim (Bool-cases (fits lo)) [
      | inr over ↦ rw over tt
      | inl fit ↦ rw fit (elim (Bool-cases (set lo)) [
        | inl marked ↦ rw marked ((l, omega arith, fit, marked), rest)
        | inr unmarked ↦ rw unmarked rest
      ])
    ]

chosen-ne-nil :
    (fits set : ℕ → Bool) (count lo e : ℕ)
    → lo ≤ e
    → e < lo + count
    → ((i : ℕ) → lo ≤ i → i ≤ e → fits i ≡ true)
    → set e ≡ true
    → retain set (take_while fits (range_from lo count)) ≢ []
chosen-ne-nil fits set zero lo e h k f t = absurd (omega arith)
chosen-ne-nil fits set (suc count) lo e h k f t =
    rw (f lo (omega arith) h) (elim (Bool-cases (set lo)) [
      | inl marked ↦ rw marked (λ p. cc)
      | inr unmarked ↦ rw unmarked (elim (dec_lt lo e) [
        | yes later ↦
            chosen-ne-nil fits set count (lo + 1) e (omega arith) (omega arith)
              (λ i lo' hi. f i (omega arith) hi) t
        | no here ↦ let p : lo ≡ e = omega arith in cc (ap set p)
      ])
    ])

module _ (layers : ℕ) (prefix : List ℕ)
    (mono : (i j : ℕ) → i ≤ j → j ≤ layers → at layers prefix i ≤ at layers prefix j)
    (floats : Floats) (output : ℕ) where
  -- Where a cut exists, one is taken.
  pick :
      (target : floats.F64) (limit charge start : ℕ) (next : List Bool)
      → start ≤ layers
      → HasChargedCut layers prefix limit charge next start
      → (end : ℕ) × (closest layers prefix floats target charge
            (candidates layers prefix floats limit charge start next)
          ≡ some end)
        × (start + 1 ≤ end)
        × (end < layers + 1)
        × (leb (at layers prefix end - at layers prefix start + charge) limit ≡ true)
        × (get_or next end false ≡ true)
  unfolding candidates
  pick target limit charge start next hs (e, lo, hi, fit, set) =
      let (end, taken, facts) =
        closest-All layers prefix floats
          (λ e.
            (start + 1 ≤ e)
            × (e < layers + 1)
            × (leb (at layers prefix e - at layers prefix start + charge) limit ≡ true)
            × (get_or next e false ≡ true))
          target charge _
          (chosen-All _ _ (start + 1) (layers - start) (start + 1) (layers + 1) (omega arith)
            (omega arith))
          (chosen-ne-nil _ _ (layers - start) (start + 1) e (omega arith) (omega arith)
            (λ i low high. le→leb _ _ (omega (arith, mono i e high hi))) set) in
      (end, taken, facts.0, facts.1, facts.2, facts.3)

  table-cons :
      (budgets : List ℕ)
      → table layers prefix output budgets
        ≡ first_row layers prefix mono output budgets ∷ drop 1 (table layers prefix output budgets)
  unfolding table
  table-cons [] = refl
  table-cons (b ∷ rest) = refl

  pub assign_total :
      (total_bytes total_budget : ℕ) (budgets : List ℕ) (cumulative start : ℕ)
      → start ≤ layers
      → get_or (first_row layers prefix mono output budgets) start false ≡ true
      → (sizes : List ℕ) × (assign layers prefix floats output total_bytes total_budget cumulative
            start budgets
            (drop 1 (table layers prefix output budgets))
          ≡ some sizes)
        × Cuts layers prefix output budgets start sizes
  unfolding assign table
  assign_total total_bytes total_budget [] cumulative start hs set =
      ([], refl, (goal_row_iff layers start hs).0 set)
  assign_total total_bytes total_budget (b ∷ rest) cumulative start hs set =
      let charge = extra output rest in
      let target =
        floats.div (floats.mul (floats.of_u128 total_bytes) (floats.of_u128 (cumulative + b)))
          (floats.of_u128 total_budget) in
      let next = first_row layers prefix mono output rest in
      let sized = length-first_row layers prefix mono output rest in
      let (end, taken, lo, hi, fit, marked) =
        pick target b charge start next hs
          ((row_iff layers prefix mono next sized b charge start hs).0 set) in
      let (sizes, more, cuts) =
        assign_total total_bytes total_budget rest (cumulative + b) end (omega arith) marked in
      let p : start + (end - start) ≡ end = omega arith in
      let found =
        subst
          (λ rows.
            assign layers prefix floats output total_bytes total_budget cumulative start (b ∷ rest)
              rows
            ≡ some ((end - start) ∷ sizes))
          (sym (table-cons rest))
          (assign_step layers prefix floats output total_bytes total_budget b rest cumulative start
            next _ taken more) in
      (
        (end - start) ∷ sizes,
        found,
        (omega arith, rw p (omega arith), rw p (leb→le _ _ fit), rw p cuts),
      )
