-- ===== src/Daemon/Planner/Row.antt =====
-- crates/latticed/src/chat/plan.rs: one row of the table, by the two-pointer scan.
use p2p_distributed_inferenc.Prelude.{
  ℕ, zero, suc, ◌+◌, ◌-◌, ◌≤◌, ◌<◌, ◌≡◌, refl, ap, ◌⊎◌, inl, inr, ◌↔◌, Bool, true, false, List, max,
  arith, length, get_or, ltb, ltb→lt, lt→ltb, Bool-cases,
}
use native.Mathlib.Decide.{dec_lt}
use p2p_distributed_inferenc.Daemon.Planner.{advance, scan, unset, row, reachable_from}
use p2p_distributed_inferenc.Daemon.Planner.Scan.{reachable_hit, reachable_counts}

module _ (layers : ℕ) (prefix : List ℕ) where
  abbrev pub at : ℕ → ℕ
  at i = get_or prefix i 0

  -- Some cut after `start` fits under `limit` and is set in `next`.
  abbrev pub HasCut : ℕ → List Bool → ℕ → Type 0
  HasCut limit next start =
      (e : ℕ) × (start < e)
      × (e ≤ layers)
      × (at e - at start ≤ limit)
      × (get_or next e false ≡ true)

  advance_stops :
      (fuel limit start end : ℕ)
      → layers ≤ end + fuel
      → end ≤ layers
      → at end - at start ≤ limit
      → let r = advance layers prefix fuel limit start end in
        (end ≤ r)
        × (r ≤ layers)
        × (at r - at start ≤ limit)
        × ((r ≡ layers) ⊎ (limit < at (r + 1) - at start))
  unfolding advance
  advance_stops zero limit start end f h k = (omega arith, h, k, inl (omega arith))
  advance_stops (suc fuel) limit start end f h k =
      ground (arith, advance_stops fuel limit start (end + 1))

  module _ (mono : (i j : ℕ) → i ≤ j → j ≤ layers → at i ≤ at j) (next : List Bool)
      (sized : length next ≡ layers + 1) where
    entry_sound :
        (limit start end : ℕ)
        → start ≤ layers
        → end ≤ layers
        → at end - at start ≤ limit
        → get_or (reachable_from 0 next) (start + 1) 0 < get_or (reachable_from 0 next) (end + 1) 0
        → start ≤ end
        → HasCut limit next start
    entry_sound limit start end hs he fit more le =
        let (e, lo, hi, set) =
          reachable_hit 0 next (start + 1) (end + 1) (omega arith) (omega arith) more in
        (e, omega arith, omega arith, omega (arith, mono e end (omega arith) he), set)

    entry_complete :
        (limit start end : ℕ)
        → end ≤ layers
        → (end ≡ layers) ⊎ (limit < at (end + 1) - at start)
        → HasCut limit next start
        → get_or (reachable_from 0 next) (start + 1) 0 < get_or (reachable_from 0 next) (end + 1) 0
    entry_complete limit start end he stop (e, lo, hi, fit, set) =
        reachable_counts 0 next (start + 1) (end + 1) e (omega arith) (below stop) (omega arith) set
      where
        below : (end ≡ layers) ⊎ (limit < at (end + 1) - at start) → e < end + 1
        below (inl last) = omega arith
        below (inr over) = elim (dec_lt e (end + 1)) [
          | yes p ↦ p
          | no p ↦ absurd (omega (arith, mono (end + 1) e (omega arith) hi))
        ]

    -- The two-pointer `end` at `start`, from that of the start before.
    pointer :
        (limit start end : ℕ)
        → start ≤ layers
        → end ≤ layers
        → at end - at start ≤ limit
        → let r = advance layers prefix layers limit start (max end start) in
          (start ≤ r)
          × (r ≤ layers)
          × (at r - at start ≤ limit)
          × ((r ≡ layers) ⊎ (limit < at (r + 1) - at start))
    pointer limit start end hs he fit =
        let stops =
          advance_stops layers limit start (max end start) (omega arith) (omega arith) from_max in
        (omega (arith, stops.0), stops.1, stops.2, stops.3)
      where
        from_max : at (max end start) - at start ≤ limit
        from_max = elim (dec_lt end start) [
          | yes p ↦ let q : max end start ≡ start = omega arith in rw q (omega arith)
          | no p ↦ let q : max end start ≡ end = omega arith in rw q fit
        ]

    -- Entry `i` of what the loop over `start` writes, which is the entry of the start `s`.
    scan_iff :
        (rounds limit start end i s : ℕ)
        → start + rounds ≡ layers
        → start + i ≡ s
        → end ≤ layers
        → at end - at start ≤ limit
        → i < rounds
        → (get_or (scan layers prefix rounds (reachable_from 0 next) limit start end) i false
            ≡ true)
          ↔ HasCut limit next s
    unfolding scan
    scan_iff zero limit start end i s e es he fit hi = elim hi [ ]
    scan_iff (suc rounds) limit start end zero s e es he fit hi =
        let p : start ≡ s = omega arith in
        let (lo, top, fits, stop) = pointer limit start end (omega arith) he fit in
        rw (← p) (
          (λ t. entry_sound limit start _ (omega arith) top fits (ltb→lt _ _ t) lo),
          (λ c. lt→ltb _ _ (entry_complete limit start _ top stop c)),
        )
    scan_iff (suc rounds) limit start end (suc i) s e es he fit hi =
        let (lo, top, fits, stop) = pointer limit start end (omega arith) he fit in
        scan_iff rounds limit (start + 1) (advance layers prefix layers limit start (max end start))
          i s (omega arith) (omega arith) top (omega (arith, mono start (start + 1))) (omega arith)

    scan_last :
        (rounds limit start end : ℕ)
        → get_or (scan layers prefix rounds (reachable_from 0 next) limit start end) rounds false
          ≡ false
    unfolding scan
    scan_last zero limit start end = refl
    scan_last (suc rounds) limit start end = scan_last rounds limit (start + 1) _

  length-scan :
      (rounds : ℕ) (reachable : List ℕ) (limit start end : ℕ)
      → length (scan layers prefix rounds reachable limit start end) ≡ rounds + 1
  unfolding scan
  length-scan zero reachable limit start end = omega arith
  length-scan (suc rounds) reachable limit start end =
      omega (arith, length-scan rounds reachable limit (start + 1) _)

length-unset : (n : ℕ) → length (unset n) ≡ n
unfolding unset
length-unset zero = refl
length-unset (suc n) = ap suc (length-unset n)

unset_at : (n i : ℕ) → get_or (unset n) i false ≡ false
unfolding unset
unset_at zero i = refl
unset_at (suc n) zero = refl
unset_at (suc n) (suc i) = unset_at n i

-- A cut after `s` that fits the GPU together with what else is charged to it.
abbrev pub HasChargedCut : ℕ → List ℕ → ℕ → ℕ → List Bool → ℕ → Type 0
HasChargedCut layers prefix limit charge next s =
    (e : ℕ) × (s < e)
    × (e ≤ layers)
    × (at layers prefix e - at layers prefix s + charge ≤ limit)
    × (get_or next e false ≡ true)

module _ (layers : ℕ) (prefix : List ℕ)
    (mono : (i j : ℕ) → i ≤ j → j ≤ layers → at layers prefix i ≤ at layers prefix j)
    (next : List Bool) (sized : length next ≡ layers + 1) where
  -- A set entry of a row is exactly a start that has such a cut.
  pub row_iff :
      (limit charge s : ℕ)
      → s ≤ layers
      → (get_or (row layers prefix limit charge next) s false ≡ true)
        ↔ HasChargedCut layers prefix limit charge next s
  unfolding row
  row_iff limit charge s hs = elim (Bool-cases (ltb limit charge)) [
    | inl small ↦ rw small (
      (λ t. cc (unset_at (layers + 1) s)),
      (λ c. absurd (omega (arith, ltb→lt limit charge small, c.3))),
    )
    | inr room ↦ rw room (elim (dec_lt s layers) [
      | yes inside ↦
          let core =
            scan_iff layers prefix mono next sized layers (limit - charge) 0 0 s s (omega arith)
              (omega arith) (omega arith) (omega arith) inside in
          (
            (λ t. let (e, lo, hi, fit, set) = core.0 t in (e, lo, hi, ground arith, set)),
            (λ c. let (e, lo, hi, fit, set) = c in core.1 (e, lo, hi, omega arith, set)),
          )
      | no outside ↦
          let last : s ≡ layers = omega arith in
          (
            (λ t. cc (scan_last layers prefix mono next sized layers (limit - charge) 0 0, last)),
            (λ c. let (e, lo, hi, fit, set) = c in absurd (omega arith)),
          )
    ])
  ]

  pub length-row : (limit charge : ℕ) → length (row layers prefix limit charge next) ≡ layers + 1
  unfolding row
  length-row limit charge = ground (
    arith,
    length-unset (layers + 1),
    length-scan layers prefix layers (reachable_from 0 next) (limit - charge) 0 0,
  )
