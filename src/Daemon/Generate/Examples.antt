-- ===== src/Daemon/Generate/Examples.antt =====
-- The check of a chain on the inputs of the tests in crates/latticed/src/generate.rs.
use p2p_distributed_inferenc.Prelude.{ℕ, ◌≡◌, refl, ◌↔◌, List, [], ◌∷◌, All, range_from}
use p2p_distributed_inferenc.Daemon.Generate.{
  Placement, here, tiled, unplaced, covers, check_from, check_tiling,
}
use p2p_distributed_inferenc.Daemon.Generate.Tiling.{run_layers, IsRange, check_tiling_iff}

abbrev local : ℕ → ℕ → Placement
local first last = record { first_layer = first; last_layer = last; host = here }

abbrev two_stages : List Placement
two_stages = local 0 11 ∷ local 11 22 ∷ []

tiles : check_tiling two_stages 22 ≡ tiled
unfolding check_tiling check_from
tiles = refl

gap : check_tiling (local 0 10 ∷ local 11 22 ∷ []) 22 ≡ unplaced 10 11
unfolding check_tiling check_from
gap = refl

short : check_tiling (local 0 11 ∷ []) 22 ≡ covers 11 22
unfolding check_tiling check_from
short = refl

check_tiling_iff_example :
    (check_tiling two_stages 22 ≡ tiled)
    ↔ (All IsRange two_stages × (run_layers two_stages ≡ range_from 0 22))
check_tiling_iff_example = check_tiling_iff two_stages 22
