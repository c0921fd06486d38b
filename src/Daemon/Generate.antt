-- ===== src/Daemon/Generate.antt =====
-- crates/latticed/src/generate.rs: where the layer ranges of a chain run, and the check of a chain
-- before any shard is opened. Layer numbers are u32 in the source and only compared here.
pub mod Tiling
pub mod Pipeline
pub mod Decoding
mod Examples
use p2p_distributed_inferenc.Prelude.{
  ℕ, Bool, true, false, not, List, [], ◌∷◌, ◌==◌, leb, if◌then◌else◌,
}
use p2p_distributed_inferenc.Net.Identity.{DeviceId}

pub data Host : Type 0 where
  here : Host
  peer : DeviceId → Host

pub record Placement : Type 0 where
  pub first_layer : ℕ
  pub last_layer : ℕ
  pub host : Host

-- `Ok(())`, or the numbers that the source's three messages show.
pub data Checked : Type 0 where
  tiled : Checked
  unplaced : ℕ → ℕ → Checked
  not_a_range : ℕ → ℕ → Checked
  covers : ℕ → ℕ → Checked

-- The loop over the placements, from `next` on, and the last comparison.
unfoldable pub check_from : ℕ → ℕ → List Placement → Checked
check_from layers next [] = if next == layers then tiled else covers next layers
check_from layers next (place ∷ places) =
    let rest = check_from layers place.last_layer places in
    if not (place.first_layer == next)
    then unplaced next place.first_layer
    else if leb place.last_layer place.first_layer
    then not_a_range place.first_layer place.last_layer
    else rest

unfoldable pub check_tiling : List Placement → ℕ → Checked
check_tiling places layers = check_from layers 0 places
