-- ===== src/Daemon/Runtime/Examples.antt =====
-- The selection on devices like those of the tests in crates/latticed/src/runtime.rs.
use p2p_distributed_inferenc.Prelude.{
  ℕ, ◌≡◌, refl, none, some, List, [], ◌∷◌, get_elem?, All, retain,
}
use p2p_distributed_inferenc.Net.Control.{GpuDevice}
use p2p_distributed_inferenc.Daemon.Runtime.{
  selected, is_discrete, is_gpu, key_le, greatest, select_device,
}
use p2p_distributed_inferenc.Daemon.Runtime.Selection.{IsOutranked, select_device-IsGreatest}

abbrev discrete : GpuDevice
discrete = record {
  name = "CUDA0";
  description = "test";
  kind = "gpu";
  total_memory = 8;
  free_memory = 8;
}

abbrev integrated : GpuDevice
integrated = record {
  name = "Vulkan0";
  description = "test";
  kind = "igpu";
  total_memory = 64;
  free_memory = 64;
}

abbrev both : List GpuDevice
both = discrete ∷ integrated ∷ []

picks_discrete : select_device both none ≡ selected discrete
unfolding select_device is_gpu is_discrete key_le greatest
picks_discrete = refl

picks_named : select_device both (some "Vulkan0") ≡ selected integrated
unfolding select_device is_gpu is_discrete
picks_named = refl

select_device-IsGreatest_example :
    ((i : ℕ) × (get_elem? (retain is_gpu both) i ≡ some discrete))
    × All (IsOutranked discrete) (retain is_gpu both)
select_device-IsGreatest_example = select_device-IsGreatest both discrete picks_discrete
