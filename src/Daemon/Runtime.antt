-- ===== src/Daemon/Runtime.antt =====
-- crates/latticed/src/runtime.rs: which GPU a worker offers.
pub mod Selection
pub mod Worker
mod Examples
use Prim.Native.String.{String}
use text.Mathlib.Text as Text
use p2p_distributed_inferenc.Prelude.{
  ℕ, Bool, true, false, not, ◌&&◌, ◌||◌, Option, none, some, List, [], ◌∷◌, leb, if◌then◌else◌,
  retain, find,
}
use p2p_distributed_inferenc.Net.Control.{GpuDevice}

-- The device, or which of the two messages.
pub data Selected : Type 0 where
  selected : GpuDevice → Selected
  unavailable : Selected
  no_gpu : Selected

unfoldable pub is_discrete : GpuDevice → Bool
is_discrete device = Text.◌==◌ device.kind "gpu"

unfoldable pub is_gpu : GpuDevice → Bool
unfolding is_discrete
is_gpu device = is_discrete device || Text.◌==◌ device.kind "igpu"

-- The order of the keys `(device.kind == "gpu", device.free_memory)`.
unfoldable pub key_le : GpuDevice → GpuDevice → Bool
key_le a b =
    (not (is_discrete a) && is_discrete b)
    || ((is_discrete a || not (is_discrete b))
        && (is_discrete b || not (is_discrete a))
        && leb a.free_memory b.free_memory)

-- `Iterator::max_by_key` keeps the later of two that compare equal.
unfoldable pub greatest : GpuDevice → List GpuDevice → GpuDevice
greatest best [] = best
greatest best (x ∷ xs) = greatest (if key_le best x then x else best) xs

abbrev pub max_by_key : List GpuDevice → Option GpuDevice
max_by_key [] = none
max_by_key (x ∷ xs) = some (greatest x xs)

abbrev pub with_context : Selected → Option GpuDevice → Selected
with_context failure none = failure
with_context failure (some device) = selected device

unfoldable pub select_device : List GpuDevice → Option String → Selected
select_device devices none = with_context no_gpu (max_by_key (retain is_gpu devices))
select_device devices (some name) =
    with_context unavailable (find (λ device. Text.◌==◌ device.name name) (retain is_gpu devices))
