-- ===== src/Daemon/Runtime/Selection.antt =====
-- crates/latticed/src/runtime.rs: what `select_device` returns.
use Prim.Native.String.{String}
use text.Mathlib.TextEquality.{eq_iff}
use text.Mathlib.Text as Text
use p2p_distributed_inferenc.Prelude.{
  ℕ, zero, suc, ◌≤◌, ◌≡◌, refl, inl, inr, Bool, true, false, Option, none, some, List, [], ◌∷◌,
  arith, get_elem?, All, retain, find, Bool-cases,
}
use p2p_distributed_inferenc.Net.Control.{GpuDevice}
use p2p_distributed_inferenc.Daemon.Runtime.{
  Selected, selected, is_discrete, is_gpu, key_le, greatest, max_by_key, with_context,
  select_device,
}

key_le_refl : (a : GpuDevice) → key_le a a ≡ true
unfolding key_le
key_le_refl a = ground arith

key_le_trans : (a b d : GpuDevice) → key_le a b ≡ true → key_le b d ≡ true → key_le a d ≡ true
unfolding key_le
key_le_trans a b d h k = ground arith

key_le_total : (a b : GpuDevice) → key_le a b ≡ false → key_le b a ≡ true
unfolding key_le
key_le_total a b h = ground arith

abbrev IsGreatest : GpuDevice → GpuDevice → List GpuDevice → Type 0
IsGreatest d best xs = (key_le best d ≡ true) × All (λ e. key_le e d ≡ true) xs

greatest-IsGreatest :
    (best d : GpuDevice) (xs : List GpuDevice) → greatest best xs ≡ d → IsGreatest d best xs
unfolding greatest
greatest-IsGreatest best d [] h = (rw (← h) (key_le_refl best), tt)
greatest-IsGreatest best d (x ∷ xs) h = elim (Bool-cases (key_le best x)) [
  | inl le ↦
      let (top, all) = greatest-IsGreatest x d xs (rw (le, greatest) at h) in
      (key_le_trans best x d le top, (top, all))
  | inr gt ↦
      let (top, all) = greatest-IsGreatest best d xs (rw (gt, greatest) at h) in
      (top, (key_le_trans x best d (key_le_total best x gt) top, all))
]

greatest-get_elem? :
    (best : GpuDevice) (xs : List GpuDevice)
    → (i : ℕ) × (get_elem? (best ∷ xs) i ≡ some (greatest best xs))
unfolding greatest
greatest-get_elem? best [] = (0, refl)
greatest-get_elem? best (x ∷ xs) = elim (Bool-cases (key_le best x)) [
  | inl le ↦ let (i, e) = greatest-get_elem? x xs in (suc i, rw (le, greatest) e)
  | inr gt ↦ let (i, e) = greatest-get_elem? best xs in rw (gt, greatest) (skip best x xs i _ e)
]
  where
    skip :
        (best x : GpuDevice) (xs : List GpuDevice) (i : ℕ) (d : GpuDevice)
        → get_elem? (best ∷ xs) i ≡ some d
        → (j : ℕ) × (get_elem? (best ∷ x ∷ xs) j ≡ some d)
    skip best x xs zero d e = (0, e)
    skip best x xs (suc i) d e = (suc (suc i), e)

-- By its kind and its free memory alone, `e` does not outrank `d`.
pub record IsOutranked (d e : GpuDevice) : Type 0 where
  pub discrete : Text.◌==◌ e.kind "gpu" ≡ true → Text.◌==◌ d.kind "gpu" ≡ true
  pub memory : Text.◌==◌ e.kind "gpu" ≡ Text.◌==◌ d.kind "gpu" → e.free_memory ≤ d.free_memory

key_le-IsOutranked : (d e : GpuDevice) → key_le e d ≡ true → IsOutranked d e
unfolding key_le is_discrete
key_le-IsOutranked d e h = record { discrete = λ k. ground arith; memory = λ k. ground arith }

outranked :
    (d : GpuDevice) (xs : List GpuDevice) → All (λ e. key_le e d ≡ true) xs → All (IsOutranked d) xs
outranked d [] h = tt
outranked d (e ∷ xs) (h, hs) = (key_le-IsOutranked d e h, outranked d xs hs)

-- Without a name, the selected GPU is one of the GPUs in the list, and none of them outranks it: where
-- one of them is discrete (of the kind "gpu") so is the selected one, and a GPU that is discrete
-- exactly where the selected one is has no more free memory.
pub select_device-IsGreatest :
    (devices : List GpuDevice) (d : GpuDevice)
    → select_device devices none ≡ selected d
    → ((i : ℕ) × (get_elem? (retain is_gpu devices) i ≡ some d))
      × All (IsOutranked d) (retain is_gpu devices)
unfolding select_device
select_device-IsGreatest devices d h = of_gpus (retain is_gpu devices) h
  where
    of_gpus :
        (gpus : List GpuDevice)
        → with_context Selected.no_gpu (max_by_key gpus) ≡ selected d
        → ((i : ℕ) × (get_elem? gpus i ≡ some d)) × All (IsOutranked d) gpus
    of_gpus [] h = cc
    of_gpus (x ∷ xs) h =
        let same : greatest x xs ≡ d = ground arith in
        (
          rw (← same) (greatest-get_elem? x xs),
          outranked d (x ∷ xs) (greatest-IsGreatest x d xs same),
        )

find_retained :
    (p q : GpuDevice → Bool) (devices : List GpuDevice) (d : GpuDevice)
    → find p (retain q devices) ≡ some d
    → (p d ≡ true) × (q d ≡ true)
find_retained p q [] d h = cc
find_retained p q (x ∷ xs) d h = elim (Bool-cases (q x)) [
  | inr other ↦ find_retained p q xs d (rw other at h)
  | inl kept ↦ elim (Bool-cases (p x)) [
    | inr other ↦ find_retained p q xs d (rw (kept, other) at h)
    | inl hit ↦
        let found : some x ≡ some d = rw (kept, hit) at h in
        let same : x ≡ d = ground arith in rw (← same) (hit, kept)
  ]
]

-- With a name, the selected device has that name and is a GPU.
pub select_device_named :
    (devices : List GpuDevice) (name : String) (d : GpuDevice)
    → select_device devices (some name) ≡ selected d
    → (d.name ≡ name) × (is_gpu d ≡ true)
unfolding select_device
select_device_named devices name d h =
    of_found (find (λ device. Text.◌==◌ device.name name) (retain is_gpu devices)) refl h
  where
    of_found :
        (found : Option GpuDevice)
        → find (λ device. Text.◌==◌ device.name name) (retain is_gpu devices) ≡ found
        → with_context Selected.unavailable found ≡ selected d
        → (d.name ≡ name) × (is_gpu d ≡ true)
    of_found none e h = cc
    of_found (some x) e h =
        let same : x ≡ d = ground arith in
        let (named, gpu) = find_retained _ is_gpu devices x e in
        rw (← same) ((eq_iff x.name name).0 named, gpu)
