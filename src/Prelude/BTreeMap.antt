-- ===== src/Prelude/BTreeMap.antt =====
-- `BTreeMap`: entries in ascending key order.
use Prim.Native.Nat.{Ordering}
use mathlib.Core.Path.{◌≡◌, refl, sym, ◌∙◌}
use mathlib.Core.Option.{Option, none, some}
use mathlib.Core.List.{List, [], ◌∷◌, ◌++◌, append-nil, append_assoc}
use native.Mathlib.Omega.{arith}
use p2p_distributed_inferenc.Prelude.Tests.{if◌then◌else◌}
use p2p_distributed_inferenc.Prelude.Order.{Ord, is_eq}

module _ {K V : Type 0} ⦃o : Ord K⦄ where
  unfoldable pub get : K → List (K × V) → Option V
  get k [] = none
  get k ((j, v) ∷ m) = let rest = get k m in if is_eq (o.cmp k j) then some v else rest

  -- In key order; the value of a key that is there is replaced.
  unfoldable pub insert : K → V → List (K × V) → List (K × V)
  insert k v [] = (k, v) ∷ []
  insert k v ((j, w) ∷ m) = elim (o.cmp k j) [
    | Ordering.lt ↦ (k, v) ∷ (j, w) ∷ m
    | Ordering.eq ↦ (k, v) ∷ m
    | Ordering.gt ↦ (j, w) ∷ insert k v m
  ]

  unfoldable pub remove : K → List (K × V) → List (K × V)
  remove k [] = []
  remove k ((j, w) ∷ m) = let rest = remove k m in if is_eq (o.cmp k j) then rest else (j, w) ∷ rest

  pub get-insert :
      (k j : K) (v : V) (m : List (K × V))
      → get j (insert k v m) ≡ (if is_eq (o.cmp j k) then some v else get j m)
  unfolding get insert
  get-insert k j v [] = refl
  get-insert k j v ((i, w) ∷ m) = ground (
    arith,
    get-insert k j v m,
    o.cmp_eq k i,
    o.cmp_eq j i,
    o.cmp_eq j k,
    o.cmp_refl i,
    o.cmp_refl k,
  )

  pub get-remove :
      (k j : K) (m : List (K × V))
      → get j (remove k m) ≡ (if is_eq (o.cmp j k) then none else get j m)
  unfolding get remove
  get-remove k j [] = ground arith
  get-remove k j ((i, w) ∷ m) = ground (
    arith,
    get-remove k j m,
    o.cmp_eq k i,
    o.cmp_eq j i,
    o.cmp_eq j k,
    o.cmp_refl i,
    o.cmp_refl k,
  )

  -- Every key of the map is above `k`.
  abbrev pub Above : K → List (K × V) → Type 0
  Above k [] = Unit {0}
  Above k ((j, v) ∷ m) = (o.cmp k j ≡ Ordering.lt) × Above k m

  abbrev pub IsSorted : List (K × V) → Type 0
  IsSorted [] = Unit {0}
  IsSorted ((k, v) ∷ m) = Above k m × IsSorted m

  Above-trans : (k j : K) (m : List (K × V)) → o.cmp k j ≡ Ordering.lt → Above j m → Above k m
  Above-trans k j [] h a = tt
  Above-trans k j ((i, v) ∷ m) h a = (o.cmp_trans k j i h a.0, Above-trans k j m h a.1)

  Above-insert :
      (i k : K) (v : V) (m : List (K × V))
      → o.cmp i k ≡ Ordering.lt
      → Above i m
      → Above i (insert k v m)
  unfolding insert
  Above-insert i k v [] h a = (h, tt)
  Above-insert i k v ((j, w) ∷ m) h a = ground (arith, Above-insert i k v m h a.1)

  pub insert-IsSorted : (k : K) (v : V) (m : List (K × V)) → IsSorted m → IsSorted (insert k v m)
  unfolding insert
  insert-IsSorted k v [] s = (tt, tt)
  insert-IsSorted k v ((j, w) ∷ m) (a, s) = ground (
    arith,
    insert-IsSorted k v m s,
    Above-trans k j m,
    Above-insert j k v m,
    o.cmp_lt k j,
    o.cmp_eq k j,
  )

  Above-remove : (i k : K) (m : List (K × V)) → Above i m → Above i (remove k m)
  unfolding remove
  Above-remove i k [] a = tt
  Above-remove i k ((j, w) ∷ m) a = ground (arith, Above-remove i k m a.1)

  pub remove-IsSorted : (k : K) (m : List (K × V)) → IsSorted m → IsSorted (remove k m)
  unfolding remove
  remove-IsSorted k [] s = tt
  remove-IsSorted k ((j, w) ∷ m) (a, s) =
      ground (arith, remove-IsSorted k m s, Above-remove j k m a)

  -- `collect` into a map: one `insert` after the other.
  unfoldable pub collect : List (K × V) → List (K × V) → List (K × V)
  collect m [] = m
  collect m ((k, v) ∷ rest) = collect (insert k v m) rest

  pub collect-IsSorted : (m l : List (K × V)) → IsSorted m → IsSorted (collect m l)
  unfolding collect
  collect-IsSorted m [] s = s
  collect-IsSorted m ((k, v) ∷ rest) s =
      collect-IsSorted (insert k v m) rest (insert-IsSorted k v m s)

  abbrev Below : List (K × V) → K → Type 0
  Below [] k = Unit {0}
  Below ((j, v) ∷ m) k = (o.cmp j k ≡ Ordering.lt) × Below m k

  insert_last : (k : K) (v : V) (m : List (K × V)) → Below m k → insert k v m ≡ m ++ (k, v) ∷ []
  unfolding insert
  insert_last k v [] b = refl
  insert_last k v ((j, w) ∷ m) b = ground (arith, insert_last k v m b.1, o.cmp_gt j k b.0)

  abbrev Meets : List (K × V) → List (K × V) → Type 0
  Meets m [] = Unit {0}
  Meets m ((k, v) ∷ rest) = Below m k × Meets m rest

  Below-append :
      (m : List (K × V)) (j k : K) (v : V)
      → Below m k
      → o.cmp j k ≡ Ordering.lt
      → Below (m ++ (j, v) ∷ []) k
  Below-append [] j k v b h = (h, tt)
  Below-append ((i, w) ∷ m) j k v b h = (b.0, Below-append m j k v b.1 h)

  Meets-append :
      (m rest : List (K × V)) (j : K) (v : V)
      → Meets m rest
      → Above j rest
      → Meets (m ++ (j, v) ∷ []) rest
  Meets-append m [] j v h a = tt
  Meets-append m ((k, w) ∷ rest) j v h a =
      (Below-append m j k v h.0 a.0, Meets-append m rest j v h.1 a.1)

  collect-append : (m l : List (K × V)) → Meets m l → IsSorted l → collect m l ≡ m ++ l
  unfolding collect
  collect-append m [] h s = sym (append-nil m)
  collect-append m ((k, v) ∷ rest) (b, h) (a, s) = rw (insert_last k v m b) (
      collect-append (m ++ (k, v) ∷ []) rest (Meets-append m rest k v h a) s
      ∙ append_assoc m ((k, v) ∷ []) rest)

  Meets-nil : (l : List (K × V)) → Meets [] l
  Meets-nil [] = tt
  Meets-nil ((k, v) ∷ rest) = (tt, Meets-nil rest)

  -- The entries of a map, collected again, are the map.
  pub collect_entries : (m : List (K × V)) → IsSorted m → collect [] m ≡ m
  collect_entries m s = collect-append [] m (Meets-nil m) s
