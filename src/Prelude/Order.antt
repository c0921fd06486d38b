-- ===== src/Prelude/Order.antt =====
-- Total orders as Rust's `Ord`, and byte strings in lexicographic order.
use Prim.Native.Nat.{ℕ, compare, Ordering}
use mathlib.Core.Path.{◌≡◌, refl}
use mathlib.Core.Bool.{Bool, true, false}
use mathlib.Core.List.{List, [], ◌∷◌}
use native.Mathlib.Omega.{arith}

pub record Ord {ℓ} (A : Type ℓ) : Type ℓ where
  pub cmp : A → A → Ordering
  pub cmp_refl : (a : A) → cmp a a ≡ Ordering.eq
  pub cmp_eq : (a b : A) → cmp a b ≡ Ordering.eq → a ≡ b
  pub cmp_gt : (a b : A) → cmp a b ≡ Ordering.lt → cmp b a ≡ Ordering.gt
  pub cmp_lt : (a b : A) → cmp a b ≡ Ordering.gt → cmp b a ≡ Ordering.lt
  pub cmp_trans :
      (a b c : A) → cmp a b ≡ Ordering.lt → cmp b c ≡ Ordering.lt → cmp a c ≡ Ordering.lt

-- Lexicographic, a proper prefix first.
unfoldable pub cmp_bytes : List ℕ → List ℕ → Ordering
cmp_bytes [] [] = Ordering.eq
cmp_bytes [] (y ∷ ys) = Ordering.lt
cmp_bytes (x ∷ xs) [] = Ordering.gt
cmp_bytes (x ∷ xs) (y ∷ ys) = elim (compare x y) [
  | Ordering.lt ↦ Ordering.lt
  | Ordering.eq ↦ cmp_bytes xs ys
  | Ordering.gt ↦ Ordering.gt
]

pub cmp_bytes_refl : (xs : List ℕ) → cmp_bytes xs xs ≡ Ordering.eq
unfolding cmp_bytes
cmp_bytes_refl [] = refl
cmp_bytes_refl (x ∷ xs) = ground (arith, cmp_bytes_refl xs)

pub cmp_bytes_eq : (xs ys : List ℕ) → cmp_bytes xs ys ≡ Ordering.eq → xs ≡ ys
unfolding cmp_bytes
cmp_bytes_eq [] [] h = refl
cmp_bytes_eq [] (y ∷ ys) h = cc
cmp_bytes_eq (x ∷ xs) [] h = cc
cmp_bytes_eq (x ∷ xs) (y ∷ ys) h = ground (arith, cmp_bytes_eq xs ys)

pub cmp_bytes_gt : (xs ys : List ℕ) → cmp_bytes xs ys ≡ Ordering.lt → cmp_bytes ys xs ≡ Ordering.gt
unfolding cmp_bytes
cmp_bytes_gt [] [] h = cc
cmp_bytes_gt [] (y ∷ ys) h = refl
cmp_bytes_gt (x ∷ xs) [] h = cc
cmp_bytes_gt (x ∷ xs) (y ∷ ys) h = ground (arith, cmp_bytes_gt xs ys)

pub cmp_bytes_lt : (xs ys : List ℕ) → cmp_bytes xs ys ≡ Ordering.gt → cmp_bytes ys xs ≡ Ordering.lt
unfolding cmp_bytes
cmp_bytes_lt [] [] h = cc
cmp_bytes_lt [] (y ∷ ys) h = cc
cmp_bytes_lt (x ∷ xs) [] h = refl
cmp_bytes_lt (x ∷ xs) (y ∷ ys) h = ground (arith, cmp_bytes_lt xs ys)

pub cmp_bytes_trans :
    (xs ys zs : List ℕ)
    → cmp_bytes xs ys ≡ Ordering.lt
    → cmp_bytes ys zs ≡ Ordering.lt
    → cmp_bytes xs zs ≡ Ordering.lt
unfolding cmp_bytes
cmp_bytes_trans [] [] zs h k = cc
cmp_bytes_trans [] (y ∷ ys) [] h k = cc
cmp_bytes_trans [] (y ∷ ys) (z ∷ zs) h k = refl
cmp_bytes_trans (x ∷ xs) [] zs h k = cc
cmp_bytes_trans (x ∷ xs) (y ∷ ys) [] h k = cc
cmp_bytes_trans (x ∷ xs) (y ∷ ys) (z ∷ zs) h k = ground (arith, cmp_bytes_trans xs ys zs)

instance abbrev pub bytes_ord : Ord (List ℕ)
bytes_ord = record {
  cmp = cmp_bytes;
  cmp_refl = cmp_bytes_refl;
  cmp_eq = cmp_bytes_eq;
  cmp_gt = cmp_bytes_gt;
  cmp_lt = cmp_bytes_lt;
  cmp_trans = cmp_bytes_trans;
}

-- `a == b` and `a <= b` by the order.
abbrev pub is_eq : Ordering → Bool
is_eq Ordering.eq = true
is_eq _ = false

abbrev pub is_le : Ordering → Bool
is_le Ordering.gt = false
is_le _ = true

abbrev pub is_lt : Ordering → Bool
is_lt Ordering.lt = true
is_lt _ = false
