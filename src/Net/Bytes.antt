-- ===== src/Net/Bytes.antt =====
-- `to_le_bytes` and `from_le_bytes` of the unsigned integers: a byte is a number below 256.
use native.Mathlib.Nat.{pow-suc}
use p2p_distributed_inferenc.Prelude.{
  ℕ, zero, suc, ◌+◌, ◌*◌, ◌/◌, ◌%◌, ◌^◌, ◌<◌, ◌≡◌, refl, ap, List, [], ◌∷◌, ◌++◌, arith, length,
  take, drop, All,
}

abbrev pub IsByte : ℕ → Type 0
IsByte b = b < 256

unfoldable pub to_le_bytes : ℕ → ℕ → List ℕ
to_le_bytes zero v = []
to_le_bytes (suc width) v = (v % 256) ∷ to_le_bytes width (v / 256)

unfoldable pub from_le_bytes : List ℕ → ℕ
from_le_bytes [] = 0
from_le_bytes (b ∷ bs) = b + 256 * from_le_bytes bs

pub length-to_le_bytes : (width v : ℕ) → length (to_le_bytes width v) ≡ width
unfolding to_le_bytes
length-to_le_bytes zero v = refl
length-to_le_bytes (suc width) v = ap suc (length-to_le_bytes width (v / 256))

-- A number that fits its width is read back.
pub from_le_bytes-to_le_bytes :
    (width v : ℕ) → v < 256 ^ width → from_le_bytes (to_le_bytes width v) ≡ v
unfolding to_le_bytes from_le_bytes
from_le_bytes-to_le_bytes zero v h = omega arith
from_le_bytes-to_le_bytes (suc width) v h =
    omega (arith, from_le_bytes-to_le_bytes width (v / 256) (omega (arith, pow-suc 256 width)))

-- And the bytes of a number are the only ones of their width that stand for it.
pub to_le_bytes-from_le_bytes :
    (width : ℕ) (bs : List ℕ)
    → length bs ≡ width
    → All IsByte bs
    → to_le_bytes width (from_le_bytes bs) ≡ bs
unfolding to_le_bytes from_le_bytes
to_le_bytes-from_le_bytes zero [] e h = refl
to_le_bytes-from_le_bytes zero (b ∷ bs) e h = absurd (omega arith)
to_le_bytes-from_le_bytes (suc width) [] e h = absurd (omega arith)
to_le_bytes-from_le_bytes (suc width) (b ∷ bs) e (hb, hbs) =
    let rest = to_le_bytes-from_le_bytes width bs (omega arith) hbs in
    let low : (b + 256 * from_le_bytes bs) % 256 ≡ b = omega arith in
    let high : (b + 256 * from_le_bytes bs) / 256 ≡ from_le_bytes bs = omega arith in
    rw (low, high, rest)

pub from_le_bytes-lt : (bs : List ℕ) → All IsByte bs → from_le_bytes bs < 256 ^ length bs
unfolding from_le_bytes
from_le_bytes-lt [] h = omega arith
from_le_bytes-lt (b ∷ bs) (hb, hbs) =
    omega (arith, from_le_bytes-lt bs hbs, pow-suc 256 (length bs))

module _ {ℓ} {A : Type ℓ} where
  -- `&bytes[from..to]`, of length `count`.
  abbrev pub slice : ℕ → ℕ → List A → List A
  slice from count bytes = take count (drop from bytes)

  pub take-append : (n : ℕ) (xs ys : List A) → length xs ≡ n → take n (xs ++ ys) ≡ xs
  take-append zero [] ys e = refl
  take-append zero (x ∷ xs) ys e = absurd (omega arith)
  take-append (suc n) [] ys e = absurd (omega arith)
  take-append (suc n) (x ∷ xs) ys e = ap (◌∷◌ x) (take-append n xs ys (omega arith))

  pub drop-append : (n : ℕ) (xs ys : List A) → length xs ≡ n → drop n (xs ++ ys) ≡ ys
  drop-append zero [] ys e = refl
  drop-append zero (x ∷ xs) ys e = absurd (omega arith)
  drop-append (suc n) [] ys e = absurd (omega arith)
  drop-append (suc n) (x ∷ xs) ys e = drop-append n xs ys (omega arith)

  pub All-take {κ} : (P : A → Type κ) (n : ℕ) (xs : List A) → All P xs → All P (take n xs)
  All-take P zero xs h = tt
  All-take P (suc n) [] h = tt
  All-take P (suc n) (x ∷ xs) h = (h.0, All-take P n xs h.1)

  pub All-drop {κ} : (P : A → Type κ) (n : ℕ) (xs : List A) → All P xs → All P (drop n xs)
  All-drop P zero xs h = h
  All-drop P (suc n) [] h = tt
  All-drop P (suc n) (x ∷ xs) h = All-drop P n xs h.1
