-- ===== src/Engine/TensorName.antt =====
-- The names of tensors, read as crates/lattice-engine/src/facts.rs and candle.rs do. A name is the list
-- of its code points.
use p2p_distributed_inferenc.Prelude.{
  ℕ, ◌+◌, ◌*◌, ◌-◌, Bool, not, ◌&&◌, Option, none, some, List, [], ◌∷◌, ltb, leb, ◌==◌,
  if◌then◌else◌, take_while,
}

-- `strip_prefix`
unfoldable pub strip_prefix : List ℕ → List ℕ → Option (List ℕ)
strip_prefix [] text = some text
strip_prefix (p ∷ ps) [] = none
strip_prefix (p ∷ ps) (x ∷ text) = let rest = strip_prefix ps text in if p == x then rest else none

-- `b"blk."`
abbrev pub blk : List ℕ
blk = 98 ∷ 108 ∷ 107 ∷ 46 ∷ []

-- `split('.').next()`
abbrev pub first_part : List ℕ → List ℕ
first_part = take_while (λ x. not (x == 46))

abbrev pub is_ascii_digit : ℕ → Bool
is_ascii_digit x = leb 48 x && leb x 57

unfoldable pub digits : ℕ → List ℕ → Option ℕ
digits n [] = some n
digits n (x ∷ text) =
    let rest = digits (n * 10 + (x - 48)) text in if is_ascii_digit x then rest else none

abbrev pub unsigned : List ℕ → Option ℕ
unsigned [] = none
unsigned (x ∷ text) = digits 0 (x ∷ text)

abbrev pub without_plus : List ℕ → List ℕ
without_plus [] = []
without_plus (x ∷ text) = if x == 43 then text else x ∷ text

abbrev pub below : ℕ → Option ℕ → Option ℕ
below bound none = none
below bound (some n) = if ltb n bound then some n else none

-- `str::parse` of an unsigned integer below `bound`: digits, after a plus sign or not. Overflow on the
-- way is overflow at the end, since no digit makes the number smaller.
unfoldable pub parse_uint : ℕ → List ℕ → Option ℕ
unfolding digits
parse_uint bound text = below bound (unsigned (without_plus text))

abbrev pub layer_of_rest : ℕ → Option (List ℕ) → Option (Option ℕ)
layer_of_rest bound none = none
layer_of_rest bound (some rest) = some (parse_uint bound (first_part rest))

-- Whether a name is one of a block, and the block's number where it is readable and below `bound`.
unfoldable pub block_of : ℕ → List ℕ → Option (Option ℕ)
unfolding strip_prefix
block_of bound name = layer_of_rest bound (strip_prefix blk name)
