-- ===== src/Net/Pairing/Code.antt =====
-- crates/lattice-net/src/pairing.rs: which texts are pairing codes.
use p2p_distributed_inferenc.Prelude.{
  ℕ, ◌≤◌, ◌≡◌, refl, inl, inr, true, false, ◌&&◌, List, [], ◌∷◌, ◌==◌, length, arith, All,
  Bool-cases,
}
use p2p_distributed_inferenc.Net.Error.{ok}
use p2p_distributed_inferenc.Net.Pairing.{
  is_whitespace, trim_start, trim_end, is_ascii_digit, all_digits, parse, generate,
}

abbrev pub IsDigit : ℕ → Type 0
IsDigit x = (48 ≤ x) × (x ≤ 57)

all_digits-All : (text : List ℕ) → all_digits text ≡ true → All IsDigit text
unfolding all_digits is_ascii_digit
all_digits-All [] h = tt
all_digits-All (x ∷ text) h = (ground arith, all_digits-All text (ground arith))

-- What `parse` accepts has six characters, each a digit.
pub parse-All : (text code : List ℕ) → parse text ≡ ok code → (length code ≡ 6) × All IsDigit code
unfolding parse
parse-All text code h =
    let trimmed = trim_end (trim_start text) in
    elim (Bool-cases (length trimmed == 6 && all_digits trimmed)) [
      | inr bad ↦ cc (rw bad at h)
      | inl good ↦
          let sent : ok trimmed ≡ ok code = rw good at h in
          let same : trimmed ≡ code = ground arith in
          rw (← same) (ground arith, all_digits-All trimmed (ground arith))
    ]

not_whitespace : (x : ℕ) → IsDigit x → is_whitespace x ≡ false
not_whitespace x (lo, hi) = ground arith

trim_start_digits : (text : List ℕ) → All IsDigit text → trim_start text ≡ text
unfolding trim_start
trim_start_digits [] h = refl
trim_start_digits (x ∷ text) h = rw (not_whitespace x h.0)

trim_end_digits : (text : List ℕ) → All IsDigit text → trim_end text ≡ text
unfolding trim_end
trim_end_digits [] h = refl
trim_end_digits (x ∷ []) h = rw (not_whitespace x h.0)
trim_end_digits (x ∷ y ∷ text) h = rw (trim_end_digits (y ∷ text) h.1)

All-all_digits : (text : List ℕ) → All IsDigit text → all_digits text ≡ true
unfolding all_digits is_ascii_digit
All-all_digits [] h = refl
All-all_digits (x ∷ text) h = ground (arith, All-all_digits text h.1, h.0.0, h.0.1)

parse_digits : (text : List ℕ) → length text ≡ 6 → All IsDigit text → parse text ≡ ok text
unfolding parse
parse_digits text six h =
    rw (trim_start_digits text h, trim_end_digits text h, six, All-all_digits text h)

-- Every generated code is one that `parse` reads back as it is.
pub parse-generate : (n : ℕ) → parse (generate n) ≡ ok (generate n)
unfolding generate
parse-generate n = parse_digits _ refl (
  (omega arith, omega arith),
  (
    (omega arith, omega arith),
    (
      (omega arith, omega arith),
      ((omega arith, omega arith), ((omega arith, omega arith), ((omega arith, omega arith), tt))),
    ),
  ),
)
