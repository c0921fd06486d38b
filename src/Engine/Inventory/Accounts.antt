-- ===== src/Engine/Inventory/Accounts.antt =====
-- crates/lattice-engine/src/facts.rs: what the sums of `ModelInventory::read` are.
use text.Mathlib.Text as Text
use text.Mathlib.TextEquality.{eq_iff}
use p2p_distributed_inferenc.Prelude.{
  ℕ, zero, suc, ◌+◌, ◌^◌, ◌≤◌, ◌<◌, ◌≡◌, refl, ap, ◌∙◌, inl, inr, true, false, not, ◌&&◌, Option,
  none, some, List, [], ◌∷◌, map, arith, leb, ◌==◌, if◌then◌else◌, length, get_or, sum, All,
  Bool-cases, Option-cases,
}
use p2p_distributed_inferenc.Engine.Error.{ok, Result-cases}
use p2p_distributed_inferenc.Engine.Facts.{ModelFacts, ModelInventory}
use p2p_distributed_inferenc.Engine.Metadata.{read_facts}
use p2p_distributed_inferenc.Engine.TensorName.{block_of}
use p2p_distributed_inferenc.Engine.Inventory.{
  TensorInfo, Content, tensor_bytes, add_at, Sums, add_to, account, account_each, zeros,
  contains_zero, not_split, read,
}

abbrev pub bytes_of : Option ℕ → ℕ
bytes_of none = 0
bytes_of (some n) = n

-- What a tensor in block `place` adds to layer `i`, and to what is no layer's.
abbrev pub layer_share : ℕ → Option (Option ℕ) → ℕ → ℕ
layer_share i none bytes = 0
layer_share i (some none) bytes = 0
layer_share i (some (some j)) bytes = if j == i then bytes else 0

abbrev pub output_share : Option (Option ℕ) → ℕ → ℕ
output_share none bytes = bytes
output_share (some _) bytes = 0

abbrev pub place_of : TensorInfo → Option (Option ℕ)
place_of t = block_of (2 ^ 64) t.name

-- The weights of the tensors of block `i`, and of those of no block.
abbrev pub layer_weight : ℕ → List TensorInfo → ℕ
layer_weight i tensors =
    sum (map (λ t. layer_share i (place_of t) (bytes_of (tensor_bytes t))) tensors)

abbrev pub output_weight : List TensorInfo → ℕ
output_weight tensors =
    sum (map (λ t. output_share (place_of t) (bytes_of (tensor_bytes t))) tensors)

get_or-add_at :
    (k bytes i : ℕ) (xs ys : List ℕ)
    → add_at k bytes xs ≡ some ys
    → get_or ys i 0 ≡ get_or xs i 0 + (if k == i then bytes else 0)
unfolding add_at
get_or-add_at k bytes i [] ys h = cc
get_or-add_at zero bytes zero (x ∷ xs) ys h = ground arith
get_or-add_at zero bytes (suc i) (x ∷ xs) ys h = ground arith
get_or-add_at (suc k) bytes i (x ∷ xs) ys h = elim (Option-cases (add_at k bytes xs)) [
  | inl failed ↦ cc
  | inr (zs, e) ↦ tail i (get_or-add_at k bytes) zs e (rw e at h)
]
  where
    tail :
        (i : ℕ)
        → ((j : ℕ) (xs zs : List ℕ)
            → add_at k bytes xs ≡ some zs
            → get_or zs j 0 ≡ get_or xs j 0 + (if k == j then bytes else 0))
        → (zs : List ℕ) → add_at k bytes xs ≡ some zs
        → some (x ∷ zs) ≡ some ys
        → get_or ys i 0 ≡ get_or (x ∷ xs) i 0 + (if suc k == i then bytes else 0)
    tail zero ih zs e h = ground arith
    tail (suc j) ih zs e h = ground (arith, ih j xs zs e)

length-add_at : (k bytes : ℕ) (xs ys : List ℕ) → add_at k bytes xs ≡ some ys → length ys ≡ length xs
unfolding add_at
length-add_at k bytes [] ys h = cc
length-add_at zero bytes (x ∷ xs) ys h = ground arith
length-add_at (suc k) bytes (x ∷ xs) ys h = elim (Option-cases (add_at k bytes xs)) [
  | inl failed ↦ cc
  | inr (zs, e) ↦
      let ih = length-add_at k bytes xs zs e in
      let p : some (x ∷ zs) ≡ some ys = rw e at h in ground arith
]

-- What accounting for one tensor changes.
record IsAdded (i : ℕ) (place : Option (Option ℕ)) (bytes : ℕ) (before after : Sums) : Type 0 where
  pub layer : get_or after.0 i 0 ≡ get_or before.0 i 0 + layer_share i place bytes
  pub output : after.1 ≡ before.1 + output_share place bytes
  pub count : length after.0 ≡ length before.0

add_to-IsAdded :
    (i bytes : ℕ) (place : Option (Option ℕ)) (before after : Sums)
    → add_to place bytes before ≡ some after
    → IsAdded i place bytes before after
add_to-IsAdded i bytes none (layers, output) (layers', output') h = record {
  layer = ground arith;
  output = ground arith;
  count = ground arith;
}
add_to-IsAdded i bytes (some none) before after h = cc
add_to-IsAdded i bytes (some (some k)) (layers, output) (layers', output') h =
    elim (Option-cases (add_at k bytes layers)) [
      | inl failed ↦ cc
      | inr (ys, e) ↦
          let p : ◌≡◌ {A = Option Sums} (some (ys, output)) (some (layers', output')) = rw e at h in
          record {
            layer = ground (arith, get_or-add_at k bytes i layers ys e);
            output = ground arith;
            count = ground (arith, length-add_at k bytes layers ys e);
          }
    ]

account-IsAdded :
    (i : ℕ) (t : TensorInfo) (before after : Sums)
    → account t before ≡ some after
    → IsAdded i (place_of t) (bytes_of (tensor_bytes t)) before after
unfolding account
account-IsAdded i t before after h = elim (Option-cases (tensor_bytes t)) [
  | inl bad ↦ cc (rw bad at h)
  | inr (bytes, e) ↦ rw e (add_to-IsAdded i bytes (place_of t) before after (rw e at h))
]

record IsAccounted (i : ℕ) (tensors : List TensorInfo) (before after : Sums) : Type 0 where
  pub layer : get_or after.0 i 0 ≡ get_or before.0 i 0 + layer_weight i tensors
  pub output : after.1 ≡ before.1 + output_weight tensors
  pub count : length after.0 ≡ length before.0

account_each-IsAccounted :
    (i : ℕ) (tensors : List TensorInfo) (before after : Sums)
    → account_each tensors before ≡ ok after
    → IsAccounted i tensors before after
unfolding account_each
account_each-IsAccounted i [] before after h =
    let same : before ≡ after = ground arith in
    record { layer = rw same (omega arith); output = rw same (omega arith); count = rw same refl }
account_each-IsAccounted i (t ∷ tensors) before after h = elim (Option-cases (account t before)) [
  | inl bad ↦ cc (rw bad at h)
  | inr (next, e) ↦
      let one = account-IsAdded i t before next e in
      let rest = account_each-IsAccounted i tensors next after (rw e at h) in
      record {
        layer = omega (arith, one.layer, rest.layer);
        output = omega (arith, one.output, rest.output);
        count = omega (arith, one.count, rest.count);
      }
]

get_or-zeros : (n i : ℕ) → get_or (zeros n) i 0 ≡ 0
unfolding zeros
get_or-zeros zero i = refl
get_or-zeros (suc n) zero = refl
get_or-zeros (suc n) (suc i) = get_or-zeros n i

length-zeros : (n : ℕ) → length (zeros n) ≡ n
unfolding zeros
length-zeros zero = refl
length-zeros (suc n) = ap suc (length-zeros n)

contains_zero-All : (xs : List ℕ) → contains_zero xs ≡ false → All (λ x. 0 < x) xs
unfolding contains_zero
contains_zero-All [] h = tt
contains_zero-All (x ∷ xs) h = (ground arith, contains_zero-All xs (ground arith))

-- Every layer weighs what its own tensors weigh, and something; the rest is in `output_bytes`.
pub record IsWeighed (content : Content) (inventory : ModelInventory) : Type 0 where
  pub layer : (i : ℕ) → get_or inventory.layer_bytes i 0 ≡ layer_weight i content.tensor_infos
  pub output : inventory.output_bytes ≡ output_weight content.tensor_infos
  pub count : length inventory.layer_bytes ≡ inventory.facts.layers
  pub positive : All (λ bytes. 0 < bytes) inventory.layer_bytes
  pub some_layer : 0 < inventory.facts.layers
  pub bounded : inventory.facts.layers ≤ 4096
  pub llama : inventory.facts.arch ≡ "llama"

module _ (content : Content) (inventory : ModelInventory) where
  -- The guards and the sums that a successful `read` went through.
  record Passes : Type 0 where
    pub facts : ModelFacts
    pub sums : Sums
    pub found : read_facts content.metadata ≡ ok facts
    pub arch : Text.◌==◌ facts.arch "llama" ≡ true
    pub bound : (not (facts.layers == 0) && leb facts.layers 4096) ≡ true
    pub accounted : account_each content.tensor_infos (zeros facts.layers, 0) ≡ ok sums
    pub full : contains_zero sums.0 ≡ false
    pub same : record { facts = facts; layer_bytes = sums.0; output_bytes = sums.1 } ≡ inventory

  weighed : Passes → IsWeighed content inventory
  weighed p =
      let at = λ (i : ℕ).
        account_each-IsAccounted i content.tensor_infos (zeros p.facts.layers, 0) p.sums
          p.accounted in
      rw (← p.same) (record {
        layer = λ i. omega (arith, (at i).layer, get_or-zeros p.facts.layers i);
        output = omega (arith, (at 0).output);
        count = (at 0).count ∙ length-zeros p.facts.layers;
        positive = contains_zero-All p.sums.0 p.full;
        some_layer = ground (arith, p.bound);
        bounded = ground (arith, p.bound);
        llama = (eq_iff p.facts.arch "llama").0 p.arch;
      })

  read-Passes : read content ≡ ok inventory → Passes
  unfolding read
  read-Passes h =
      elim (Result-cases (not_split content.metadata (content.metadata "split.count"))) [
        | inr (_, e) ↦ cc (rw e at h)
        | inl (_, e) ↦ elim (Result-cases (read_facts content.metadata)) [
          | inr (_, f) ↦ cc (rw (e, f) at h)
          | inl (facts, f) ↦ elim (Bool-cases (Text.◌==◌ facts.arch "llama")) [
            | inr a ↦ cc (rw (e, f, a) at h)
            | inl a ↦ elim (Bool-cases (not (facts.layers == 0) && leb facts.layers 4096)) [
              | inr b ↦ cc (rw (e, f, a, b) at h)
              | inl b ↦
                  elim (Result-cases (account_each content.tensor_infos (zeros facts.layers, 0))) [
                    | inr (_, s) ↦ cc (rw (e, f, a, b, s) at h)
                    | inl (sums, s) ↦ elim (Bool-cases (contains_zero sums.0)) [
                      | inl z ↦ cc (rw (e, f, a, b, s, z) at h)
                      | inr z ↦
                          let found = rw (e, f, a, b, s, z) at h in
                          record {
                            facts = facts;
                            sums = sums;
                            found = f;
                            arch = a;
                            bound = b;
                            accounted = s;
                            full = z;
                            same = ground arith;
                          }
                    ]
                  ]
            ]
          ]
        ]
      ]

  -- An inventory that is read weighs every layer by the tensors of its own block and no others, with
  -- none of the sums wrapping around, has between 1 and 4096 layers, each with some weight, and is of
  -- a llama model.
  pub read-IsWeighed : read content ≡ ok inventory → IsWeighed content inventory
  read-IsWeighed h = weighed (read-Passes h)

  pub read-account_each :
      read content ≡ ok inventory
      → (before : Sums) × (after : Sums) × (account_each content.tensor_infos before ≡ ok after)
  read-account_each h = let p = read-Passes h in ((zeros p.facts.layers, 0), p.sums, p.accounted)

  pub read-read_facts :
      read content ≡ ok inventory → read_facts content.metadata ≡ ok inventory.facts
  read-read_facts h =
      let p = read-Passes h in p.found ∙ ap (λ (i : ModelInventory). ok i.facts) p.same
