-- ===== src/Engine/Candle/Boundary.antt =====
-- crates/lattice-engine/src/candle.rs: hidden states that leave one shard and enter the next.
use p2p_distributed_inferenc.Prelude.{
  ℕ, ◌*◌, ◌%◌, ◌^◌, ◌<◌, ◌≡◌, refl, true, some, List, [], ◌∷◌, arith, length, All, ◌==◌,
}
use p2p_distributed_inferenc.Net.Bytes.{to_le_bytes, from_le_bytes-to_le_bytes}
use p2p_distributed_inferenc.Engine.Dtype.{f32}
use p2p_distributed_inferenc.Engine.Error.{ok, or_fail, engine, tensor_library}
use p2p_distributed_inferenc.Engine.Abi.{Activation, activation}
use p2p_distributed_inferenc.Engine.Candle.{
  Library, chunks4, le_bytes, values_of, to_tensor, from_tensor,
}

chunks4-le_bytes :
    (values : List ℕ) → All (λ v. v < 2 ^ 32) values → chunks4 (le_bytes 4 values) ≡ values
unfolding chunks4 le_bytes to_le_bytes
chunks4-le_bytes [] h = refl
chunks4-le_bytes (v ∷ values) h =
    rw (from_le_bytes-to_le_bytes 4 v (omega (arith, h.0)), chunks4-le_bytes values h.1)

length-le_bytes : (values : List ℕ) → length (le_bytes 4 values) ≡ 4 * length values
unfolding le_bytes to_le_bytes
length-le_bytes [] = omega arith
length-le_bytes (v ∷ values) = omega (arith, length-le_bytes values)

-- An f32 boundary loses nothing: what one shard yields, the next takes in value by value and in the
-- same shape, wherever the values fill the shape and its size is one that a usize can hold.
pub to_tensor-from_tensor :
    (lib : Library) (out : lib.Tensor) (batch n_tokens hidden_dim : ℕ) (values : List ℕ)
    → lib.dims3 out ≡ some (batch, n_tokens, hidden_dim)
    → lib.f32_values out ≡ some values
    → length values ≡ n_tokens * hidden_dim
    → All (λ v. v < 2 ^ 32) values
    → n_tokens < 2 ^ 32
    → hidden_dim < 2 ^ 32
    → n_tokens * hidden_dim * 4 < 2 ^ 64
    → (a : Activation) × (from_tensor lib out f32 ≡ ok a)
      × (to_tensor lib a
          ≡ or_fail (engine tensor_library) (lib.from_vec values (1, n_tokens, hidden_dim)))
unfolding from_tensor to_tensor values_of activation
to_tensor-from_tensor lib out batch n_tokens hidden_dim values dims vals full small hn hh fits =
    let n : n_tokens % 2 ^ 32 ≡ n_tokens = omega arith in
    let h : hidden_dim % 2 ^ 32 ≡ hidden_dim = omega arith in
    let want : (n_tokens * hidden_dim % 2 ^ 64) * 4 % 2 ^ 64 ≡ length (le_bytes 4 values) =
      omega (arith, length-le_bytes values) in
    let sized : (length (le_bytes 4 values) == length (le_bytes 4 values)) ≡ true = ground arith in
    (
      record {
        n_tokens = n_tokens;
        hidden_dim = hidden_dim;
        dtype = f32;
        bytes = le_bytes 4 values;
      },
      rw (dims, vals, n, h, want, sized) refl,
      rw (chunks4-le_bytes values small) refl,
    )
