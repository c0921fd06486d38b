-- ===== src/Net/Codec.antt =====
-- crates/lattice-net/src/codec.rs: length-prefixed frames, over a QUIC stream that quinn gives.
pub mod Frames
use p2p_distributed_inferenc.Prelude.{
  ℕ, ◌+◌, ◌^◌, ◌<◌, ◌≡◌, Option, none, some, List, ◌++◌, ltb, leb, length,
}
use p2p_distributed_inferenc.Net.Error.{
  Result, ok, err, ◌>>=◌, ◌>>◌, guard, or_fail, stream, frame_exceeds_4_gib, writing_frame_length,
  writing_frame, reading_frame_length, reading_frame, above_ceiling,
}
use p2p_distributed_inferenc.Net.Bytes.{to_le_bytes, from_le_bytes}

-- One direction of a quinn stream: what was written and not yet read, `write_all`, which may fail,
-- and `read_exact`, which returns the next bytes in order, or fails where there are too few.
pub record Pipe : Type 1 where
  pub S : Type 0
  pub contents : S → List ℕ
  pub write_all : S → List ℕ → Option S
  pub read_exact : S → ℕ → Option (List ℕ × S)
  pub written : (s t : S) (bs : List ℕ) → write_all s bs ≡ some t → contents t ≡ contents s ++ bs
  pub in_order :
      (s : S) (bs rest : List ℕ)
      → contents s ≡ bs ++ rest
      → (t : S) × (read_exact s (length bs) ≡ some (bs, t)) × (contents t ≡ rest)
  pub exact :
      (s t : S) (n : ℕ) (bs : List ℕ)
      → read_exact s n ≡ some (bs, t)
      → (length bs ≡ n) × (contents s ≡ bs ++ contents t)

module _ (pipe : Pipe) where
  open pipe use {S, write_all, read_exact}

  unfoldable pub write_frame : S → List ℕ → Result S
  write_frame send payload = do
    guard (ltb (length payload) (2 ^ 32)) (stream frame_exceeds_4_gib)
    sent ← or_fail (stream writing_frame_length) (write_all send (to_le_bytes 4 (length payload)))
    or_fail (stream writing_frame) (write_all sent payload)

  unfoldable pub read_frame : S → ℕ → Result (List ℕ × S)
  read_frame recv max = do
    (header, rest) ← or_fail (stream reading_frame_length) (read_exact recv 4)
    let len = from_le_bytes header
    guard (leb len max) (stream (above_ceiling len max))
    or_fail (stream reading_frame) (read_exact rest len)
