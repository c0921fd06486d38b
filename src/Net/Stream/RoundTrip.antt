-- ===== src/Net/Stream/RoundTrip.antt =====
-- crates/lattice-net/src/stream.rs: `encode` and `decode` of a header, one after the other.
use p2p_distributed_inferenc.Prelude.{
  ℕ, ◌+◌, ◌^◌, ◌<◌, ◌≡◌, refl, List, ◌++◌, arith, length, All, drop, ◌≤◌, length-take, length-drop,
  drop-drop, take-append-drop, take_of_length-le,
}
use p2p_distributed_inferenc.Net.Error.{ok}
use p2p_distributed_inferenc.Net.Bytes.{
  IsByte, to_le_bytes, from_le_bytes, from_le_bytes-to_le_bytes, slice, to_le_bytes-from_le_bytes,
  All-take, All-drop,
}
use p2p_distributed_inferenc.Net.Stream.{
  StreamKind, control, activation, bulk, probe, inference_rpc, StreamHeader, to_wire, from_wire,
  encode, decode, magic, version, header_len, priority, rank,
}

from_wire-to_wire : (k : StreamKind) → from_wire (to_wire k) ≡ ok k
unfolding from_wire
from_wire-to_wire control = refl
from_wire-to_wire activation = refl
from_wire-to_wire bulk = refl
from_wire-to_wire probe = refl
from_wire-to_wire inference_rpc = refl

to_wire-lt : (k : StreamKind) → to_wire k < 256 ^ 2
to_wire-lt control = omega arith
to_wire-lt activation = omega arith
to_wire-lt bulk = omega arith
to_wire-lt probe = omega arith
to_wire-lt inference_rpc = omega arith

module _ (h : StreamHeader) where
  magic_field : from_le_bytes (slice 0 4 (encode h)) ≡ magic
  unfolding encode to_le_bytes
  magic_field = from_le_bytes-to_le_bytes 4 magic (omega arith)

  version_field : from_le_bytes (slice 4 2 (encode h)) ≡ version
  unfolding encode to_le_bytes
  version_field = from_le_bytes-to_le_bytes 2 version (omega arith)

  kind_field : from_le_bytes (slice 6 2 (encode h)) ≡ to_wire h.kind
  unfolding encode to_le_bytes
  kind_field = from_le_bytes-to_le_bytes 2 (to_wire h.kind) (to_wire-lt h.kind)

  session_field : h.session < 2 ^ 64 → from_le_bytes (slice 8 8 (encode h)) ≡ h.session
  unfolding encode to_le_bytes
  session_field fits = from_le_bytes-to_le_bytes 8 h.session fits

  generation_field : h.generation < 2 ^ 32 → from_le_bytes (slice 16 4 (encode h)) ≡ h.generation
  unfolding encode to_le_bytes
  generation_field fits = from_le_bytes-to_le_bytes 4 h.generation fits

  -- A header is twenty bytes.
  pub length-encode : length (encode h) ≡ header_len
  unfolding encode to_le_bytes
  length-encode = refl

  -- A header whose session and generation are in the range of their types is decoded to itself.
  pub decode-encode : h.session < 2 ^ 64 → h.generation < 2 ^ 32 → decode (encode h) ≡ ok h
  unfolding decode
  decode-encode hs hg = rw (
    magic_field,
    version_field,
    kind_field,
    from_wire-to_wire h.kind,
    session_field hs,
    generation_field hg,
  )

from_wire_inv : (n : ℕ) (k : StreamKind) → from_wire n ≡ ok k → to_wire k ≡ n
unfolding from_wire
from_wire_inv n control h = ground arith
from_wire_inv n activation h = ground arith
from_wire_inv n bulk h = ground arith
from_wire_inv n probe h = ground arith
from_wire_inv n inference_rpc h = ground arith

-- What an accepted header's bytes say, field by field.
decode_fields :
    (bytes : List ℕ) (h : StreamHeader)
    → decode bytes ≡ ok h
    → (from_le_bytes (slice 0 4 bytes) ≡ magic)
      × (from_le_bytes (slice 4 2 bytes) ≡ version)
      × (from_le_bytes (slice 6 2 bytes) ≡ to_wire h.kind)
      × (from_le_bytes (slice 8 8 bytes) ≡ h.session)
      × (from_le_bytes (slice 16 4 bytes) ≡ h.generation)
unfolding decode
decode_fields bytes h e = ground (arith, from_wire_inv (from_le_bytes (slice 6 2 bytes)) h.kind)

module _ (bytes : List ℕ) (sized : length bytes ≡ header_len) (all : All IsByte bytes) where
  split_at :
      (from count next : ℕ)
      → from + count ≡ next
      → slice from count bytes ++ drop next bytes ≡ drop from bytes
  split_at from count next e =
      rw (drop-drop from count next bytes e) (take-append-drop count (drop from bytes))

  field_bytes :
      (from count v : ℕ)
      → from + count ≤ header_len
      → from_le_bytes (slice from count bytes) ≡ v
      → to_le_bytes count v ≡ slice from count bytes
  field_bytes from count v fits e = rw (← e) (
      to_le_bytes-from_le_bytes count (slice from count bytes)
        (omega (arith, length-take count (drop from bytes), length-drop from bytes))
        (All-take IsByte count (drop from bytes) (All-drop IsByte from bytes all)))

  -- Twenty bytes that are accepted as a header are the encoding of that header: no two byte strings
  -- stand for one header.
  pub encode-decode : (h : StreamHeader) → decode bytes ≡ ok h → encode h ≡ bytes
  unfolding encode
  encode-decode h e =
      let (m, v, k, s, g) = decode_fields bytes h e in
      rw (
        field_bytes 0 4 magic (omega arith) m,
        field_bytes 4 2 version (omega arith) v,
        field_bytes 6 2 (to_wire h.kind) (omega arith) k,
        field_bytes 8 8 h.session (omega arith) s,
        field_bytes 16 4 h.generation (omega arith) g,
        take_of_length-le 4 (drop 16 bytes) (omega (arith, length-drop 16 bytes)),
        split_at 8 8 16 refl,
        split_at 6 2 8 refl,
        split_at 4 2 6 refl,
        split_at 0 4 4 refl,
      )

-- Bulk transfers never outrank activations, and activations never outrank control messages.
pub priority_order :
    (rank (priority bulk) < rank (priority activation))
    × (rank (priority activation) < rank (priority control))
unfolding priority
priority_order = omega arith
