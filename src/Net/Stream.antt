-- ===== src/Net/Stream.antt =====
-- crates/lattice-net/src/stream.rs: the header that every stream opens with.
pub mod RoundTrip
use p2p_distributed_inferenc.Prelude.{
  ℕ, ◌+◌, Bool, true, false, List, [], ◌∷◌, ◌++◌, ◌==◌, if◌then◌else◌,
}
use p2p_distributed_inferenc.Net.Error.{
  Result, ok, err, ◌>>=◌, ◌>>◌, guard, stream_header, not_lattice, other_version, unknown_kind,
}
use p2p_distributed_inferenc.Net.Bytes.{to_le_bytes, from_le_bytes, slice}

-- `u32::from_le_bytes(*b"LTCS")`
abbrev pub magic : ℕ
magic = 0x5343544c

abbrev pub version : ℕ
version = 1

abbrev pub header_len : ℕ
header_len = 20

abbrev pub no_session : ℕ
no_session = 0

pub data StreamKind : Type 0 where
  control activation bulk probe inference_rpc : StreamKind

-- `self.kind as u16`
abbrev pub to_wire : StreamKind → ℕ
to_wire control = 1
to_wire activation = 2
to_wire bulk = 3
to_wire probe = 4
to_wire inference_rpc = 5

unfoldable pub from_wire : ℕ → Result StreamKind
from_wire value =
    if value == 1
    then ok control
    else if value == 2
    then ok activation
    else if value == 3
    then ok bulk
    else if value == 4
    then ok probe
    else if value == 5
    then ok inference_rpc
    else err (stream_header (unknown_kind value))

-- An `i32` priority: -1, 0 or 1.
pub data Priority : Type 0 where
  below_default default above_default : Priority

-- The number that a priority stands for, raised by one.
abbrev pub rank : Priority → ℕ
rank below_default = 0
rank default = 1
rank above_default = 2

unfoldable pub priority : StreamKind → Priority
priority control = above_default
priority activation = default
priority bulk = below_default
priority probe = default
priority inference_rpc = default

pub record StreamHeader : Type 0 where
  pub kind : StreamKind
  pub session : ℕ
  pub generation : ℕ

abbrev pub control_header : StreamHeader
control_header = record { kind = control; session = no_session; generation = 0 }

-- The five slices of `out`, which follow one another.
unfoldable pub encode : StreamHeader → List ℕ
encode h =
    to_le_bytes 4 magic
    ++ (to_le_bytes 2 version
        ++ (to_le_bytes 2 (to_wire h.kind)
            ++ (to_le_bytes 8 h.session ++ to_le_bytes 4 h.generation)))

unfoldable pub decode : List ℕ → Result StreamHeader
decode bytes = do
  let found_magic = from_le_bytes (slice 0 4 bytes)
  guard (found_magic == magic) (stream_header not_lattice)
  let found_version = from_le_bytes (slice 4 2 bytes)
  guard (found_version == version) (stream_header (other_version found_version))
  kind ← from_wire (from_le_bytes (slice 6 2 bytes))
  ok (record {
    kind = kind;
    session = from_le_bytes (slice 8 8 bytes);
    generation = from_le_bytes (slice 16 4 bytes);
  })
