-- ===== src/Net/Probe.antt =====
-- crates/lattice-net/src/probe.rs: the bytes of a link's measurement. The clock and the float that the
-- throughput is are left out.
pub mod Answered
use p2p_distributed_inferenc.Prelude.{
  ℕ, zero, suc, ◌%◌, ◌^◌, min, Bool, true, false, Option, none, some, List, [], ◌∷◌, length, leb,
  ◌==◌, if◌then◌else◌,
}
use p2p_distributed_inferenc.Net.Error.{
  Result, ok, err, ◌>>=◌, ◌>>◌, guard, or_fail, probe, rejected,
}
use p2p_distributed_inferenc.Net.Bytes.{to_le_bytes, from_le_bytes}
use p2p_distributed_inferenc.Net.Stream.{StreamKind, StreamHeader, no_session}
use p2p_distributed_inferenc.Net.Codec.{Pipe}

abbrev pub ping : ℕ
ping = 0x01

abbrev pub sink : ℕ
sink = 0x02

abbrev pub ack : ℕ
ack = 0xAC

-- `64 << 20`
abbrev pub max_probe_bytes : ℕ
max_probe_bytes = 67108864

abbrev pub rtt_samples : ℕ
rtt_samples = 16

abbrev pub probe_stream : StreamKind → StreamHeader
probe_stream kind = record { kind = kind; session = no_session; generation = 0 }

unfoldable pub zeros : ℕ → List ℕ
zeros zero = []
zeros (suc n) = 0 ∷ zeros n

module _ (pipe : Pipe) where
  open pipe use {S, contents, write_all, read_exact}

  -- The two halves of a sample in `measure_rtt`; the byte that comes back is not looked at.
  unfoldable pub ping_sent : S → Result S
  ping_sent send = or_fail probe (write_all send (ping ∷ []))

  unfoldable pub ping_answered : S → Result S
  ping_answered recv = do (byte, rest) ← or_fail probe (read_exact recv 1); ok rest

  -- The two halves of `measure_throughput`, for the number of bytes that `measure` was asked for.
  unfoldable pub payload_sent : S → ℕ → Result S
  payload_sent send asked = do
    let probe_bytes = min asked max_probe_bytes
    a ← or_fail probe (write_all send (sink ∷ []))
    b ← or_fail probe (write_all a (to_le_bytes 4 (probe_bytes % 2 ^ 32)))
    or_fail probe (write_all b (zeros probe_bytes))

  abbrev pub is_ack : List ℕ → Bool
  is_ack [] = false
  is_ack (b ∷ bytes) = b == ack

  unfoldable pub payload_answered : S → Result S
  payload_answered recv = do
    (byte, rest) ← or_fail probe (read_exact recv 1)
    guard (is_ack byte) rejected
    ok rest

  -- The streams after a request that was handled; `none` where it was not.
  abbrev pub acked : S → Option S → Option (S × S)
  acked recv none = none
  acked recv (some send) = some (send, recv)

  abbrev pub sunk : S → Option (List ℕ × S) → Option (S × S)
  sunk send none = none
  sunk send (some (bytes, recv)) = acked recv (write_all send (ack ∷ []))

  abbrev pub drained : S → Option (List ℕ × S) → Option (S × S)
  drained send none = none
  drained send (some (header, recv)) =
      if leb (from_le_bytes header) max_probe_bytes
      then sunk send (read_exact recv (from_le_bytes header))
      else none

  -- `drain`: an announcement above the ceiling is not read.
  unfoldable pub drain : S → S → Option (S × S)
  drain send recv = drained send (read_exact recv 4)

  abbrev pub opcode_of : List ℕ → ℕ
  opcode_of [] = 0
  opcode_of (b ∷ bytes) = b

  unfoldable pub handled : ℕ → S → S → Option (S × S)
  handled opcode send recv =
      if opcode == ping
      then acked recv (write_all send (ack ∷ []))
      else if opcode == sink
      then drain send recv
      else none

  abbrev pub round_of : S → Option (List ℕ × S) → Option (S × S)
  round_of send none = none
  round_of send (some (bytes, recv)) = handled (opcode_of bytes) send recv

  -- A round of `serve_stream`: the streams that the next one starts with, if there is one.
  unfoldable pub round : S → S → Option (S × S)
  round send recv = round_of send (read_exact recv 1)

  unfoldable pub serve : ℕ → S → S → Option (Unit {0})
  serve zero send recv = none
  serve (suc fuel) send recv = elim (round send recv) [
    | none ↦ some tt
    | some (send', recv') ↦ serve fuel send' recv'
  ]

  -- `serve_stream`: each round takes at least the opcode off the stream.
  unfoldable pub serve_stream : S → S → Option (Unit {0})
  serve_stream send recv = serve (suc (length (contents recv))) send recv
