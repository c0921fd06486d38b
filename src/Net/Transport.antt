-- ===== src/Net/Transport.antt =====
-- crates/lattice-net/src/transport.rs: the channels of a connection, the handshake that confirms one,
-- and whom the verifier lets in. quinn opens and accepts the two directions of a channel.
pub mod Channels
use p2p_distributed_inferenc.Prelude.{
  ℕ, Bool, true, false, Option, none, some, List, [], ◌∷◌, length, if◌then◌else◌,
}
use p2p_distributed_inferenc.Prelude.Order.{cmp_bytes, is_eq}
use p2p_distributed_inferenc.Net.Error.{
  Result, ok, err, ◌>>=◌, ◌>>◌, guard, or_fail, map_err, stream, opening_channel, writing_header,
  accepting_channel, reading_header, stream_header, not_control, rejected, certificate,
  no_certificate, empty_chain, bad_encoding, untrusted,
}
use p2p_distributed_inferenc.Net.Identity.{Crypto}
use p2p_distributed_inferenc.Net.Stream.{
  StreamKind, control, activation, bulk, probe, inference_rpc, StreamHeader, control_header,
  header_len, encode, decode,
}
use p2p_distributed_inferenc.Net.Codec.{Pipe}
use p2p_distributed_inferenc.Net.Mesh.{Role, dialer, listener}
use p2p_distributed_inferenc.Net.Tls.{X509, peer_key, channel_binding}

-- `*b"LTC1"`
abbrev pub hello : List ℕ
hello = 76 ∷ 84 ∷ 67 ∷ 49 ∷ []

abbrev pub is_control : StreamKind → Bool
is_control control = true
is_control _ = false

module _ (pipe : Pipe) where
  open pipe use {S, write_all, read_exact}

  -- A channel: what is written to the peer, and what the peer writes.
  abbrev pub Channel : Type 0
  Channel = S × S

  -- `Connection::open`
  unfoldable pub open_stream : Option Channel → StreamHeader → Result Channel
  open_stream opened header = do
    (send, recv) ← or_fail (stream opening_channel) opened
    written ← or_fail (stream writing_header) (write_all send (encode header))
    ok (written, recv)

  -- `Connection::accept_stream`
  unfoldable pub accept_stream : Option Channel → Result (StreamHeader × Channel)
  accept_stream accepted = do
    (send, recv) ← or_fail (stream accepting_channel) accepted
    (bytes, rest) ← or_fail (stream reading_header) (read_exact recv header_len)
    header ← decode bytes
    ok (header, (send, rest))

  -- The listener's half of `control_stream`.
  unfoldable pub accept_control : Option Channel → Result Channel
  accept_control accepted = do
    (header, channel) ← accept_stream accepted
    guard (is_control header.kind) (stream_header not_control)
    ok channel

  -- `control_stream`, by what quinn opens or accepts.
  unfoldable pub control_stream : Role → Option Channel → Result Channel
  control_stream dialer channel = open_stream channel control_header
  control_stream listener channel = accept_control channel

  -- The two halves of `confirm`: the greeting that is written, and the one that is read.
  unfoldable pub greeting_sent : S → Result S
  greeting_sent send = or_fail rejected (write_all send hello)

  unfoldable pub greeting_read : S → Result S
  greeting_read recv = do
    (greeting, rest) ← or_fail rejected (read_exact recv (length hello))
    guard (is_eq (cmp_bytes greeting hello)) rejected
    ok rest

module _ (c : Crypto) (x509 : X509) where
  -- The key and the binding that `Endpoint::wrap` makes of the peer's certificates.
  unfoldable pub wrap : List ℕ → Option (List (List ℕ)) → Result (List ℕ × c.Key)
  wrap local none = err (certificate no_certificate)
  wrap local (some []) = err (certificate empty_chain)
  wrap local (some (end_entity ∷ chain)) = do
    key ← peer_key c x509 end_entity
    ok (channel_binding c local end_entity, key)

  -- `DeviceKeyVerifier::check`, with what the policy accepts.
  unfoldable pub check : (c.Key → Bool) → List ℕ → Result (Unit {0})
  check accept cert = do
    key ← map_err (λ e. certificate bad_encoding) (peer_key c x509 cert)
    guard (accept key) (certificate untrusted)

-- `AcceptAnyPeer`
abbrev pub accept_any_peer : {K : Type 0} → K → Bool
accept_any_peer key = true
