-- ===== src/Net/Rpc.antt =====
-- crates/lattice-net/src/rpc.rs: the handshake of a proxied connection to a peer's inference server.
-- What the tunnel copies afterwards is left out: it is what the other tasks do until it ends. A session
-- is a permit, which `release` drops. The limit of 120 seconds is one of the ways in which `connect` fails.
pub mod Handshake
use Prim.Native.String.{String}
use p2p_distributed_inferenc.Prelude.{ℕ, zero, suc, Option, none, some, List}
use p2p_distributed_inferenc.Prelude.Results
use p2p_distributed_inferenc.Net.Error.{Result, ok, err, ◌>>=◌, map_err, stream, remote_refused}
use p2p_distributed_inferenc.Net.Identity.{DeviceId}
use p2p_distributed_inferenc.Net.Stream.{StreamHeader, inference_rpc}
use p2p_distributed_inferenc.Net.Codec.{Pipe}
use p2p_distributed_inferenc.Net.Message.{Wire, send_message, recv_message}

abbrev pub max_ack : ℕ
max_ack = 4096

-- `chars().take(n)`
unfoldable pub take_chars : ℕ → String → String
take_chars zero s = String.[]
take_chars (suc n) String.[] = String.[]
take_chars (suc n) (String.◌∷◌ c s) = String.◌∷◌ c (take_chars n s)

-- An `RpcHandler` with the state that it changes, and the two minutes that it has.
pub record RpcHandler : Type 1 where
  pub State : Type 0
  pub connect : DeviceId → State → Results.Result String (Unit {0}) × State
  pub release : State → State

-- `DenyRpc`
abbrev pub deny_rpc : RpcHandler
deny_rpc = record {
  State = Unit {0};
  connect = λ from s. (err "inference RPC is unavailable on this device", s);
  release = λ s. s;
}

-- What the proxy's stream declares.
abbrev pub rpc_header : StreamHeader
rpc_header = record { kind = inference_rpc; session = 0; generation = 0 }

abbrev pub Ack : Type 0
Ack = Results.Result String (Unit {0})

module _ (pipe : Pipe) (acks : Wire Ack) where
  open pipe use {S}

  abbrev pub acknowledged : Ack × S → Result S
  acknowledged (ok _, recv) = ok recv
  acknowledged (err why, recv) = err (stream (remote_refused why))

  -- The answer that `proxy` waits for before it starts to copy.
  unfoldable pub proxied : S → Result S
  proxied recv = recv_message pipe acks recv max_ack >>= acknowledged

  module _ (handler : RpcHandler) (from : DeviceId) where
    open handler use {State, connect, release}

    abbrev pub ack_of : Results.Result String (Unit {0}) → Ack
    ack_of session = map_err (take_chars 512) session

    -- The session's permit is dropped after the tunnel, during which the other tasks do `tunnelling`,
    -- and where the answer cannot be written.
    abbrev pub tunnelled : (State → State) → Result S → State → State
    tunnelled tunnelling (ok send) st = release (tunnelling st)
    tunnelled tunnelling (err e) st = release st

    abbrev pub ended : (State → State) → Results.Result String (Unit {0}) → Result S → State → State
    ended tunnelling (ok _) sent st = tunnelled tunnelling sent st
    ended tunnelling (err why) sent st = st

    abbrev pub replied :
        (State → State) → S → Results.Result String (Unit {0}) × State → Result S × State
    replied tunnelling send (session, st) =
        let sent = send_message pipe acks send (ack_of session) in
        (sent, ended tunnelling session sent st)

    -- `serve`, with the stream as it is when the tunnel starts or the stream ends.
    unfoldable pub serve : (State → State) → S → State → Result S × State
    serve tunnelling send st = replied tunnelling send (connect from st)
