-- ===== src/Net/Rpc/Handshake.antt =====
-- crates/lattice-net/src/rpc.rs: the answer that a proxy waits for.
use Prim.Native.String.{String}
use mathlib.Core.List.{append-nil}
use p2p_distributed_inferenc.Prelude.{ℕ, ◌≤◌, ◌≡◌, refl, sym, ap, ◌∙◌, some, List, [], length}
use p2p_distributed_inferenc.Prelude.Results
use p2p_distributed_inferenc.Net.Error.{ok}
use p2p_distributed_inferenc.Net.Identity.{DeviceId}
use p2p_distributed_inferenc.Net.Codec.{Pipe}
use p2p_distributed_inferenc.Net.Codec.Frames.{frame}
use p2p_distributed_inferenc.Net.Message.{Wire, send_message-contents, recv_message-frame}
use p2p_distributed_inferenc.Net.Rpc.{
  max_ack, RpcHandler, Ack, acknowledged, proxied, ack_of, serve,
}

module _ (pipe : Pipe) (acks : Wire Ack) (handler : RpcHandler) (from : DeviceId) where
  open pipe use {S, contents}
  open handler use {State, connect}

  -- A proxy starts to copy exactly if the peer has a session for it, and is told the first 512
  -- characters of the reason otherwise, for an answer that fits.
  pub proxied-serve :
      (tunnelling : State → State) (send sent arrived : S) (st st' end : State)
      (session : Results.Result String (Unit {0}))
      → contents send ≡ []
      → connect from st ≡ (session, st')
      → serve pipe acks handler from tunnelling send st ≡ (ok sent, end)
      → contents arrived ≡ contents sent
      → ((bytes : List ℕ)
          → acks.to_allocvec (ack_of pipe acks handler from session) ≡ some bytes
          → length bytes ≤ max_ack)
      → (t : S) × (proxied pipe acks arrived
          ≡ acknowledged pipe acks (ack_of pipe acks handler from session, t))
  unfolding serve proxied
  proxied-serve tunnelling send sent arrived st st' end session empty connects serves there fits =
      let sends = ap (λ r. r.0) (rw connects at serves) in
      let (bytes, e, small, put) =
        send_message-contents pipe acks send sent (ack_of pipe acks handler from session) sends in
      let (t, found, left) =
        recv_message-frame pipe acks arrived (ack_of pipe acks handler from session) bytes []
          max_ack e small (fits bytes e)
          (there ∙ put ∙ rw empty (sym (append-nil (frame bytes)))) in
      (t, rw found refl)
