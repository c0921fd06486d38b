-- ===== src/Net/Pairing/OverStream.antt =====
-- crates/lattice-net/src/pairing.rs: the whole exchange over a connection's control stream.
use Prim.Native.String.{String}
use p2p_distributed_inferenc.Prelude.{ℕ, ◌≡◌, List, Option}
use p2p_distributed_inferenc.Prelude.Results.{bind-ok}
use p2p_distributed_inferenc.Net.Error.{Result, ok, ◌>>=◌}
use p2p_distributed_inferenc.Net.Identity.{Crypto}
use p2p_distributed_inferenc.Net.Trust.{PairedPeer}
use p2p_distributed_inferenc.Net.Codec.{Pipe, write_frame, read_frame}
use p2p_distributed_inferenc.Net.Message.{Wire, send_message, recv_message}
use p2p_distributed_inferenc.Net.Mesh.{Role}
use p2p_distributed_inferenc.Net.Transport.{Channel, control_stream}
use p2p_distributed_inferenc.Net.Pairing.{
  Confirm, Exchange, Pairing, AwaitingConfirm, start, key_exchange, finish,
}

-- `MAX_FRAME`
abbrev pub max_frame : ℕ
max_frame = 4096

module _ (c : Crypto) (x : Exchange) (pipe : Pipe) (confirms : Wire Confirm) (now : ℕ) (key : c.Key)
    (name platform : String) where
  open pipe use {S}

  -- `exchange` on an open control stream, from the message that opens it.
  unfoldable pub exchanged : Pairing c x → List ℕ → Channel pipe → Result (PairedPeer c)
  exchanged state our_message (send, recv) = do
    sent ← write_frame pipe send our_message
    (peer_message, rest) ← read_frame pipe recv max_frame
    (awaiting, confirm) ← key_exchange c x state peer_message key name platform
    told ← send_message pipe confirms sent confirm
    (peer_confirm, last) ← recv_message pipe confirms rest max_frame
    finish c x now awaiting peer_confirm

  -- `exchange`, with the code, the binding of the connection and the device's randomness.
  unfoldable pub exchange :
      List ℕ → List ℕ → ℕ → Role → Option (Channel pipe) → Result (PairedPeer c)
  exchange code binding random role opened = do
    channel ← control_stream pipe role opened
    let (state, our_message) = start c x code binding random
    exchanged state our_message channel

  -- What an exchange returns, the last step of the pairing accepted.
  pub exchange-finish :
      (code binding : List ℕ) (random : ℕ) (role : Role) (opened : Option (Channel pipe))
      (peer : PairedPeer c)
      → exchange code binding random role opened ≡ ok peer
      → (w : AwaitingConfirm c x) × (confirm : Confirm) × (finish c x now w confirm ≡ ok peer)
  unfolding exchange exchanged
  exchange-finish code binding random role opened peer h =
      let (channel, _, h1) = bind-ok (control_stream pipe role opened) _ peer h in
      let (state, our_message) = start c x code binding random in
      let (sent, _, h2) = bind-ok (write_frame pipe channel.0 our_message) _ peer h1 in
      let ((peer_message, rest), _, h3) = bind-ok (read_frame pipe channel.1 max_frame) _ peer h2 in
      let ((awaiting, confirm), _, h4) =
        bind-ok (key_exchange c x state peer_message key name platform) _ peer h3 in
      let (told, _, h5) = bind-ok (send_message pipe confirms sent confirm) _ peer h4 in
      let ((peer_confirm, last), _, h6) =
        bind-ok (recv_message pipe confirms rest max_frame) _ peer h5 in
      (awaiting, peer_confirm, h6)
