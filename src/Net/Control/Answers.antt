-- ===== src/Net/Control/Answers.antt =====
-- crates/lattice-net/src/control.rs: a request and its answer, from one device to the other and back.
use mathlib.Core.List.{append-nil}
use p2p_distributed_inferenc.Prelude.{ℕ, ◌≤◌, ◌≡◌, refl, sym, ap, ◌∙◌, some, List, [], ◌++◌, length}
use p2p_distributed_inferenc.Net.Error.{ok}
use p2p_distributed_inferenc.Net.Identity.{DeviceId}
use p2p_distributed_inferenc.Net.Bytes.{to_le_bytes}
use p2p_distributed_inferenc.Net.Codec.{Pipe}
use p2p_distributed_inferenc.Net.Codec.Frames.{frame, read_frame-frame}
use p2p_distributed_inferenc.Net.Message.{
  Wire, send_message, send_message-contents, recv_message-frame,
}
use p2p_distributed_inferenc.Net.Control.{
  Request, Response, max_control_frame, ControlHandler, request_sent, response_received, answer,
}

frame_nil : (bytes : List ℕ) → frame bytes ≡ to_le_bytes 4 (length bytes) ++ (bytes ++ [])
frame_nil bytes = ap (λ (b : List ℕ). to_le_bytes 4 (length bytes) ++ b) (sym (append-nil bytes))

module _ (pipe : Pipe) (requests : Wire Request) (responses : Wire Response)
    (handler : ControlHandler) (from : DeviceId) where
  open pipe use {S, contents}
  open handler use {State, handle}

  -- The asking device gets exactly the response of the other device's handler to its request, for
  -- channels that are empty before, a request and a response within the ceiling of a control frame,
  -- and a handler that does not panic.
  pub response_received-answer :
      (send sent recv back replied arrived : S) (request : Request) (response : Response)
      (st st' : State)
      → contents send ≡ []
      → contents back ≡ []
      → request_sent pipe requests responses send request ≡ ok sent
      → contents recv ≡ contents sent
      → handle from request st ≡ (some response, st')
      → answer pipe requests responses handler from back recv st ≡ (ok replied, st')
      → contents arrived ≡ contents replied
      → ((bytes : List ℕ)
          → requests.to_allocvec request ≡ some bytes
          → length bytes ≤ max_control_frame)
      → ((bytes : List ℕ)
          → responses.to_allocvec response ≡ some bytes
          → length bytes ≤ max_control_frame)
      → response_received pipe requests responses arrived ≡ ok response
  unfolding request_sent response_received answer
  response_received-answer send sent recv back replied arrived request response st st' empty empty'
        asked there handles answers here fits fits' =
      let (bytes, e, small, put) = send_message-contents pipe requests send sent request asked in
      let (t, found, left) =
        read_frame-frame pipe recv bytes [] max_control_frame small (fits bytes e)
          (there ∙ put ∙ rw empty (frame_nil bytes)) in
      let replies : send_message pipe responses back response ≡ ok replied =
        ap (λ r. r.0)
          (rw (found, requests.from_bytes-to_allocvec request bytes e, handles) at answers) in
      let (bytes', e', small', put') =
        send_message-contents pipe responses back replied response replies in
      let (u, got, _) =
        recv_message-frame pipe responses arrived response bytes' [] max_control_frame e' small'
          (fits' bytes' e') (here ∙ put' ∙ rw empty' (sym (append-nil (frame bytes')))) in
      rw got refl
