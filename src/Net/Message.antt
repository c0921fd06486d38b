-- ===== src/Net/Message.antt =====
-- Messages that postcard encodes, one to a frame, as every exchange of crates/lattice-net sends them:
-- `write_frame(send, &postcard::to_allocvec(message)?)` and `postcard::from_bytes(&read_frame(recv)?)`.
use mathlib.Core.List.{append_assoc}
use p2p_distributed_inferenc.Prelude.{
  ℕ, ◌^◌, ◌≤◌, ◌<◌, ◌≡◌, refl, ◌∙◌, inl, inr, Option, some, List, [], ◌∷◌, ◌++◌, length,
  Option-cases,
}
use p2p_distributed_inferenc.Net.Error.{Result, ok, ◌>>=◌, or_fail, postcard}
use p2p_distributed_inferenc.Net.Codec.{Pipe, write_frame, read_frame}
use p2p_distributed_inferenc.Net.Codec.Frames.{frame, write_frame-contents, read_frame-frame}

-- What postcard does with a type of messages: what it encodes, it decodes.
pub record Wire (M : Type 0) : Type 0 where
  pub to_allocvec : M → Option (List ℕ)
  pub from_bytes : List ℕ → Option M
  pub from_bytes-to_allocvec :
      (m : M) (bytes : List ℕ) → to_allocvec m ≡ some bytes → from_bytes bytes ≡ some m

module _ (pipe : Pipe) {M : Type 0} (wire : Wire M) where
  open pipe use {S, contents}

  unfoldable pub send_message : S → M → Result S
  send_message s m = do bytes ← or_fail postcard (wire.to_allocvec m); write_frame pipe s bytes

  unfoldable pub recv_message : S → ℕ → Result (M × S)
  recv_message s max = do
    (bytes, t) ← read_frame pipe s max
    m ← or_fail postcard (wire.from_bytes bytes)
    ok (m, t)

  -- A message that was sent is one frame behind what was there before.
  pub send_message-contents :
      (s t : S) (m : M)
      → send_message s m ≡ ok t
      → (bytes : List ℕ) × (wire.to_allocvec m ≡ some bytes)
        × (length bytes < 2 ^ 32)
        × (contents t ≡ contents s ++ frame bytes)
  unfolding send_message
  send_message-contents s t m h = elim (Option-cases (wire.to_allocvec m)) [
    | inl failed ↦ cc (rw failed at h)
    | inr (bytes, e) ↦
        let (small, put) = write_frame-contents pipe s t bytes (rw e at h) in (bytes, e, small, put)
  ]

  -- A frame that holds a message is received as the message.
  pub recv_message-frame :
      (s : S) (m : M) (bytes rest : List ℕ) (max : ℕ)
      → wire.to_allocvec m ≡ some bytes
      → length bytes < 2 ^ 32
      → length bytes ≤ max
      → contents s ≡ frame bytes ++ rest
      → (t : S) × (recv_message s max ≡ ok (m, t)) × (contents t ≡ rest)
  unfolding recv_message
  recv_message-frame s m bytes rest max e small fits at =
      let (t, found, left) =
        read_frame-frame pipe s bytes rest max small fits (at ∙ append_assoc _ bytes rest) in
      (t, rw (found, wire.from_bytes-to_allocvec m bytes e) refl, left)

  -- The bytes `l` are the frames of the messages, each at most `max` long, and then `rest`.
  abbrev pub Carries : ℕ → List M → List ℕ → List ℕ → Type 0
  Carries max [] l rest = l ≡ rest
  Carries max (m ∷ ms) l rest =
      (bytes : List ℕ) × (more : List ℕ) × (wire.to_allocvec m ≡ some bytes)
      × (length bytes < 2 ^ 32)
      × (length bytes ≤ max)
      × (l ≡ frame bytes ++ more)
      × Carries max ms more rest

  -- Where the messages of a stream are those, the first of them is received, and the others are left.
  pub recv_message-Carries :
      (max : ℕ) (s : S) (m : M) (ms : List M) (rest : List ℕ)
      → Carries max (m ∷ ms) (contents s) rest
      → (t : S) × (recv_message s max ≡ ok (m, t)) × Carries max ms (contents t) rest
  recv_message-Carries max s m ms rest (bytes, more, e, small, fits, at, others) =
      let (t, found, left) = recv_message-frame s m bytes more max e small fits at in
      (t, found, rw left others)
