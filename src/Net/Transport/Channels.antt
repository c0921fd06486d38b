-- ===== src/Net/Transport/Channels.antt =====
-- crates/lattice-net/src/transport.rs: what one end of a channel declares and the other reads.
use mathlib.Core.List.{append-nil}
use p2p_distributed_inferenc.Prelude.{
  ℕ, ◌^◌, ◌<◌, ◌≡◌, refl, ◌∙◌, inl, inr, some, List, [], ◌++◌, arith, Option-cases,
}
use p2p_distributed_inferenc.Prelude.Order.{cmp_bytes_refl}
use p2p_distributed_inferenc.Net.Error.{Result, ok}
use p2p_distributed_inferenc.Net.Stream.{StreamHeader, control_header, header_len, encode}
use p2p_distributed_inferenc.Net.Stream.RoundTrip.{length-encode, decode-encode}
use p2p_distributed_inferenc.Net.Codec.{Pipe}
use p2p_distributed_inferenc.Net.Transport.{
  hello, Channel, open_stream, accept_stream, accept_control, greeting_sent, greeting_read,
}

module _ (pipe : Pipe) where
  open pipe use {S, contents, write_all, read_exact, written, in_order}

  open_stream-contents :
      (s recv : S) (header : StreamHeader) (channel : Channel pipe)
      → open_stream pipe (some (s, recv)) header ≡ ok channel
      → contents channel.0 ≡ contents s ++ encode header
  unfolding open_stream
  open_stream-contents s recv header channel h = elim (Option-cases (write_all s (encode header))) [
    | inl failed ↦ cc (rw failed at h)
    | inr (t, e) ↦
        let found : ◌≡◌ {A = Result (Channel pipe)} (ok (t, recv)) (ok channel) = rw e at h in
        let same : t ≡ channel.0 = ground arith in rw (← same) (written s t (encode header) e)
  ]

  -- A channel that one end opens on a new pair of streams is accepted by the other end with the very
  -- header that was declared, and with what was written behind it left to read; the session and the
  -- generation are in the range of their types.
  pub accept_stream-open_stream :
      (s back recv send : S) (header : StreamHeader) (channel : Channel pipe) (rest : List ℕ)
      → header.session < 2 ^ 64
      → header.generation < 2 ^ 32
      → contents s ≡ []
      → open_stream pipe (some (s, back)) header ≡ ok channel
      → contents recv ≡ contents channel.0 ++ rest
      → (t : S) × (accept_stream pipe (some (send, recv)) ≡ ok (header, (send, t)))
        × (contents t ≡ rest)
  unfolding accept_stream
  accept_stream-open_stream s back recv send header channel rest hs hg empty opened there =
      let put = open_stream-contents s back header channel opened in
      let (t, found, left) = in_order recv (encode header) rest (there ∙ rw (put, empty) refl) in
      let at : read_exact recv header_len ≡ some (encode header, t) =
        rw (length-encode header) at found in
      (t, rw (at, decode-encode header hs hg) refl, left)

  -- The handshake of a fresh connection: the listener accepts the control channel that the dialer
  -- opened, and reads the dialer's greeting from it.
  pub greeting_read-greeting_sent :
      (s back recv send greeted : S) (channel : Channel pipe)
      → contents s ≡ []
      → open_stream pipe (some (s, back)) control_header ≡ ok channel
      → greeting_sent pipe channel.0 ≡ ok greeted
      → contents recv ≡ contents greeted
      → (t : S) × (u : S) × (accept_control pipe (some (send, recv)) ≡ ok (send, t))
        × (greeting_read pipe t ≡ ok u)
        × (contents u ≡ [])
  unfolding accept_control greeting_sent greeting_read
  greeting_read-greeting_sent s back recv send greeted channel empty opened greets there =
      elim (Option-cases (write_all channel.0 hello)) [
        | inl failed ↦ cc (rw failed at greets)
        | inr (g, e) ↦
            let found : ◌≡◌ {A = Result S} (ok g) (ok greeted) = rw e at greets in
            let same : g ≡ greeted = ground arith in
            let (t, accepted, left) =
              accept_stream-open_stream s back recv send control_header channel hello (omega arith)
                (omega arith) empty opened (there ∙ rw (← same) (written channel.0 g hello e)) in
            let (u, read, over) = in_order t hello [] (left ∙ rw append-nil refl) in
            (t, u, rw accepted refl, rw (read, cmp_bytes_refl hello) refl, over)
      ]
