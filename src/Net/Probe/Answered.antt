-- ===== src/Net/Probe/Answered.antt =====
-- crates/lattice-net/src/probe.rs: a measurement and the peer that serves it.
use mathlib.Core.List.{append-nil}
use p2p_distributed_inferenc.Prelude.{
  ℕ, zero, suc, ◌+◌, ◌%◌, ◌^◌, min, ◌≤◌, ◌<◌, ◌≡◌, refl, sym, ap, ◌∙◌, inl, inr, true, Option, none,
  some, List, [], ◌∷◌, ◌++◌, arith, length, length-append, leb, ◌==◌, Bool-cases, Option-cases,
}
use p2p_distributed_inferenc.Net.Error.{Result, ok}
use p2p_distributed_inferenc.Net.Bytes.{
  to_le_bytes, from_le_bytes, length-to_le_bytes, from_le_bytes-to_le_bytes,
}
use p2p_distributed_inferenc.Net.Codec.{Pipe}
use p2p_distributed_inferenc.Net.Probe.{
  ping, sink, ack, max_probe_bytes, zeros, payload_sent, acked, drain, opcode_of, handled, round,
  serve, serve_stream,
}

length-zeros : (n : ℕ) → length (zeros n) ≡ n
unfolding zeros
length-zeros zero = refl
length-zeros (suc n) = ap suc (length-zeros n)

module _ (pipe : Pipe) where
  open pipe use {S, contents, write_all, read_exact, written, in_order, exact}

  -- What a throughput measurement puts on the stream.
  payload_sent-contents :
      (send sent : S) (asked : ℕ)
      → contents send ≡ []
      → payload_sent pipe send asked ≡ ok sent
      → contents sent
        ≡ sink
          ∷ (to_le_bytes 4 (min asked max_probe_bytes % 2 ^ 32)
              ++ zeros (min asked max_probe_bytes))
  unfolding payload_sent
  payload_sent-contents send sent asked empty h = elim (Option-cases (write_all send (sink ∷ []))) [
    | inl failed ↦ cc (rw failed at h)
    | inr (a, e) ↦
        elim (Option-cases (write_all a (to_le_bytes 4 (min asked max_probe_bytes % 2 ^ 32)))) [
          | inl failed ↦ cc (rw (e, failed) at h)
          | inr (b, f) ↦ elim (Option-cases (write_all b (zeros (min asked max_probe_bytes)))) [
            | inl failed ↦ cc (rw (e, f, failed) at h)
            | inr (t, g) ↦
                let found : ◌≡◌ {A = Result S} (ok t) (ok sent) = rw (e, f, g) at h in
                let same : t ≡ sent = ground arith in
                rw
                  (
                    ← same,
                    written b t (zeros (min asked max_probe_bytes)) g,
                    written a b (to_le_bytes 4 (min asked max_probe_bytes % 2 ^ 32)) f,
                    written send a (sink ∷ []) e,
                    empty,
                  )
                  refl
          ]
        ]
  ]

  -- The peer acknowledges every throughput measurement, whatever number of bytes was asked for: its
  -- next round takes the whole payload off the stream and writes the one byte that the measurement
  -- waits for.
  pub round-payload_sent :
      (send sent recv back acknowledged : S) (asked : ℕ)
      → contents send ≡ []
      → payload_sent pipe send asked ≡ ok sent
      → contents recv ≡ contents sent
      → write_all back (ack ∷ []) ≡ some acknowledged
      → (t : S) × (round pipe back recv ≡ some (acknowledged, t)) × (contents t ≡ [])
  unfolding round handled drain
  round-payload_sent send sent recv back acknowledged asked empty sends there acks =
      let count = min asked max_probe_bytes in
      let put = payload_sent-contents send sent asked empty sends in
      let (r1, found, left) =
        in_order recv (sink ∷ []) (to_le_bytes 4 (count % 2 ^ 32) ++ zeros count) (there ∙ put) in
      let (r2, header, left') = in_order r1 (to_le_bytes 4 (count % 2 ^ 32)) (zeros count) left in
      let at : read_exact r1 4 ≡ some (to_le_bytes 4 (count % 2 ^ 32), r2) =
        rw (length-to_le_bytes 4 (count % 2 ^ 32)) at header in
      let fits : from_le_bytes (to_le_bytes 4 (count % 2 ^ 32)) ≡ count =
        from_le_bytes-to_le_bytes 4 (count % 2 ^ 32) (omega arith) ∙ omega arith in
      let small : leb count max_probe_bytes ≡ true = ground arith in
      let (r3, body, left'') =
        in_order r2 (zeros count) [] (left' ∙ sym (append-nil (zeros count))) in
      let all : read_exact r2 count ≡ some (zeros count, r3) = rw (length-zeros count) at body in
      (r3, rw found (rw at (rw (fits, small, all, acks) refl)), left'')

  acked-contents :
      (recv send' recv' : S) (o : Option S) → acked pipe recv o ≡ some (send', recv') → recv ≡ recv'
  acked-contents recv send' recv' none h = cc
  acked-contents recv send' recv' (some send) h = ground arith

  length-read_exact :
      (s t : S) (n : ℕ) (bs : List ℕ)
      → read_exact s n ≡ some (bs, t)
      → length (contents t) + n ≡ length (contents s)
  length-read_exact s t n bs h =
      let (count, at) = exact s t n bs h in rw at (omega (arith, length-append bs (contents t)))

  drain-le :
      (send recv send' recv' : S)
      → drain pipe send recv ≡ some (send', recv')
      → length (contents recv') ≤ length (contents recv)
  unfolding drain
  drain-le send recv send' recv' h = elim (Option-cases (read_exact recv 4)) [
    | inl failed ↦ cc (rw failed at h)
    | inr ((header, r), e) ↦ elim (Bool-cases (leb (from_le_bytes header) max_probe_bytes)) [
      | inr big ↦ cc (rw (e, big) at h)
      | inl small ↦ elim (Option-cases (read_exact r (from_le_bytes header))) [
        | inl failed ↦ cc (rw (e, small, failed) at h)
        | inr ((body, t), f) ↦
            let same : t ≡ recv' =
              acked-contents t send' recv' (write_all send (ack ∷ [])) (rw (e, small, f) at h) in
            rw (← same) (
              omega (
                arith,
                length-read_exact recv r 4 header e,
                length-read_exact r t (from_le_bytes header) body f,
              ))
      ]
    ]
  ]

  handled-le :
      (opcode : ℕ) (send recv send' recv' : S)
      → handled pipe opcode send recv ≡ some (send', recv')
      → length (contents recv') ≤ length (contents recv)
  unfolding handled
  handled-le opcode send recv send' recv' h = elim (Bool-cases (opcode == ping)) [
    | inl p ↦
        let same = acked-contents recv send' recv' (write_all send (ack ∷ [])) (rw p at h) in
        rw same (omega arith)
    | inr np ↦ elim (Bool-cases (opcode == sink)) [
      | inl s ↦ drain-le send recv send' recv' (rw (np, s) at h)
      | inr ns ↦ cc (rw (np, ns) at h)
    ]
  ]

  round-lt :
      (send recv send' recv' : S)
      → round pipe send recv ≡ some (send', recv')
      → length (contents recv') < length (contents recv)
  unfolding round
  round-lt send recv send' recv' h = elim (Option-cases (read_exact recv 1)) [
    | inl failed ↦ cc (rw failed at h)
    | inr ((byte, t), e) ↦ omega (
      arith,
      length-read_exact recv t 1 byte e,
      handled-le (opcode_of pipe byte) send t send' recv' (rw e at h),
    )
  ]

  serve_total :
      (fuel : ℕ) (send recv : S)
      → length (contents recv) < fuel
      → serve pipe fuel send recv ≡ some tt
  unfolding serve
  serve_total zero send recv h = absurd (omega arith)
  serve_total (suc fuel) send recv h = elim (Option-cases (round pipe send recv)) [
    | inl over ↦ rw (over, serve) refl
    | inr ((send', recv'), e) ↦
        rw (e, serve)
          (serve_total fuel send' recv' (omega (arith, round-lt send recv send' recv' e)))
  ]

  -- Serving a probe stream comes to an end, whatever the peer sends on it.
  pub probe_stream_terminates : (send recv : S) → serve_stream pipe send recv ≡ some tt
  unfolding serve_stream
  probe_stream_terminates send recv =
      serve_total (suc (length (contents recv))) send recv (omega arith)
