-- ===== src/Net/Activation/Served.antt =====
-- crates/lattice-net/src/activation.rs: what a session's stream does from its first step to its end.
use Prim.Native.String.{String}
use mathlib.Core.List.{append_assoc, append-nil}
use p2p_distributed_inferenc.Prelude.{
  ℕ, zero, suc, ◌+◌, ◌≤◌, ◌<◌, ◌≡◌, refl, sym, ap, ◌∙◌, ◌⊎◌, inl, inr, Bool-cases, Option, none,
  some, List, [], ◌∷◌, ◌++◌, arith, length, All, Option-cases, leb, length-append,
}
use p2p_distributed_inferenc.Prelude.Results
use p2p_distributed_inferenc.Engine.Abi.{Payload}
use p2p_distributed_inferenc.Net.Error.{Error, Result, ok, err, Result-cases}
use p2p_distributed_inferenc.Net.Bytes.{from_le_bytes}
use p2p_distributed_inferenc.Net.Codec.{Pipe, read_frame}
use p2p_distributed_inferenc.Net.Codec.Frames.{frame, read_frame-frame}
use p2p_distributed_inferenc.Net.Message.{Wire, send_message, send_message-contents, Carries}
use p2p_distributed_inferenc.Net.Activation.{
  max_activation_frame, Step, prefill, decode, done, StepResult, Executor, step_result, Round,
  broke, again, executed, served, round, serve, serve_stream,
}

module _ (pipe : Pipe) where
  open pipe use {S, contents, read_exact, exact}

  -- A frame that was read is at least the four bytes of its length.
  length-read_frame :
      (s t : S) (max : ℕ) (bytes : List ℕ)
      → read_frame pipe s max ≡ ok (bytes, t)
      → length (contents t) + 4 ≤ length (contents s)
  unfolding read_frame
  length-read_frame s t max bytes h = elim (Option-cases (read_exact s 4)) [
    | inl failed ↦ cc (rw failed at h)
    | inr ((header, rest), e) ↦ elim (Bool-cases (leb (from_le_bytes header) max)) [
      | inr big ↦ cc (rw (e, big) at h)
      | inl small ↦ elim (Option-cases (read_exact rest (from_le_bytes header))) [
        | inl failed ↦ cc (rw (e, small, failed) at h)
        | inr ((body, last), f) ↦
            let found : ◌≡◌ {A = Result (List ℕ × S)} (ok (body, last)) (ok (bytes, t)) =
              rw (e, small, f) at h in
            let same : last ≡ t = ground arith in
            let (four, at) = exact s rest 4 header e in
            let (count, at') = exact rest last (from_le_bytes header) body f in
            rw (← same, at, at')
              (omega (
                arith,
                length-append header (body ++ contents last),
                length-append body (contents last),
              ))
      ]
    ]
  ]

  -- Nothing is read from an empty stream.
  read_frame-nil :
      (s : S) (max : ℕ) → contents s ≡ [] → (e : Error) × (read_frame pipe s max ≡ err e)
  read_frame-nil s max empty = elim (Result-cases (read_frame pipe s max)) [
    | inr (e, failed) ↦ (e, failed)
    | inl ((bytes, t), e) ↦
        absurd (omega (arith, length-read_frame s t max bytes e, ap length empty))
  ]

module _ (pipe : Pipe) (steps : Wire Step) (results : Wire StepResult) (executor : Executor)
    (session : ℕ) where
  open pipe use {S, contents}
  open executor use {State, run, drop_session}

  executed-again :
      (send recv send' recv' : S) (r : Results.Result String Payload × State) (st' : State)
      → executed pipe steps results executor session send recv r ≡ again send' recv' st'
      → recv ≡ recv'
  executed-again send recv send' recv' (r, st) st' h =
      elim (Result-cases (send_message pipe results send (step_result r))) [
        | inr (e, failed) ↦ cc (rw failed at h)
        | inl (t, sent) ↦ let found = rw sent at h in ground arith
      ]

  served-again :
      (send recv send' recv' : S) (st st' : State) (o : Option Step)
      → served pipe steps results executor session send recv st o ≡ again send' recv' st'
      → recv ≡ recv'
  served-again send recv send' recv' st st' none h = cc
  served-again send recv send' recv' st st' (some done) h = cc
  served-again send recv send' recv' st st' (some (prefill pos input)) h =
      executed-again send recv send' recv' (run session (prefill pos input) st) st' h
  served-again send recv send' recv' st st' (some (decode pos input)) h =
      executed-again send recv send' recv' (run session (decode pos input) st) st' h

  -- A round that is followed by another one has taken something off the stream.
  round-lt :
      (send recv send' recv' : S) (st st' : State)
      → round pipe steps results executor session send recv st ≡ again send' recv' st'
      → length (contents recv') < length (contents recv)
  unfolding round
  round-lt send recv send' recv' st st' h =
      elim (Result-cases (read_frame pipe recv max_activation_frame)) [
        | inr (e, failed) ↦ cc (rw failed at h)
        | inl ((bytes, t), e) ↦
            let same : t ≡ recv' =
              served-again send t send' recv' st st' (steps.from_bytes bytes) (rw e at h) in
            rw (← same) (omega (arith, length-read_frame pipe recv t max_activation_frame bytes e))
      ]

  Round-cases :
      (r : Round pipe steps results executor session)
      → ((s : S) × (st : State) × (r ≡ broke s st))
        ⊎ ((s : S) × (t : S) × (st : State) × (r ≡ again s t st))
  Round-cases (broke s st) = inl (s, st, refl)
  Round-cases (again s t st) = inr (s, t, st, refl)

  serve_total :
      (fuel : ℕ) (send recv : S) (st : State)
      → length (contents recv) < fuel
      → (s : S) × (last : State) × (serve pipe steps results executor session fuel send recv st
          ≡ some (s, drop_session session last))
  unfolding serve
  serve_total zero send recv st h = absurd (omega arith)
  serve_total (suc fuel) send recv st h =
      elim (Round-cases (round pipe steps results executor session send recv st)) [
        | inl (s, st', e) ↦ (s, st', rw (e, serve) refl)
        | inr (s, t, st', e) ↦
            let (end, last, found) =
              serve_total fuel s t st' (omega (arith, round-lt send recv s t st st' e)) in
            (end, last, rw (e, serve) found)
      ]

  -- Whatever bytes the master sends and however the executor answers, serving a session's stream comes
  -- to an end, and the session is dropped last.
  pub serve_stream_terminates :
      (send recv : S) (st : State)
      → (s : S) × (last : State) × (serve_stream pipe steps results executor session send recv st
          ≡ some (s, drop_session session last))
  unfolding serve_stream
  serve_stream_terminates send recv st =
      serve_total (suc (length (contents recv))) send recv st (omega arith)

  -- Running steps one after the other, without a stream.
  abbrev pub run_all : List Step → State → List StepResult × State
  run_all [] st = ([], st)
  run_all (x ∷ xs) st =
      let (r, st') = run session x st in let (rs, end) = run_all xs st' in (step_result r ∷ rs, end)

  abbrev pub IsWork : Step → Type 0
  IsWork done = ⊥
  IsWork _ = Unit {0}

  served_work :
      (send recv : S) (st : State) (x : Step)
      → IsWork x
      → served pipe steps results executor session send recv st (some x)
        ≡ executed pipe steps results executor session send recv (run session x st)
  served_work send recv st (prefill pos input) w = refl
  served_work send recv st (decode pos input) w = refl
  served_work send recv st done w = absurd w

  -- The stream to the master stays open, and every reply of the executor fits a frame.
  pub record IsOpen : Type 0 where
    pub writes :
        (s : S) (x : Step) (st : State)
        → (t : S) × (send_message pipe results s (step_result (run session x st).0) ≡ ok t)
    pub fits :
        (x : Step) (st : State) (bytes : List ℕ)
        → results.to_allocvec (step_result (run session x st).0) ≡ some bytes
        → length bytes ≤ max_activation_frame

  -- What follows the last step: the end of the stream, or a frame that says so.
  abbrev pub Ends : List ℕ → Type 0
  Ends rest =
      (rest ≡ [])
      ⊎ ((tail : List ℕ) × Carries pipe steps max_activation_frame (done ∷ []) rest tail)

  module _ (live : IsOpen) where
    round_work :
        (send recv : S) (st : State) (x : Step) (xs : List Step) (rest : List ℕ)
        → IsWork x
        → Carries pipe steps max_activation_frame (x ∷ xs) (contents recv) rest
        → (send' : S) × (recv' : S) × (round pipe steps results executor session send recv st
            ≡ again send' recv' (run session x st).1)
          × (send_message pipe results send (step_result (run session x st).0) ≡ ok send')
          × Carries pipe steps max_activation_frame xs (contents recv') rest
    unfolding round
    round_work send recv st x xs rest w (bytes, more, e, small, fits, at, others) =
        let (t, found, left) =
          read_frame-frame pipe recv bytes more max_activation_frame small fits
            (at ∙ append_assoc _ bytes more) in
        let (send', sent) = live.writes send x st in
        (
          send',
          t,
          rw (found, steps.from_bytes-to_allocvec x bytes e)
              (served_work send t st x w ∙ rw sent refl),
          sent,
          rw left others,
        )

    round_end :
        (send recv : S) (st : State)
        → Ends (contents recv)
        → round pipe steps results executor session send recv st ≡ broke send st
    unfolding round
    round_end send recv st (inl empty) =
        let (e, failed) = read_frame-nil pipe recv max_activation_frame empty in rw failed refl
    round_end send recv st (inr (tail, (bytes, more, e, small, fits, at, _))) =
        let (t, found, left) =
          read_frame-frame pipe recv bytes more max_activation_frame small fits
            (at ∙ append_assoc _ bytes more) in
        rw (found, steps.from_bytes-to_allocvec done bytes e) refl

    serve_work :
        (fuel : ℕ) (send recv : S) (st : State) (xs : List Step) (rest : List ℕ)
        → length (contents recv) < fuel
        → All IsWork xs
        → Carries pipe steps max_activation_frame xs (contents recv) rest
        → Ends rest
        → (send' : S) × (replies : List ℕ) × (serve pipe steps results executor session fuel send
              recv st
            ≡ some (send', drop_session session (run_all xs st).1))
          × (contents send' ≡ contents send ++ replies)
          × Carries pipe results max_activation_frame (run_all xs st).0 replies []
    unfolding serve
    serve_work zero send recv st xs rest h w c ends = absurd (omega arith)
    serve_work (suc fuel) send recv st [] rest h w c ends =
        let over = round_end send recv st (rw c ends) in
        (send, [], rw (over, serve) refl, sym (append-nil (contents send)), refl)
    serve_work (suc fuel) send recv st (x ∷ xs) rest h (w, ws) c ends =
        let (send1, recv1, e, sent, others) = round_work send recv st x xs rest w c in
        let (bytes, encoded, small, put) =
          send_message-contents pipe results send send1 (step_result (run session x st).0) sent in
        let (send2, replies, served_rest, put_rest, carried) =
          serve_work fuel send1 recv1 (run session x st).1 xs rest
            (omega (arith, round-lt send recv send1 recv1 st (run session x st).1 e)) ws others
            ends in
        (
          send2,
          frame bytes ++ replies,
          rw (e, serve) served_rest,
          rw (put_rest, put) (append_assoc (contents send) (frame bytes) replies),
          (bytes, replies, encoded, small, live.fits x st bytes encoded, refl, carried),
        )

    -- A session's stream runs the steps that it carries, in order, each on the state that the last one
    -- left, writes one reply for each in the same order, and at the end of the steps drops the session.
    -- This holds where the stream to the master stays open and its replies fit a frame.
    pub serve_stream-run_all :
        (send recv : S) (st : State) (xs : List Step) (rest : List ℕ)
        → All IsWork xs
        → Carries pipe steps max_activation_frame xs (contents recv) rest
        → Ends rest
        → (send' : S) × (replies : List ℕ) × (serve_stream pipe steps results executor session send
              recv st
            ≡ some (send', drop_session session (run_all xs st).1))
          × (contents send' ≡ contents send ++ replies)
          × Carries pipe results max_activation_frame (run_all xs st).0 replies []
    unfolding serve_stream
    serve_stream-run_all send recv st xs rest =
        serve_work (suc (length (contents recv))) send recv st xs rest (omega arith)
