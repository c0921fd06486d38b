-- ===== src/Net/Examples/Streams.antt =====
-- The exchanges over a stream of bytes, with messages that a few bytes encode.
use mathlib.Core.List.{append_assoc, append-nil}
use p2p_distributed_inferenc.Prelude.{
  ℕ, ◌+◌, ◌≡◌, refl, sym, ap, inr, Option, none, some, List, [], ◌∷◌, ◌++◌, arith,
}
use p2p_distributed_inferenc.Engine.Abi.{tokens, hidden, logits}
use p2p_distributed_inferenc.Net.Error.{ok}
use p2p_distributed_inferenc.Net.Bytes.{to_le_bytes, from_le_bytes}
use p2p_distributed_inferenc.Net.Stream.{StreamHeader, encode}
use p2p_distributed_inferenc.Net.Codec.{read_frame, write_frame}
use p2p_distributed_inferenc.Net.Codec.Frames.{frame}
use p2p_distributed_inferenc.Net.Message.{Wire, send_message, Carries}
use p2p_distributed_inferenc.Net.Activation.{
  max_activation_frame, Step, prefill, decode, done, StepResult, output, failed, Executor,
  activation_header, serve_stream,
}
use p2p_distributed_inferenc.Net.Activation.Served.{
  serve_stream-run_all, serve_stream_terminates, IsOpen,
}
use p2p_distributed_inferenc.Net.Control.{
  Request, hello, provision, load_shard, register_worker, inference_info, Response, identity,
  provisioned, shard_loaded, refused, info, worker_registered, ControlHandler, request_sent,
  response_received, answer,
}
use p2p_distributed_inferenc.Net.Control.Answers.{response_received-answer}
use p2p_distributed_inferenc.Net.Transport.{open_stream, accept_stream}
use p2p_distributed_inferenc.Net.Transport.Channels.{accept_stream-open_stream}
use p2p_distributed_inferenc.Net.Probe.{zeros, payload_sent}
use p2p_distributed_inferenc.Net.Examples.{byte_pipe, split}

-- A prefill of tokens and the end of a session have an encoding.
abbrev pub bytes_of : Step → Option (List ℕ)
bytes_of (prefill pos (tokens ids)) = some (pos ∷ ids)
bytes_of done = some []
bytes_of _ = none

abbrev pub step_of : List ℕ → Option Step
step_of (pos ∷ ids) = some (prefill pos (tokens ids))
step_of [] = some done

pub step_of-bytes_of :
    (x : Step) (bytes : List ℕ) → bytes_of x ≡ some bytes → step_of bytes ≡ some x
step_of-bytes_of (prefill pos (tokens ids)) bytes h =
    let same : pos ∷ ids ≡ bytes = ground arith in rw (← same) refl
step_of-bytes_of (prefill pos (hidden a)) bytes h = cc
step_of-bytes_of (prefill pos (logits a)) bytes h = cc
step_of-bytes_of (decode pos p) bytes h = cc
step_of-bytes_of done bytes h = let same : [] ≡ bytes = ground arith in rw (← same) refl

abbrev pub steps : Wire Step
steps = record {
  to_allocvec = bytes_of;
  from_bytes = step_of;
  from_bytes-to_allocvec = step_of-bytes_of;
}

abbrev pub reply_bytes : StepResult → Option (List ℕ)
reply_bytes (output (tokens ids)) = some ids
reply_bytes _ = none

pub reply_bytes-tokens :
    (x : StepResult) (bytes : List ℕ)
    → reply_bytes x ≡ some bytes
    → some (output (tokens bytes)) ≡ some x
reply_bytes-tokens (output (tokens ids)) bytes h =
    let same : ids ≡ bytes = ground arith in rw same refl
reply_bytes-tokens (output (hidden a)) bytes h = cc
reply_bytes-tokens (output (logits a)) bytes h = cc
reply_bytes-tokens (failed why) bytes h = cc

abbrev pub replies : Wire StepResult
replies = record {
  to_allocvec = reply_bytes;
  from_bytes = λ bytes. some (output (tokens bytes));
  from_bytes-to_allocvec = reply_bytes-tokens;
}

-- An executor that counts its steps, and answers each with the token 5.
abbrev pub counting : Executor
counting = record {
  State = ℕ;
  run = λ session step count. (ok (tokens (5 ∷ [])), count + 1);
  drop_session = λ session count. 0;
}

sends_five :
    (s : List ℕ)
    → send_message byte_pipe replies s (output (tokens (5 ∷ []))) ≡ ok (s ++ frame (5 ∷ []))
unfolding send_message write_frame
sends_five s = ap ok (append_assoc s (to_le_bytes 4 1) (5 ∷ []))

counting-IsOpen : IsOpen byte_pipe steps replies counting 7
counting-IsOpen = record {
  writes = λ s x st. (s ++ frame (5 ∷ []), sends_five s);
  fits = λ x st bytes h. let same : 5 ∷ [] ≡ bytes = ground arith in rw (← same) (omega arith);
}

abbrev two_steps : List Step
two_steps = prefill 0 (tokens (1 ∷ 2 ∷ [])) ∷ prefill 2 (tokens (3 ∷ [])) ∷ []

abbrev pub two_steps_bytes : List ℕ
two_steps_bytes = frame (0 ∷ 1 ∷ 2 ∷ []) ++ (frame (2 ∷ 3 ∷ []) ++ frame [])

serve_stream-run_all_example :
    (send' : List ℕ) × (written : List ℕ) × (serve_stream byte_pipe steps replies counting 7 []
        two_steps_bytes 0
      ≡ some (send', 0))
    × (send' ≡ [] ++ written)
    × Carries byte_pipe replies max_activation_frame
        (output (tokens (5 ∷ [])) ∷ output (tokens (5 ∷ [])) ∷ [])
        written
        []
serve_stream-run_all_example =
    serve_stream-run_all byte_pipe steps replies counting 7 counting-IsOpen [] two_steps_bytes 0
      two_steps (frame []) (tt, (tt, tt))
      (
        0 ∷ 1 ∷ 2 ∷ [],
        frame (2 ∷ 3 ∷ []) ++ frame [],
        refl,
        omega arith,
        omega arith,
        refl,
        (2 ∷ 3 ∷ [], frame [], refl, omega arith, omega arith, refl, refl),
      )
      (inr ([], ([], [], refl, omega arith, omega arith, sym (append-nil (frame [])), refl)))

serve_stream_terminates_example :
    (s : List ℕ) × (last : ℕ) × (serve_stream byte_pipe steps replies counting 7 [] two_steps_bytes
        0
      ≡ some (s, 0))
serve_stream_terminates_example =
    serve_stream_terminates byte_pipe steps replies counting 7 [] two_steps_bytes 0

-- A request and a response that one byte and no byte encode.
abbrev pub request_bytes : Request → Option (List ℕ)
request_bytes hello = some (1 ∷ [])
request_bytes _ = none

pub hello-request_bytes :
    (x : Request) (bytes : List ℕ) → request_bytes x ≡ some bytes → some hello ≡ some x
hello-request_bytes hello bytes h = refl
hello-request_bytes (provision l) bytes h = cc
hello-request_bytes (load_shard spec) bytes h = cc
hello-request_bytes (register_worker port) bytes h = cc
hello-request_bytes inference_info bytes h = cc

abbrev pub requests : Wire Request
requests = record {
  to_allocvec = request_bytes;
  from_bytes = λ bytes. some hello;
  from_bytes-to_allocvec = hello-request_bytes;
}

abbrev pub response_bytes : Response → Option (List ℕ)
response_bytes worker_registered = some []
response_bytes _ = none

pub worker_registered-response_bytes :
    (x : Response) (bytes : List ℕ)
    → response_bytes x ≡ some bytes
    → some worker_registered ≡ some x
worker_registered-response_bytes worker_registered bytes h = refl
worker_registered-response_bytes (identity id name platform) bytes h = cc
worker_registered-response_bytes (provisioned a b) bytes h = cc
worker_registered-response_bytes (shard_loaded a b) bytes h = cc
worker_registered-response_bytes (refused why) bytes h = cc
worker_registered-response_bytes (info capabilities) bytes h = cc

abbrev pub responses : Wire Response
responses = record {
  to_allocvec = response_bytes;
  from_bytes = λ bytes. some worker_registered;
  from_bytes-to_allocvec = worker_registered-response_bytes;
}

-- A handler that counts its requests.
abbrev pub registering : ControlHandler
registering = record {
  State = ℕ;
  handle = λ from request count. (some worker_registered, count + 1);
}

asks : request_sent byte_pipe requests responses [] hello ≡ ok (frame (1 ∷ []))
unfolding request_sent send_message write_frame to_le_bytes
asks = refl

replies_to :
    answer byte_pipe requests responses registering [] [] (frame (1 ∷ [])) 3 ≡ (ok (frame []), 4)
unfolding answer send_message write_frame read_frame to_le_bytes split from_le_bytes
replies_to = refl

response_received-answer_example :
    response_received byte_pipe requests responses (frame []) ≡ ok worker_registered
response_received-answer_example =
    response_received-answer byte_pipe requests responses registering [] [] (frame (1 ∷ []))
      (frame (1 ∷ [])) [] (frame []) (frame []) hello worker_registered 3 4 refl refl asks refl refl
      replies_to refl
      (λ bytes h. let same : 1 ∷ [] ≡ bytes = ground arith in rw (← same) (omega arith))
      (λ bytes h. let same : [] ≡ bytes = ground arith in rw (← same) (omega arith))

abbrev pub session_header : StreamHeader
session_header = activation_header 7 2

opens : open_stream byte_pipe (some ([], [])) session_header ≡ ok (encode session_header, [])
unfolding open_stream
opens = refl

accept_stream-open_stream_example :
    (t : List ℕ) × (accept_stream byte_pipe (some ([], encode session_header ++ (9 ∷ [])))
      ≡ ok (session_header, ([], t)))
    × (t ≡ 9 ∷ [])
accept_stream-open_stream_example =
    accept_stream-open_stream byte_pipe [] [] (encode session_header ++ (9 ∷ [])) [] session_header
      (encode session_header, []) (9 ∷ []) (omega arith) (omega arith) refl opens refl

abbrev measured : List ℕ
measured = 2 ∷ 3 ∷ 0 ∷ 0 ∷ 0 ∷ 0 ∷ 0 ∷ 0 ∷ []

sends_three : payload_sent byte_pipe [] 3 ≡ ok measured
unfolding payload_sent to_le_bytes zeros
sends_three = refl
