-- ===== src/Net/Activation.antt =====
-- crates/lattice-net/src/activation.rs: hidden states across a shard boundary, one stream to a session.
pub mod Served
use Prim.Native.String.{String}
use p2p_distributed_inferenc.Prelude.{ℕ, zero, suc, ◌+◌, Option, none, some, List, [], ◌∷◌, length}
use p2p_distributed_inferenc.Prelude.Results
use p2p_distributed_inferenc.Engine.Abi.{Payload}
use p2p_distributed_inferenc.Net.Error.{
  Result, ok, err, ◌>>=◌, or_fail, stream, remote_shard, postcard,
}
use p2p_distributed_inferenc.Net.Codec.{Pipe, read_frame}
use p2p_distributed_inferenc.Net.Message.{Wire, send_message, recv_message}
use p2p_distributed_inferenc.Net.Stream.{StreamHeader, activation}

-- `512 << 20`
abbrev pub max_activation_frame : ℕ
max_activation_frame = 536870912

pub data Step : Type 0 where
  prefill : ℕ → Payload → Step
  decode : ℕ → Payload → Step
  done : Step

-- Why a step failed: what the executor said, or that the step was no step.
pub data Why : Type 0 where
  said : String → Why
  unintelligible : Why

pub data StepResult : Type 0 where
  output : Payload → StepResult
  failed : Why → StepResult

-- An executor with the state that it changes.
pub record Executor : Type 1 where
  pub State : Type 0
  pub run : ℕ → Step → State → Results.Result String Payload × State
  pub drop_session : ℕ → State → State

-- `NoShards`
abbrev pub no_shards : Executor
no_shards = record {
  State = Unit {0};
  run = λ session step s. (err "this device holds no shards", s);
  drop_session = λ session s. s;
}

abbrev pub activation_header : ℕ → ℕ → StreamHeader
activation_header session generation = record {
  kind = activation;
  session = session;
  generation = generation;
}

abbrev pub step_result : Results.Result String Payload → StepResult
step_result (ok payload) = output payload
step_result (err why) = failed (said why)

module _ (pipe : Pipe) (steps : Wire Step) (results : Wire StepResult) where
  open pipe use {S, contents}

  abbrev pub received : StepResult × S → Result (Payload × S)
  received (output payload, s) = ok (payload, s)
  received (failed why, s) = err (stream remote_shard)

  -- The two halves of `RemoteShard::step`: what it writes, and what it makes of the answer.
  unfoldable pub step_sent : S → Step → Result S
  step_sent send step = send_message pipe steps send step

  unfoldable pub step_answered : S → Result (Payload × S)
  step_answered recv = recv_message pipe results recv max_activation_frame >>= received

  abbrev pub or_same : S → Result S → S
  or_same s (ok t) = t
  or_same s (err e) = s

  -- `RemoteShard::finish`, best effort.
  unfoldable pub finish : S → S
  finish send = or_same send (send_message pipe steps send done)

  module _ (executor : Executor) (session : ℕ) where
    open executor use {State, run, drop_session}

    -- How a round of the loop ends: the streams and the state, and whether another round follows.
    pub data Round : Type 0 where
      broke : S → State → Round
      again : S → S → State → Round

    -- After the reply to a step that was run.
    abbrev pub replied : S → S → State → Result S → Round
    replied send recv st (ok send') = again send' recv st
    replied send recv st (err e) = broke send st

    abbrev pub executed : S → S → Results.Result String Payload × State → Round
    executed send recv (r, st) =
        replied send recv st (send_message pipe results send (step_result r))

    abbrev pub served : S → S → State → Option Step → Round
    served send recv st none =
        broke (or_same send (send_message pipe results send (failed unintelligible))) st
    served send recv st (some done) = broke send st
    served send recv st (some (prefill pos input)) =
        executed send recv (run session (prefill pos input) st)
    served send recv st (some (decode pos input)) =
        executed send recv (run session (decode pos input) st)

    abbrev pub round_of : S → State → Result (List ℕ × S) → Round
    round_of send st (err e) = broke send st
    round_of send st (ok (bytes, recv)) = served send recv st (steps.from_bytes bytes)

    unfoldable pub round : S → S → State → Round
    round send recv st = round_of send st (read_frame pipe recv max_activation_frame)

    -- The loop, and `none` where the rounds allowed for do not do.
    unfoldable pub serve : ℕ → S → S → State → Option (S × State)
    serve zero send recv st = none
    serve (suc fuel) send recv st = elim (round send recv st) [
      | broke send' st' ↦ some (send', drop_session session st')
      | again send' recv' st' ↦ serve fuel send' recv' st'
    ]

    -- `serve_stream`: each round takes at least a frame's length off the stream.
    unfoldable pub serve_stream : S → S → State → Option (S × State)
    serve_stream send recv st = serve (suc (length (contents recv))) send recv st
