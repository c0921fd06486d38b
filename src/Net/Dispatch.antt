-- ===== src/Net/Dispatch.antt =====
-- crates/lattice-net/src/dispatch.rs: what serves a stream. Each stream is a task of its own; here the
-- tasks are in the order in which they take effect. The bytes of each stream are given, and a peer that
-- keeps a stream open and silent is left out.
use p2p_distributed_inferenc.Prelude.{ℕ, Option, none, some, List, [], ◌∷◌}
use p2p_distributed_inferenc.Net.Error.{Result, ok, err}
use p2p_distributed_inferenc.Net.Identity.{DeviceId}
use p2p_distributed_inferenc.Net.Stream.{
  StreamKind, control, activation, bulk, probe, inference_rpc, StreamHeader,
}
use p2p_distributed_inferenc.Net.Codec.{Pipe}
use p2p_distributed_inferenc.Net.Message.{Wire}
use p2p_distributed_inferenc.Net.Activation
use p2p_distributed_inferenc.Net.Activation.{Step, StepResult, Executor}
use p2p_distributed_inferenc.Net.Control.{
  Request, Response, refused, takes_none, ControlHandler, answer,
}
use p2p_distributed_inferenc.Net.Probe
use p2p_distributed_inferenc.Net.Rpc
use p2p_distributed_inferenc.Net.Rpc.{RpcHandler, Ack}
use p2p_distributed_inferenc.Net.Transport.{accept_stream}

-- `RefuseControl`
abbrev pub refuse_control : ControlHandler
refuse_control = record {
  State = Unit {0};
  handle = λ from request s. (some (refused takes_none), s);
}

module _ (pipe : Pipe) (requests : Wire Request) (responses : Wire Response) (steps : Wire Step)
    (results : Wire StepResult) (acks : Wire Ack) (handler : ControlHandler) (executor : Executor)
    (rpc : RpcHandler) where
  open pipe use {S}

  -- The states of what serves the streams.
  pub record Served : Type 0 where
    pub control : handler.State
    pub shard : executor.State
    pub inference : rpc.State

  abbrev pub answered : Served → Result S × handler.State → Option Served
  answered s (sent, state) = some (record s { control = state })

  abbrev pub stepped : Served → Option (S × executor.State) → Option Served
  stepped s none = none
  stepped s (some (send, state)) = some (record s { shard = state })

  abbrev pub measured : Served → Option (Unit {0}) → Option Served
  measured s none = none
  measured s (some _) = some s

  abbrev pub connected : Served → Result S × rpc.State → Option Served
  connected s (sent, state) = some (record s { inference = state })

  module _ (from : DeviceId) (tunnelling : rpc.State → rpc.State) where
    -- The task that is spawned for a stream, to its end.
    unfoldable pub route : StreamKind → ℕ → S → S → Served → Option Served
    route control session send recv s =
        answered s (answer pipe requests responses handler from send recv s.control)
    route activation session send recv s =
        stepped s (Activation.serve_stream pipe steps results executor session send recv s.shard)
    route inference_rpc session send recv s =
        connected s (Rpc.serve pipe acks rpc from tunnelling send s.inference)
    route probe session send recv s = measured s (Probe.serve_stream pipe send recv)
    route bulk session send recv s = measured s (Probe.serve_stream pipe send recv)

    abbrev pub then_served : Option Served → (Served → Option Served) → Option Served
    then_served none f = none
    then_served (some s) f = f s

    abbrev pub accepted :
        (Served → Option Served) → Served → Result (StreamHeader × (S × S)) → Option Served
    accepted rest s (err e) = some s
    accepted rest s (ok (header, (send, recv))) =
        then_served (route header.kind header.session send recv s) rest

    -- `serve_with_rpc`, by the streams that quinn accepts: the loop ends when one is not accepted, or
    -- does not open with a header.
    unfoldable pub serve_with_rpc : List (Option (S × S)) → Served → Option Served
    serve_with_rpc [] s = some s
    serve_with_rpc (channel ∷ channels) s =
        accepted (serve_with_rpc channels) s (accept_stream pipe channel)
