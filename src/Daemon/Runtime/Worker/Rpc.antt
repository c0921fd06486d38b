-- ===== src/Daemon/Runtime/Worker/Rpc.antt =====
-- crates/latticed/src/runtime.rs: the worker's runtime as what a proxied connection is handed to.
use Prim.Native.String.{String}
use p2p_distributed_inferenc.Prelude.{ℕ, ◌+◌, ◌≡◌, refl, ap, ◌∙◌, Bool, Option, List, arith, All}
use p2p_distributed_inferenc.Prelude.Results
use p2p_distributed_inferenc.Prelude.Results.{ok, err, map_err}
use p2p_distributed_inferenc.Net.Error.{Result}
use p2p_distributed_inferenc.Net.Identity.{DeviceId}
use p2p_distributed_inferenc.Net.Codec.{Pipe}
use p2p_distributed_inferenc.Net.Message.{Wire, send_message}
use p2p_distributed_inferenc.Net.Rpc.{RpcHandler, Ack, ack_of, tunnelled, replied, serve}
use p2p_distributed_inferenc.Daemon.Runtime.Worker.{State, Fault, release, connect}
use p2p_distributed_inferenc.Daemon.Runtime.Worker.Access.{held, connect-permits}

module _ (can_wait : ℕ → Bool) (display : Fault → String) (waiting : State → State)
    (started : Option ℕ) (refusals : List (State → State)) (meanwhile : State → State)
    (through : Bool) where
  abbrev pub told :
      Results.Result Fault (Unit {0}) × State → Results.Result String (Unit {0}) × State
  told (r, s) = (map_err display r, s)

  -- `e.to_string()` of an error.
  abbrev pub runtime_handler : RpcHandler
  runtime_handler = record {
    State = State;
    connect = λ from s. told (connect can_wait waiting started refusals meanwhile through from s);
    release = release can_wait;
  }

  module _ (pipe : Pipe) (acks : Wire Ack) (from : DeviceId) (tunnelling : State → State) where
    tunnelled-permits :
        (sent : Result pipe.S) (s : State)
        → (tunnelling s).permits ≡ s.permits
        → (tunnelled pipe acks runtime_handler from tunnelling sent s).permits ≡ s.permits + 1
    tunnelled-permits (ok t) s h = ap (λ k. k + 1) h
    tunnelled-permits (err e) s h = refl

    replied-permits :
        (send : pipe.S) (x : Results.Result Fault (Unit {0}) × State) (n : ℕ)
        → ((s : State) → (tunnelling s).permits ≡ s.permits)
        → x.1.permits + held can_wait x.0 ≡ n
        → (replied pipe acks runtime_handler from tunnelling send (told x)).1.permits ≡ n
    replied-permits send (ok u, s) n ht h =
        tunnelled-permits
          (send_message pipe acks send (ack_of pipe acks runtime_handler from (ok u))) s (ht s)
        ∙ h
    replied-permits send (err e, s) n ht h = omega (arith, h)

    -- No permit is lost: once a proxied connection has been served, whether it got a session, was
    -- refused at any point or the peer went away, the worker has as many permits as before, where what
    -- other tasks do in the meantime leaves the permits as they are.
    pub serve-permits :
        (send : pipe.S) (s : State)
        → ((s : State) → (waiting s).permits ≡ s.permits)
        → All (λ m. (s : State) → (m s).permits ≡ s.permits) refusals
        → ((s : State) → (meanwhile s).permits ≡ s.permits)
        → ((s : State) → (tunnelling s).permits ≡ s.permits)
        → (serve pipe acks runtime_handler from tunnelling send s).1.permits ≡ s.permits
    unfolding serve
    serve-permits send s hw hr hm ht =
        replied-permits send (connect can_wait waiting started refusals meanwhile through from s)
          s.permits ht
          (connect-permits can_wait waiting started refusals meanwhile through from s hw hr hm)
