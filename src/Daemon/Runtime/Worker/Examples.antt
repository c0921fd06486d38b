-- ===== src/Daemon/Runtime/Worker/Examples.antt =====
-- A worker whose master is device 1 and whose server is child 0.
use p2p_distributed_inferenc.Prelude.{
  ℕ, ◌≡◌, refl, ap, Bool, true, false, Option, none, some, List, [], ◌∷◌,
}
use Prim.Native.String.{String}
use p2p_distributed_inferenc.Prelude.Order.{cmp_bytes}
use p2p_distributed_inferenc.Prelude.Results.{ok, err}
use p2p_distributed_inferenc.Net.Examples.{id_of}
use p2p_distributed_inferenc.Daemon.Runtime.Worker.{
  State, Fault, fresh, is_running, same_master, authorize, check_master, check_health, try_acquire,
  address, attempt, acquire, connect, release,
}
use p2p_distributed_inferenc.Daemon.Runtime.Worker.Owned.{
  Reach, here, next, authorizes, serves, authorize-running,
}
use p2p_distributed_inferenc.Daemon.Runtime.Worker.Access.{IsServed, connect-IsServed}
use p2p_distributed_inferenc.Daemon.Runtime.Worker.Rpc.{runtime_handler, told, serve-permits}
use p2p_distributed_inferenc.Net.Rpc.{RpcHandler, Ack, replied, serve}
use p2p_distributed_inferenc.Net.Codec.{write_frame}
use p2p_distributed_inferenc.Net.Codec.Frames.{frame}
use p2p_distributed_inferenc.Net.Message.{Wire, send_message}
use p2p_distributed_inferenc.Net.Examples.{byte_pipe}

abbrev can_wait : ℕ → Bool
can_wait child = true

abbrev undisturbed : State → State
undisturbed s = s

abbrev registered : State
registered = authorize (some (id_of 1)) fresh

abbrev serving : State
serving = (address can_wait (some 4100) (id_of 1) registered).1

serving_reached : Reach can_wait fresh serving
serving_reached =
    next (next here (authorizes fresh (some (id_of 1)))) (serves registered (some 4100) (id_of 1))

other_master : same_master serving.master (some (id_of 2)) ≡ false
unfolding address check_master authorize cmp_bytes
other_master = refl

authorize-running_example : (authorize (some (id_of 2)) serving).running ≡ []
authorize-running_example =
    authorize-running can_wait serving (some (id_of 2)) serving_reached other_master

abbrev connected : State
connected =
    (connect can_wait undisturbed (some 4100) (undisturbed ∷ []) undisturbed true (id_of 1)
      registered).1

connects :
    connect can_wait undisturbed
      (some 4100)
      (undisturbed ∷ [])
      undisturbed
      true
      (id_of 1)
      registered
    ≡ (ok tt, connected)
unfolding connect acquire check_health try_acquire address attempt check_master authorize cmp_bytes
    is_running
connects = refl

connect-IsServed_example : IsServed (id_of 1) connected
connect-IsServed_example =
    connect-IsServed can_wait undisturbed (some 4100) (undisturbed ∷ []) undisturbed true (id_of 1)
      registered connected connects

-- An answer is encoded by its first byte.
abbrev ack_bytes : Ack → Option (List ℕ)
ack_bytes (ok _) = some []
ack_bytes (err why) = none

ok-ack_bytes : (x : Ack) (bytes : List ℕ) → ack_bytes x ≡ some bytes → some (ok tt) ≡ some x
ok-ack_bytes (ok _) bytes h = refl
ok-ack_bytes (err why) bytes h = cc

abbrev acks : Wire Ack
acks = record {
  to_allocvec = ack_bytes;
  from_bytes = λ bytes. some (ok tt);
  from_bytes-to_allocvec = ok-ack_bytes;
}

abbrev display : Fault → String
display e = "fault"

abbrev worker : RpcHandler
worker =
    runtime_handler can_wait display undisturbed (some 4100) (undisturbed ∷ []) undisturbed true

serve-permits_example :
    (serve byte_pipe acks worker (id_of 1) undisturbed [] registered).1.permits ≡ registered.permits
serve-permits_example =
    serve-permits can_wait display undisturbed (some 4100) (undisturbed ∷ []) undisturbed true
      byte_pipe acks (id_of 1) undisturbed [] registered (λ s. refl) ((λ s. refl), tt) (λ s. refl)
      (λ s. refl)

worker_connects : worker.connect (id_of 1) registered ≡ (ok tt, connected)
worker_connects =
    ap (told can_wait display undisturbed (some 4100) (undisturbed ∷ []) undisturbed true) connects

worker_serves :
    serve byte_pipe acks worker (id_of 1) undisturbed [] registered
    ≡ (ok (frame []), release can_wait connected)
unfolding serve send_message write_frame
worker_serves = ap (replied byte_pipe acks worker (id_of 1) undisturbed []) worker_connects
