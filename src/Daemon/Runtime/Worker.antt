-- ===== src/Daemon/Runtime/Worker.antt =====
-- crates/latticed/src/runtime.rs: the GPU server of a worker, and who may use it. A child is its
-- number; where a call gives up its lock or waits, what the others do meanwhile is an argument.
pub mod Keeps
pub mod Owned
pub mod Access
pub mod Rpc
mod Examples
use Prim.Native.String.{String}
use p2p_distributed_inferenc.Prelude.{
  ℕ, zero, suc, ◌+◌, ◌-◌, Bool, true, false, not, Option, none, some, List, [], ◌∷◌, retain, ◌==◌,
  if◌then◌else◌,
}
use p2p_distributed_inferenc.Prelude.Order.{cmp_bytes, is_eq}
use p2p_distributed_inferenc.Prelude.Results
use p2p_distributed_inferenc.Prelude.Results.{Result, ok, err}
use p2p_distributed_inferenc.Net.Identity.{DeviceId}
use p2p_distributed_inferenc.Net.Control.{GpuDevice, EngineCapabilities}
use p2p_distributed_inferenc.Daemon.Runtime.{Selected, selected, unavailable, no_gpu, select_device}

pub record Server : Type 0 where
  pub child : ℕ
  pub address : ℕ

-- `State` and `slots`, with the children of the process that run.
pub record State : Type 0 where
  pub master : Option DeviceId
  pub server : Option Server
  pub permits : ℕ
  pub running : List ℕ
  pub next : ℕ

pub data Fault : Type 0 where
  not_master server_exited not_waited busy not_started not_listed not_ready : Fault
  unsuitable : Selected → Fault

-- What a call gives, and the state after it.
abbrev pub Op : Type 0 → Type 0
Op A = State → Result Fault A × State

abbrev pub pass_on : {A B : Type 0} → Result Fault A × State → (A → Op B) → Result Fault B × State
pass_on (ok a, s) f = f a s
pass_on (err e, s) f = (err e, s)

infixl 5 ◌>>=◌
abbrev pub ◌>>=◌ : {A B : Type 0} → Op A → (A → Op B) → Op B
m >>= f = λ s. pass_on (m s) f

infixl 5 ◌>>◌
abbrev pub ◌>>◌ : {B : Type 0} → Op (Unit {0}) → Op B → Op B
m >> k = m >>= λ _. k

abbrev pub succeed : {A : Type 0} → A → Op A
succeed a = λ s. (ok a, s)

abbrev pub during : (State → State) → Op (Unit {0})
during meanwhile = λ s. (ok tt, meanwhile s)

-- Of a new runtime.
abbrev pub fresh : State
fresh = record { master = none; server = none; permits = 1; running = []; next = 0 }

unfoldable pub is_running : ℕ → List ℕ → Bool
is_running child [] = false
is_running child (c ∷ cs) = if child == c then true else is_running child cs

abbrev pub without : Option Server → List ℕ → List ℕ
without none cs = cs
without (some server) cs = retain (λ c. not (c == server.child)) cs

-- `state.server = None`: to drop a server kills its child.
abbrev pub stop : State → State
stop s = record s { server = none; running = without s.server s.running }

abbrev pub same_master : Option DeviceId → Option DeviceId → Bool
same_master none none = true
same_master (some a) (some b) = is_eq (cmp_bytes a b)
same_master _ _ = false

unfoldable pub authorize : Option DeviceId → State → State
authorize master s = if same_master s.master master then s else record (stop s) { master = master }

unfoldable pub check_master : DeviceId → Op (Unit {0})
check_master from s = if same_master s.master (some from) then (ok tt, s) else (err not_master, s)

module _ (can_wait : ℕ → Bool) where
  -- `child.try_wait()`, and `none` where it fails.
  abbrev pub try_wait : Server → State → Option Bool
  try_wait server s =
      if can_wait server.child then some (is_running server.child s.running) else none

  abbrev pub exited : Option Bool → Op (Unit {0})
  exited none s = (err not_waited, s)
  exited (some true) s = (ok tt, s)
  exited (some false) s = (err server_exited, stop s)

  abbrev pub check_server : Option Server → Op (Unit {0})
  check_server none s = (ok tt, s)
  check_server (some server) s = exited (try_wait server s) s

  unfoldable pub check_health : DeviceId → Op (Unit {0})
  check_health from = do check_master from; λ s. check_server s.server s

  abbrev pub take_permit : ℕ → Op Bool
  take_permit zero s = (ok false, s)
  take_permit (suc n) s = (ok true, record s { permits = n })

  unfoldable pub try_acquire : Op Bool
  try_acquire s = take_permit s.permits s

  -- To drop a permit.
  abbrev pub release : State → State
  release s = record s { permits = s.permits + 1 }

  abbrev pub released : {A : Type 0} → Result Fault A × State → Result Fault A × State
  released (r, s) = (r, release s)

  -- The permit is dropped where what follows fails.
  abbrev pub kept_or_released : {A : Type 0} → Result Fault A × State → Result Fault A × State
  kept_or_released (ok a, s) = (ok a, s)
  kept_or_released (err e, s) = (err e, release s)

  abbrev pub refused_if_busy : Bool → Op (Unit {0})
  refused_if_busy true s = (ok tt, s)
  refused_if_busy false s = (err busy, s)

  -- `acquire`: two seconds are waited for a permit.
  unfoldable pub acquire : (State → State) → DeviceId → Op (Unit {0})
  acquire meanwhile from = do
    check_health from
    during meanwhile
    granted ← try_acquire
    refused_if_busy granted
    λ s. kept_or_released (check_health from s)

  -- A server on a port that was free, or `none` where it does not start.
  abbrev pub start : Option ℕ → Op ℕ
  start none s = (err not_started, s)
  start (some address) s = (
    ok address,
    record s {
      server = some (record { child = s.next; address = address });
      running = s.next ∷ s.running;
      next = s.next + 1;
    },
  )

  abbrev pub reuse : Option ℕ → Server → Option Bool → Op ℕ
  reuse started server none s = (err not_waited, s)
  reuse started server (some true) s = (ok server.address, s)
  reuse started server (some false) s = start started (stop s)

  abbrev pub reuse_or_start : Option ℕ → Option Server → Op ℕ
  reuse_or_start started none s = start started s
  reuse_or_start started (some server) s = reuse started server (try_wait server s) s

  unfoldable pub address : Option ℕ → DeviceId → Op ℕ
  address started from = do check_master from; λ s. reuse_or_start started s.server s

  -- The loop of `connect`: attempts that are refused in time, with what happens until the next one, and
  -- a last one that gets through or comes after the deadline.
  pub attempt : List (State → State) → (State → State) → Bool → DeviceId → Op (Unit {0})
  attempt [] meanwhile through from = do
    check_health from
    during meanwhile
    if through then check_health from else λ s. (err not_ready, s)
  attempt (m ∷ ms) meanwhile through from = do
    check_health from
    during m
    attempt ms meanwhile through from

  -- `RpcHandler::connect`: a session holds a permit.
  unfoldable pub connect :
      (State → State)
      → Option ℕ
      → List (State → State)
      → (State → State)
      → Bool
      → DeviceId
      → Op (Unit {0})
  connect waiting started refusals meanwhile through from = do
    acquire waiting from
    λ s.
        kept_or_released
          ((address started from >>= (λ _. attempt refusals meanwhile through from)) s)

  abbrev pub chosen : Selected → Op GpuDevice
  chosen (selected device) s = (ok device, s)
  chosen failure s = (err (unsuitable failure), s)

  -- The GPU as it is now, by what the engine lists.
  abbrev pub offered : Option (List GpuDevice) → String → Op GpuDevice
  offered none name s = (err not_listed, s)
  offered (some devices) name s = chosen (select_device devices (some name)) s

  abbrev pub engine_revision : String
  engine_revision = "85d5703a3b1b47243213a39059a6e3076c92733a"

  abbrev pub described :
      Bool
      → Option (List GpuDevice)
      → (State → State)
      → GpuDevice
      → DeviceId
      → Op EngineCapabilities
  described idle listed meanwhile device from = do
    now ← if idle then offered listed device.name else succeed device
    during meanwhile
    check_health from
    succeed (record { revision = engine_revision; device = now; busy = not idle })

  -- `capabilities`: a permit that was free is held until the answer.
  unfoldable pub capabilities :
      Option (List GpuDevice) → (State → State) → GpuDevice → DeviceId → Op EngineCapabilities
  capabilities listed meanwhile device from = do
    check_health from
    idle ← try_acquire
    λ s.
        if idle
        then released (described idle listed meanwhile device from s)
        else described idle listed meanwhile device from s
