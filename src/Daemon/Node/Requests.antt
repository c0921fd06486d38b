-- ===== src/Daemon/Node/Requests.antt =====
-- crates/latticed/src/node.rs: a node's answers to the requests of its peers.
use Prim.Native.String.{String}
use p2p_distributed_inferenc.Prelude.{ℕ, Bool, Option, none, some, List}
use p2p_distributed_inferenc.Prelude.Results.{Result, ok, err}
use p2p_distributed_inferenc.Engine.Candle.{Library}
use p2p_distributed_inferenc.Net.Identity.{Crypto, DeviceId}
use p2p_distributed_inferenc.Net.Trust.{TrustStore}
use p2p_distributed_inferenc.Net.Control.{
  GpuDevice, EngineCapabilities, Request, hello, provision, load_shard, register_worker,
  inference_info, Response, identity, refused, info, no_runtime, not_master, runtime_failed,
  ControlHandler,
}
use p2p_distributed_inferenc.Daemon.Node.{accept_introductions}
use p2p_distributed_inferenc.Daemon.Node.Shard
use p2p_distributed_inferenc.Daemon.Node.Shard.{ModelFile, Thread}
use p2p_distributed_inferenc.Daemon.Runtime.Worker.{State, Fault, authorize, capabilities}

-- `WorkerRuntime`, of a device.
pub record Runtime : Type 0 where
  pub device : GpuDevice
  pub state : State

module _ (c : Crypto) (lib : Library) where
  pub record Node : Type 0 where
    pub store : TrustStore c
    pub id : DeviceId
    pub name : String
    pub platform : String
    pub model : Option ModelFile
    pub shard : Thread lib
    pub runtime : Option Runtime

  unfoldable pub set_runtime : Runtime → Node → Node
  set_runtime runtime node = record node { runtime = some runtime }

  abbrev pub authorized : Option DeviceId → Option Runtime → Option Runtime
  authorized master none = none
  authorized master (some r) = some (record r { state = authorize master r.state })

  unfoldable pub authorize_master : Option DeviceId → Node → Node
  authorize_master master node = record node { runtime = authorized master node.runtime }

  -- Whether the trust file can be written, the clock, the worker's children, what the engine lists,
  -- what the other tasks do to the store and to the worker meanwhile, and `error.to_string()`.
  module _ (writable : Bool) (now : ℕ) (can_wait : ℕ → Bool) (listed : Option (List GpuDevice))
      (others : ℕ → TrustStore c → TrustStore c) (meanwhile : State → State)
      (display : Fault → String) where
    abbrev pub described : Result Fault EngineCapabilities → Response
    described (ok capabilities) = info capabilities
    described (err error) = refused (runtime_failed (display error))

    abbrev pub asked :
        Node → Runtime → Result Fault EngineCapabilities × State → Option Response × Node
    asked node r (answer, state) =
        (some (described answer), record node { runtime = some (record r { state = state }) })

    abbrev pub inference : DeviceId → Node → Option Runtime → Option Response × Node
    inference from node none = (some (refused no_runtime), node)
    inference from node (some r) =
        asked node r (capabilities can_wait listed meanwhile r.device from r.state)

    abbrev pub introduced_to : Node → Response × TrustStore c → Option Response × Node
    introduced_to node (response, store) = (some response, record node { store = store })

    abbrev pub loaded : Node → Option Response × Thread lib → Option Response × Node
    loaded node (response, thread) = (response, record node { shard = thread })

    -- `ControlHandler::handle`
    unfoldable pub handle : DeviceId → Request → Node → Option Response × Node
    handle from inference_info node = inference from node node.runtime
    handle from hello node = (some (identity node.id node.name node.platform), node)
    handle from (provision peers) node =
        introduced_to node
          (accept_introductions c writable now others node.id from peers node.store)
    handle from (load_shard spec) node =
        loaded node (Shard.load_shard lib node.model spec node.shard)
    handle from (register_worker port) node = (some (refused not_master), node)

    abbrev pub node_handler : ControlHandler
    node_handler = record { State = Node; handle = handle }
