-- ===== src/Net/Control.antt =====
-- crates/lattice-net/src/control.rs: the messages of the control plane. A refusal names its occasion
-- where the source formats a text.
pub mod Answers
use Prim.Native.String.{String}
use p2p_distributed_inferenc.Prelude.{ℕ, Bool, Option, none, some, List}
use p2p_distributed_inferenc.Engine.Abi.{ShardSpec}
use p2p_distributed_inferenc.Net.Error.{
  Result, ok, err, ◌>>=◌, certificate, unusable_key, stream, handler_failed,
}
use p2p_distributed_inferenc.Net.Identity.{Crypto, DeviceId}
use p2p_distributed_inferenc.Net.Trust.{PairedPeer, introduced}
use p2p_distributed_inferenc.Net.Codec.{Pipe, read_frame}
use p2p_distributed_inferenc.Net.Message.{Wire, send_message, recv_message}

pub record GpuDevice : Type 0 where
  pub name : String
  pub description : String
  pub kind : String
  pub total_memory : ℕ
  pub free_memory : ℕ

pub record EngineCapabilities : Type 0 where
  pub revision : String
  pub device : GpuDevice
  pub busy : Bool

-- One device's identity as vouched for by another; the key is its 32 bytes.
pub record Introduction : Type 0 where
  pub public_key : List ℕ
  pub name : String
  pub platform : String

pub data Request : Type 0 where
  hello : Request
  provision : List Introduction → Request
  load_shard : ShardSpec → Request
  register_worker : ℕ → Request
  inference_info : Request

-- Why a request was refused.
pub data Refusal : Type 0 where
  not_paired unusable_introduction not_recorded : Refusal
  no_model other_model unhashed shard_thread_gone shard_thread_died unloadable : Refusal
  no_runtime not_master takes_none unintelligible : Refusal
  runtime_failed : String → Refusal

pub data Response : Type 0 where
  identity : DeviceId → String → String → Response
  provisioned : ℕ → ℕ → Response
  shard_loaded : ℕ → ℕ → Response
  refused : Refusal → Response
  worker_registered : Response
  info : EngineCapabilities → Response

module _ (c : Crypto) where
  -- `Introduction::of`
  unfoldable pub introduction_of : PairedPeer c → Introduction
  introduction_of peer = record {
    public_key = c.to_bytes peer.public_key;
    name = peer.name;
    platform = peer.platform;
  }

  -- `Introduction::into_peer`, at the time `now`.
  unfoldable pub into_peer : ℕ → DeviceId → Introduction → Result (PairedPeer c)
  into_peer now by i = elim (c.from_bytes i.public_key) [
    | none ↦ err (certificate unusable_key)
    | some key ↦ ok (introduced c key i.name i.platform now by)
  ]

-- `64 << 10`
abbrev pub max_control_frame : ℕ
max_control_frame = 65536

-- A `ControlHandler` with the state that it changes; `none` is a panic.
pub record ControlHandler : Type 1 where
  pub State : Type 0
  pub handle : DeviceId → Request → State → Option Response × State

module _ (pipe : Pipe) (requests : Wire Request) (responses : Wire Response) where
  open pipe use {S}

  -- The two halves of `request`, on a channel that was opened: what it writes, and what it reads.
  unfoldable pub request_sent : S → Request → Result S
  request_sent send request = send_message pipe requests send request

  unfoldable pub response_received : S → Result Response
  response_received recv = do
    (response, rest) ← recv_message pipe responses recv max_control_frame
    ok response

  module _ (handler : ControlHandler) (from : DeviceId) where
    open handler use {State, handle}

    abbrev pub handled : Option Response × State → Result Response × State
    handled (none, st) = (err (stream handler_failed), st)
    handled (some response, st) = (ok response, st)

    abbrev pub response_to : Option Request → State → Result Response × State
    response_to none st = (ok (refused unintelligible), st)
    response_to (some request) st = handled (handle from request st)

    abbrev pub answered : S → Result Response × State → Result S × State
    answered send (response, st) = (response >>= (λ r. send_message pipe responses send r), st)

    abbrev pub answer_to : S → State → Result (List ℕ × S) → Result S × State
    answer_to send st (err e) = (err e, st)
    answer_to send st (ok (bytes, recv)) =
        answered send (response_to (requests.from_bytes bytes) st)

    -- `answer`, of one control stream.
    unfoldable pub answer : S → S → State → Result S × State
    answer send recv st = answer_to send st (read_frame pipe recv max_control_frame)
