-- ===== src/Daemon/Generate/Pipeline.antt =====
-- crates/latticed/src/generate.rs: the chain of shards. A peer is the thread of its
-- node, which crates/latticed/src/node.rs owns: what is sent to it arrives, and nobody else uses it
-- meanwhile.
pub mod Covers
pub mod Steps
pub mod Traversal
pub mod Opening
pub mod Tiled
use Prim.Native.String.{String}
use p2p_distributed_inferenc.Prelude.{
  ℕ, zero, suc, ◌+◌, ◌-◌, ◌%◌, ◌^◌, Bool, true, false, not, ◌&&◌, Option, none, some, List, [], ◌∷◌,
  ltb, length, if◌then◌else◌,
}
use p2p_distributed_inferenc.Prelude.Order.{cmp_bytes, is_eq}
use p2p_distributed_inferenc.Prelude.Results
use p2p_distributed_inferenc.Prelude.Results.{ok, err, ◌>>=◌, or_fail, map_err}
use p2p_distributed_inferenc.Engine.Dtype.{WireDtype, kv_f16}
use p2p_distributed_inferenc.Engine.Error.{Error, engine, unreadable}
use p2p_distributed_inferenc.Engine.Abi.{
  Payload, tokens, hidden, logits, kind, ShardSpec, ShardStats,
}
use p2p_distributed_inferenc.Engine.Facts.{ModelFacts}
use p2p_distributed_inferenc.Engine.Metadata.{read_facts}
use p2p_distributed_inferenc.Engine.Inventory.{Content}
use p2p_distributed_inferenc.Engine.Candle
use p2p_distributed_inferenc.Engine.Candle.{Library, CandleShard, open_shard, stats}
use p2p_distributed_inferenc.Net.Identity.{DeviceId}
use p2p_distributed_inferenc.Net.Activation
use p2p_distributed_inferenc.Net.Activation.{Step}
use p2p_distributed_inferenc.Net.Control.{Response, shard_loaded, refused, Refusal}
use p2p_distributed_inferenc.Daemon.Node.Shard.{ModelFile, Thread, load_shard, run_job, drop_job}
use p2p_distributed_inferenc.Daemon.Generate.{Host, Placement, Checked, tiled, check_tiling}

abbrev pub one_session : ℕ
one_session = 1

pub record Options : Type 0 where
  pub max_new : ℕ
  pub max_context : ℕ
  pub places : List Placement
  pub wire_dtype : WireDtype

-- What the contexts and messages say, and `stats_panicked` for the report on a model without heads.
pub data Fault : Type 0 where
  hashing : Fault
  reading : Error → Fault
  tiling : Checked → Fault
  loading : ℕ → ℕ → Error → Fault
  running : Error → Fault
  no_connection no_answer shard_on : DeviceId → Fault
  refused_layers : DeviceId → Refusal → Fault
  answered_with : DeviceId → Response → Fault
  not_logits : String → Fault
  empty_logits stats_panicked : Fault

abbrev pub Result {ℓ} : Type ℓ → Type ℓ
Result A = Results.Result Fault A

abbrev pub same_id : DeviceId → DeviceId → Bool
same_id a b = is_eq (cmp_bytes a b)

abbrev pub step_of : Bool → ℕ → Payload → Step
step_of true pos input = Activation.prefill pos input
step_of false pos input = Activation.decode pos input

-- `e.to_string()`, how long a step takes, and the model file of each peer.
pub record Surroundings : Type 0 where
  pub display : Error → String
  pub elapsed : ℕ → Step → ℕ
  pub models : DeviceId → Option ModelFile

module _ (lib : Library) where
  -- `peers`: the threads of the devices that there is a connection to.
  abbrev pub Network : Type 0
  Network = DeviceId → Option (Thread lib)

  abbrev pub put : DeviceId → Thread lib → Network → Network
  put id t net = λ other. if same_id id other then some t else net other

  pub data Stage : Type 0 where
    here : ShardSpec → CandleShard lib → Stage
    peer : DeviceId → Stage

module _ (lib : Library) (around : Surroundings) where
  open around use {display, elapsed, models}

  abbrev pub call_shard :
      Bool → ℕ → Payload → CandleShard lib → Results.Result Error Payload × CandleShard lib
  call_shard true pos input shard = Candle.prefill lib one_session pos input shard
  call_shard false pos input shard =
      Candle.decode lib (elapsed one_session (step_of false pos input)) one_session pos input shard

  abbrev pub ran_here :
      ShardSpec
      → Network lib
      → Results.Result Error Payload × CandleShard lib
      → Result Payload × Stage lib × Network lib
  ran_here spec net (r, shard) = (map_err running r, here spec shard, net)

  abbrev pub ran_there :
      DeviceId
      → Network lib
      → Results.Result String Payload × Thread lib
      → Result Payload × Stage lib × Network lib
  ran_there id net (r, thread) = (map_err (λ why. shard_on id) r, peer id, put lib id thread net)

  abbrev pub run_at :
      Bool
      → ℕ
      → Payload
      → DeviceId
      → Network lib
      → Option (Thread lib)
      → Result Payload × Stage lib × Network lib
  run_at prefill pos input id net none = (err (shard_on id), peer id, net)
  run_at prefill pos input id net (some thread) =
      ran_there id net (run_job lib display elapsed one_session (step_of prefill pos input) thread)

  -- `Stage::run`
  unfoldable pub run_stage :
      Bool → ℕ → Payload → Stage lib → Network lib → Result Payload × Stage lib × Network lib
  run_stage prefill pos input (here spec shard) net =
      ran_here spec net (call_shard prefill pos input shard)
  run_stage prefill pos input (peer id) net = run_at prefill pos input id net (net id)

  abbrev pub behind :
      Stage lib
      → Result Payload × List (Stage lib) × Network lib
      → Result Payload × List (Stage lib) × Network lib
  behind stage (r, stages, net) = (r, stage ∷ stages, net)

  -- `?` behind a stage.
  abbrev pub passed_on :
      Stage lib
      → List (Stage lib)
      → Network lib
      → Result Payload
      → (Payload → Result Payload × List (Stage lib) × Network lib)
      → Result Payload × List (Stage lib) × Network lib
  passed_on stage rest net (err e) next = (err e, stage ∷ rest, net)
  passed_on stage rest net (ok payload) next = behind stage (next payload)

  -- `Pipeline::run`
  unfoldable pub run_stages :
      Bool
      → ℕ
      → Payload
      → List (Stage lib)
      → Network lib
      → Result Payload × List (Stage lib) × Network lib
  run_stages prefill pos input [] net = (ok input, [], net)
  run_stages prefill pos input (stage ∷ rest) net =
      let (r, stage', net') = run_stage prefill pos input stage net in
      passed_on stage' rest net' r (λ payload. run_stages prefill pos payload rest net')

  abbrev pub loaded_at : DeviceId → Option Response → Result (Stage lib)
  loaded_at id none = err (no_answer id)
  loaded_at id (some (shard_loaded weight_bytes kv_bytes)) = ok (peer id)
  loaded_at id (some (refused why)) = err (refused_layers id why)
  loaded_at id (some other) = err (answered_with id other)

  abbrev pub load_at :
      DeviceId → ShardSpec → Network lib → Option (Thread lib) → Result (Stage lib) × Network lib
  load_at id spec net none = (err (no_connection id), net)
  load_at id spec net (some thread) =
      let (answer, thread') = load_shard lib (models id) spec thread in
      (loaded_at id answer, put lib id thread' net)

  -- `open_remote`, with the lookup of the connection.
  unfoldable pub open_remote : DeviceId → ShardSpec → Network lib → Result (Stage lib) × Network lib
  open_remote id spec net = load_at id spec net (net id)

  module _ (hash : String) (content : Content) (options : Options) where
    abbrev pub spec_of : Placement → ShardSpec
    spec_of place = record {
      model_hash = hash;
      first_layer = place.first_layer;
      last_layer = place.last_layer;
      max_context = options.max_context;
      kv_dtype = kv_f16;
      wire_dtype = options.wire_dtype;
    }

    unfoldable pub open_stage : ShardSpec → Host → Network lib → Result (Stage lib) × Network lib
    open_stage spec Host.here net = (
      map_err (loading spec.first_layer spec.last_layer) (open_shard lib content spec)
          >>= (λ shard. ok (here spec shard)),
      net,
    )
    open_stage spec (Host.peer id) net = open_remote id spec net

    abbrev pub opened_on :
        Network lib
        → Result (Stage lib)
        → Result (List (Stage lib)) × Network lib
        → Result (List (Stage lib)) × Network lib
    opened_on net (err e) rest = (err e, net)
    opened_on net (ok stage) (r, net') = (r >>= (λ stages. ok (stage ∷ stages)), net')

    -- The loop of `Pipeline::open`.
    unfoldable pub open_stages :
        List Placement → Network lib → Result (List (Stage lib)) × Network lib
    open_stages [] net = (ok [], net)
    open_stages (place ∷ places) net =
        let (r, net') = open_stage (spec_of place) place.host net in
        opened_on net' r (open_stages places net')

  abbrev pub checked : Checked → Result (Unit {0})
  checked tiled = ok tt
  checked other = err (tiling other)

  abbrev pub opened_if :
      Network lib
      → Result (Unit {0})
      → Result (List (Stage lib)) × Network lib
      → Result (List (Stage lib)) × Network lib
  opened_if net (err e) opened = (err e, net)
  opened_if net (ok u) opened = opened

  -- `Pipeline::open`, of a file that `run` has read.
  unfoldable pub open_pipeline :
      Option String
      → Content
      → ModelFacts
      → Options
      → Network lib
      → Result (List (Stage lib)) × Network lib
  open_pipeline none content facts options net = (err hashing, net)
  open_pipeline (some hash) content facts options net =
      opened_if net (checked (check_tiling options.places facts.layers))
        (open_stages hash content options options.places net)
