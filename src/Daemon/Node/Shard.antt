-- ===== src/Daemon/Node/Shard.antt =====
-- crates/latticed/src/node.rs: the thread that owns the shard, and what it is sent. `gone` is a thread
-- that has panicked.
pub mod Loaded
mod Examples
use Prim.Native.Char.{code}
use Prim.Native.String.{String}
use package.text.Mathlib.Text as Text
use p2p_distributed_inferenc.Prelude.{
  ℕ, zero, suc, ◌+◌, ◌-◌, Bool, true, false, Option, none, some, List, [], ◌∷◌, leb, ltb,
  if◌then◌else◌,
}
use p2p_distributed_inferenc.Prelude.Results
use p2p_distributed_inferenc.Engine.Error.{
  Error, Result, ok, err, engine, unreadable, ◌>>=◌, or_fail, map_err,
}
use p2p_distributed_inferenc.Engine.Abi.{Payload, ShardSpec, ShardStats}
use p2p_distributed_inferenc.Engine.Inventory.{Content}
use p2p_distributed_inferenc.Engine.Candle.{
  Library, CandleShard, open_shard, prefill, decode, drop_session, stats,
}
use p2p_distributed_inferenc.Net.Activation
use p2p_distributed_inferenc.Net.Activation.{Step, done, Executor}
use p2p_distributed_inferenc.Net.Control.{
  Response, shard_loaded, refused, no_model, other_model, unhashed, shard_thread_gone,
  shard_thread_died, unloadable,
}

-- The model file: what `hash_file` makes of it, and what candle parses.
pub record ModelFile : Type 0 where
  pub hash : Option String
  pub content : Option Content

abbrev pub codes : String → List ℕ
codes String.[] = []
codes (String.◌∷◌ c s) = code c ∷ codes s

-- The bytes of a character in UTF-8.
unfoldable pub utf8_len : ℕ → ℕ
utf8_len c = if ltb c 0x80 then 1 else if ltb c 0x800 then 2 else if ltb c 0x10000 then 3 else 4

-- Whether a text can be sliced up to the byte `n`, or to its end if that comes first.
unfoldable pub can_slice : ℕ → List ℕ → Bool
can_slice n [] = true
can_slice zero (c ∷ cs) = true
can_slice (suc n) (c ∷ cs) =
    let rest = can_slice (suc n - utf8_len c) cs in if leb (utf8_len c) (suc n) then rest else false

module _ (lib : Library) where
  pub data Thread : Type 0 where
    gone : Thread
    holding : Option (CandleShard lib) → Thread

  abbrev pub reported : CandleShard lib → Option ShardStats → Response × Thread
  reported shard none = (refused shard_thread_died, gone)
  reported shard (some s) = (shard_loaded s.weight_bytes s.kv_bytes, holding (some shard))

  abbrev pub opened : Option (CandleShard lib) → Result (CandleShard lib) → Response × Thread
  opened old (err e) = (refused unloadable, holding old)
  opened old (ok shard) = reported shard (stats lib shard)

  -- `Job::Load`, sent and answered.
  unfoldable pub load_job : Option Content → ShardSpec → Thread → Response × Thread
  load_job content spec gone = (refused shard_thread_gone, gone)
  load_job content spec (holding old) =
      opened old (or_fail (engine unreadable) content >>= (λ c. open_shard lib c spec))

  abbrev pub answered : Response × Thread → Option Response × Thread
  answered (response, thread) = (some response, thread)

  abbrev pub hashed : Option Content → ShardSpec → Thread → Option String → Option Response × Thread
  hashed content spec thread none = (some (refused unhashed), thread)
  hashed content spec thread (some hash) =
      if Text.◌==◌ hash spec.model_hash
      then answered (load_job content spec thread)
      else if can_slice 16 (codes spec.model_hash)
      then (some (refused other_model), thread)
      else (none, thread)

  -- `Node::load_shard`; `none` is a panic, of the slice of the hash that was asked for.
  unfoldable pub load_shard : Option ModelFile → ShardSpec → Thread → Option Response × Thread
  load_shard none spec thread = (some (refused no_model), thread)
  load_shard (some file) spec thread = hashed file.content spec thread file.hash

  -- `Job::Drop`
  unfoldable pub drop_job : ℕ → Thread → Thread
  drop_job session gone = gone
  drop_job session (holding none) = holding none
  drop_job session (holding (some shard)) = holding (some (drop_session lib session shard))

  -- `e.to_string()`, and how long a step takes.
  module _ (display : Error → String) (elapsed : ℕ → Step → ℕ) where
    abbrev pub ran :
        Result Payload × CandleShard lib → Results.Result String Payload × Option (CandleShard lib)
    ran (r, shard) = (map_err display r, some shard)

    unfoldable pub run_step :
        Option (CandleShard lib)
        → ℕ
        → Step
        → Results.Result String Payload × Option (CandleShard lib)
    run_step none session step = (err "this device has been given no layers", none)
    run_step (some shard) session (Activation.prefill pos input) =
        ran (prefill lib session pos input shard)
    run_step (some shard) session (Activation.decode pos input) =
        ran (decode lib (elapsed session (Activation.decode pos input)) session pos input shard)
    run_step (some shard) session done =
        (err "Done is handled by the stream, not the shard", some shard)

    abbrev pub still_holding :
        Results.Result String Payload × Option (CandleShard lib)
        → Results.Result String Payload × Thread
    still_holding (r, held) = (r, holding held)

    -- `Job::Run`, sent and answered.
    unfoldable pub run_job : ℕ → Step → Thread → Results.Result String Payload × Thread
    run_job session step gone = (err "the shard thread is gone", gone)
    run_job session step (holding held) = still_holding (run_step held session step)

    -- The node as an `Executor`.
    abbrev pub node_executor : Executor
    node_executor = record { State = Thread; run = run_job; drop_session = drop_job }
