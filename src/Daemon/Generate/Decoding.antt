-- ===== src/Daemon/Generate/Decoding.antt =====
-- crates/latticed/src/generate.rs: greedy sampling, the decode loop over a chain, and a run. The report of
-- times and sizes is left out but for its panic.
pub mod Sampling
pub mod Whole
pub mod Placed
mod Examples
use Prim.Native.String.{String}
use p2p_distributed_inferenc.Prelude.{
  ℕ, zero, suc, ◌+◌, ◌-◌, ◌%◌, ◌^◌, Bool, true, false, not, ◌&&◌, Option, none, some, List, [], ◌∷◌,
  ltb, length, if◌then◌else◌,
}
use p2p_distributed_inferenc.Prelude.Order.{cmp_bytes, is_eq}
use p2p_distributed_inferenc.Prelude.Results
use p2p_distributed_inferenc.Prelude.Results.{ok, err, ◌>>=◌, or_fail, map_err}
use p2p_distributed_inferenc.Engine.Dtype.{WireDtype, kv_f16}
use p2p_distributed_inferenc.Engine.Error.{Error, engine, unreadable}
use p2p_distributed_inferenc.Engine.Abi.{
  Payload, tokens, hidden, logits, kind, ShardSpec, ShardStats,
}
use p2p_distributed_inferenc.Engine.Facts.{ModelFacts}
use p2p_distributed_inferenc.Engine.Metadata.{read_facts}
use p2p_distributed_inferenc.Engine.Inventory.{Content}
use p2p_distributed_inferenc.Engine.Candle
use p2p_distributed_inferenc.Engine.Candle.{Library, CandleShard, open_shard, stats}
use p2p_distributed_inferenc.Net.Identity.{DeviceId}
use p2p_distributed_inferenc.Net.Activation
use p2p_distributed_inferenc.Net.Activation.{Step}
use p2p_distributed_inferenc.Net.Control.{Response, shard_loaded, refused, Refusal}
use p2p_distributed_inferenc.Daemon.Node.Shard.{ModelFile, Thread, load_shard, run_job, drop_job}
use p2p_distributed_inferenc.Daemon.Generate.{Host, Placement, Checked, tiled, check_tiling}
use p2p_distributed_inferenc.Daemon.Generate.Pipeline.{
  Fault, Network, Options, Result, Stage, Surroundings, answered_with, behind, call_shard, checked,
  empty_logits, hashing, here, load_at, loaded_at, loading, no_answer, no_connection, not_logits,
  one_session, open_pipeline, open_remote, open_stage, open_stages, opened_if, opened_on, passed_on,
  peer, put, ran_here, ran_there, reading, refused_layers, run_at, run_stage, run_stages, running,
  same_id, shard_on, spec_of, stats_panicked, step_of, tiling,
}

-- A float's place in the total order: its bits, with the sign turned over.
unfoldable pub total_key : ℕ → ℕ
total_key bits = if ltb bits (2 ^ 31) then bits + 2 ^ 31 else (2 ^ 32 - 1) - bits

-- `max_by(total_cmp)` over what is left, where `best` at `at` leads: of equals the last one leads.
unfoldable pub best_from : ℕ → ℕ → ℕ → List ℕ → ℕ
best_from next at best [] = at
best_from next at best (v ∷ rest) =
    best_from (next + 1) (if ltb (total_key v) (total_key best) then at else next)
      (if ltb (total_key v) (total_key best) then best else v) rest

unfoldable pub argmax : Payload → Result ℕ
argmax (logits []) = err empty_logits
argmax (logits (v ∷ values)) = ok (best_from 1 0 v values % 2 ^ 32)
argmax (tokens ids) = err (not_logits (kind (tokens ids)))
argmax (hidden a) = err (not_logits (kind (hidden a)))

abbrev pub is_known : Option ShardStats → Bool
is_known none = false
is_known (some s) = true

module _ (lib : Library) (around : Surroundings) where
  -- `Pipeline::finish`: the end of its stream takes a peer's session off it.
  abbrev pub finish_at : DeviceId → Network lib → Option (Thread lib) → Network lib
  finish_at id net none = net
  finish_at id net (some thread) = put lib id (drop_job lib one_session thread) net

  unfoldable pub finish : List (Stage lib) → Network lib → Network lib
  finish [] net = net
  finish (here spec shard ∷ stages) net = finish stages net
  finish (peer id ∷ stages) net = finish stages (finish_at id net (net id))

  abbrev pub is_reported : Stage lib → Bool
  is_reported (here spec shard) = is_known (stats lib shard)
  is_reported (peer id) = true

  abbrev pub all_reported : List (Stage lib) → Bool
  all_reported [] = true
  all_reported (stage ∷ stages) = is_reported stage && all_reported stages

  abbrev pub then_finish :
      Result (List ℕ) × List (Stage lib) × Network lib → Result (List ℕ) × Network lib
  then_finish (err e, stages, net) = (err e, net)
  then_finish (ok out, stages, net) = (ok out, finish stages net)

  abbrev pub out_after :
      ℕ
      → Result (List ℕ) × List (Stage lib) × Network lib
      → Result (List ℕ) × List (Stage lib) × Network lib
  out_after next (r, stages, net) = (r >>= (λ out. ok (next ∷ out)), stages, net)

  abbrev pub sampled_on :
      List (Stage lib)
      → Network lib
      → Result ℕ
      → (ℕ → Result (List ℕ) × List (Stage lib) × Network lib)
      → Result (List ℕ) × List (Stage lib) × Network lib
  sampled_on stages net (err e) next = (err e, stages, net)
  sampled_on stages net (ok token) next = out_after token (next token)

  -- The loop of `run` from `step` on, for `count` more tokens. The position wraps around in a u32.
  unfoldable pub decode_from :
      ℕ
      → ℕ
      → ℕ
      → ℕ
      → List (Stage lib)
      → Network lib
      → Result (List ℕ) × List (Stage lib) × Network lib
  decode_from zero step len next stages net = (ok [], stages, net)
  decode_from (suc count) step len next stages net =
      let (r, stages', net') =
        run_stages lib around false ((len % 2 ^ 32 + step) % 2 ^ 32) (tokens (next ∷ [])) stages
          net in
      sampled_on stages' net' (r >>= argmax)
        (λ token. decode_from count (step + 1) len token stages' net')

  unfoldable pub generate :
      List ℕ → ℕ → List (Stage lib) → Network lib → Result (List ℕ) × List (Stage lib) × Network lib
  generate prompt max_new stages net =
      let (r, stages', net') = run_stages lib around true 0 (tokens prompt) stages net in
      sampled_on stages' net' (r >>= argmax)
        (λ next. decode_from (max_new - 1) 0 (length prompt) next stages' net')

  abbrev pub run_opened :
      List ℕ → ℕ → Result (List (Stage lib)) × Network lib → Result (List ℕ) × Network lib
  run_opened prompt max_new (err e, net) = (err e, net)
  run_opened prompt max_new (ok stages, net) =
      if not (all_reported stages)
      then (err stats_panicked, net)
      else then_finish (generate prompt max_new stages net)

  abbrev pub run_content :
      Option String
      → List ℕ
      → Options
      → Network lib
      → Content
      → Results.Result Error ModelFacts
      → Result (List ℕ) × Network lib
  run_content hash prompt options net content (err e) = (err (reading e), net)
  run_content hash prompt options net content (ok facts) =
      run_opened prompt options.max_new (open_pipeline lib around hash content facts options net)

  abbrev pub run_parsed :
      Option String
      → List ℕ
      → Options
      → Network lib
      → Option Content
      → Result (List ℕ) × Network lib
  run_parsed hash prompt options net none = (err (reading (engine unreadable)), net)
  run_parsed hash prompt options net (some content) =
      run_content hash prompt options net content (read_facts content.metadata)

  -- `run`, with the tokens that it prints.
  unfoldable pub run : ModelFile → List ℕ → Options → Network lib → Result (List ℕ) × Network lib
  run file prompt options net = run_parsed file.hash prompt options net file.content
