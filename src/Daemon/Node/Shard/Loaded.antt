-- ===== src/Daemon/Node/Shard/Loaded.antt =====
-- crates/latticed/src/node.rs: which shard the node holds after a request to load one, and after a
-- session.
use Prim.Native.String.{String}
use package.text.Mathlib.Text as Text
use text.Mathlib.TextEquality.{eq_iff}
use p2p_distributed_inferenc.Prelude.{
  ℕ, zero, suc, ◌-◌, ◌≤◌, ◌<◌, ◌≡◌, ◌≢◌, refl, sym, ◌∙◌, inl, inr, true, false, Option, none, some,
  List, [], ◌∷◌, arith, All, ltb, Bool-cases, Option-cases,
}
use p2p_distributed_inferenc.Engine.Error.{Error, Result, ok, err}
use p2p_distributed_inferenc.Engine.Abi.{ShardSpec, layers, ShardStats}
use p2p_distributed_inferenc.Engine.Metadata.{read_facts, kv_bytes}
use p2p_distributed_inferenc.Engine.Inventory.{Content}
use p2p_distributed_inferenc.Engine.Candle.{
  Library, CandleShard, shard_weight_bytes, open_shard, stats, is_active, drop_session,
}
use p2p_distributed_inferenc.Engine.Candle.Opened.{open_shard-IsOpened}
use p2p_distributed_inferenc.Net.Codec.{Pipe}
use p2p_distributed_inferenc.Net.Message.{Wire}
use p2p_distributed_inferenc.Net.Activation.{Step, StepResult, serve_stream}
use p2p_distributed_inferenc.Net.Activation.Served.{serve_stream_terminates}
use p2p_distributed_inferenc.Net.Control.{Response, shard_loaded}
use p2p_distributed_inferenc.Daemon.Node.Shard.{
  ModelFile, codes, utf8_len, can_slice, Thread, gone, holding, opened, load_job, answered, hashed,
  load_shard, drop_job, node_executor,
}

module _ (lib : Library) where
  -- The shard holds the weights of the layers that were asked for, as candle reads them from the
  -- node's own file, under the facts and the size of that file, and no session has used it.
  pub record IsLoaded (file : ModelFile) (spec : ShardSpec) (shard : CandleShard lib) : Type 0 where
    pub same_model :
        (hash : String) × (file.hash ≡ some hash) × (Text.◌==◌ hash spec.model_hash ≡ true)
    pub content : Content
    pub parsed : file.content ≡ some content
    pub read : read_facts content.metadata ≡ ok shard.facts
    pub ordered : spec.first_layer ≤ spec.last_layer
    pub llama : shard.facts.arch ≡ "llama"
    pub in_model : spec.last_layer ≤ shard.facts.layers
    pub weights : lib.from_gguf content spec.first_layer spec.last_layer ≡ some shard.model
    pub weighed : shard.weight_bytes ≡ shard_weight_bytes content spec shard.facts.layers
    pub as_asked : shard.spec ≡ spec
    pub unused : shard.active ≡ none

  -- The bytes in an answer are those that the shard's `stats` tell.
  abbrev IsReported : CandleShard lib → ℕ → ℕ → Type 0
  IsReported shard w k =
      (s : ShardStats) × (stats lib shard ≡ some s) × (w ≡ s.weight_bytes) × (k ≡ s.kv_bytes)

  opened-loaded :
      (old : Option (CandleShard lib)) (r : Result (CandleShard lib)) (w k : ℕ) (t : Thread lib)
      → opened lib old r ≡ (shard_loaded w k, t)
      → (shard : CandleShard lib) × (r ≡ ok shard)
        × (t ≡ holding (some shard))
        × IsReported shard w k
  opened-loaded old (err e) w k t h = cc
  opened-loaded old (ok shard) w k t h = elim (Option-cases (stats lib shard)) [
    | inl dead ↦ cc (rw dead at h)
    | inr (s, e) ↦
        let told = rw e at h in (shard, refl, ground arith, (s, e, ground arith, ground arith))
  ]

  load_job-loaded :
      (content : Option Content) (spec : ShardSpec) (thread t : Thread lib) (w k : ℕ)
      → load_job lib content spec thread ≡ (shard_loaded w k, t)
      → (c : Content) × (shard : CandleShard lib) × (content ≡ some c)
        × (open_shard lib c spec ≡ ok shard)
        × (t ≡ holding (some shard))
        × IsReported shard w k
  unfolding load_job
  load_job-loaded content spec gone t w k h = cc
  load_job-loaded none spec (holding old) t w k h = cc
  load_job-loaded (some c) spec (holding old) t w k h =
      let (shard, e, at, told) = opened-loaded old (open_shard lib c spec) w k t h in
      (c, shard, refl, e, at, told)

  stats_facts :
      (shard : CandleShard lib) (s : ShardStats)
      → stats lib shard ≡ some s
      → (shard.weight_bytes ≡ s.weight_bytes)
        × (kv_bytes shard.facts (layers shard.spec) shard.spec.max_context shard.spec.kv_dtype
            ≡ some s.kv_bytes)
  unfolding stats
  stats_facts shard s h =
      elim (Option-cases
        (kv_bytes shard.facts (layers shard.spec) shard.spec.max_context shard.spec.kv_dtype)) [
          | inl dead ↦ cc (rw dead at h)
          | inr (kv, e) ↦ let told = rw e at h in (ground arith, rw e (ground arith))
        ]

  answered-some :
      (x : Response × Thread lib) (r : Response) (t : Thread lib)
      → answered lib x ≡ (some r, t)
      → x ≡ (r, t)
  answered-some (r', t') r t h = ground arith

  hashed-loaded :
      (content : Option Content) (spec : ShardSpec) (thread t : Thread lib) (o : Option String)
      (w k : ℕ)
      → hashed lib content spec thread o ≡ (some (shard_loaded w k), t)
      → (hash : String) × (o ≡ some hash)
        × (Text.◌==◌ hash spec.model_hash ≡ true)
        × (load_job lib content spec thread ≡ (shard_loaded w k, t))
  hashed-loaded content spec thread t none w k h = cc
  hashed-loaded content spec thread t (some hash) w k h =
      elim (Bool-cases (Text.◌==◌ hash spec.model_hash)) [
        | inl e ↦ (
          hash,
          refl,
          e,
          answered-some (load_job lib content spec thread) (shard_loaded w k) t (rw e at h),
        )
        | inr e ↦ elim (Bool-cases (can_slice 16 (codes spec.model_hash))) [
          | inl f ↦ absurd (cc (rw (e, f) at h))
          | inr f ↦ absurd (cc (rw (e, f) at h))
        ]
      ]

  -- A node that answers that a shard is loaded holds exactly the shard that was asked for: its file has
  -- the hash that the request names, is a llama model and has the layers of the range, the weights are
  -- those that candle reads for that range, and there is no session on it. The bytes that it answers
  -- with are those of these weights and of the cache of those layers.
  pub load_shard-IsLoaded :
      (model : Option ModelFile) (spec : ShardSpec) (thread t : Thread lib) (w k : ℕ)
      → load_shard lib model spec thread ≡ (some (shard_loaded w k), t)
      → (file : ModelFile) × (shard : CandleShard lib) × (model ≡ some file)
        × (t ≡ holding (some shard))
        × IsLoaded file spec shard
        × (w ≡ shard.weight_bytes)
        × (kv_bytes shard.facts (spec.last_layer - spec.first_layer) spec.max_context spec.kv_dtype
            ≡ some k)
  unfolding load_shard
  load_shard-IsLoaded none spec thread t w k h = absurd cc
  load_shard-IsLoaded (some file) spec thread t w k h =
      let (hash, at, same, loads) = hashed-loaded file.content spec thread t file.hash w k h in
      let (c, shard, parsed, opens, held, (s, told, at_w, at_k)) =
        load_job-loaded file.content spec thread t w k loads in
      let o = open_shard-IsOpened lib c spec shard opens in
      let (weighs, caches) = stats_facts shard s told in
      (
        file,
        shard,
        refl,
        held,
        record {
          same_model = (hash, at, same);
          content = c;
          parsed = parsed;
          read = o.read;
          ordered = ground (arith, o.ordered);
          llama = (eq_iff shard.facts.arch "llama").0 o.llama;
          in_model = ground (arith, o.in_model);
          weights = o.loaded;
          weighed = o.weighed;
          as_asked = o.as_asked;
          unused = o.unused;
        },
        at_w ∙ sym weighs,
        rw at_k (rw o.as_asked at caches),
      )

  -- It holds what opening the range of its own file gives.
  pub load_shard_opens :
      (model : Option ModelFile) (spec : ShardSpec) (thread t : Thread lib) (w k : ℕ)
      → load_shard lib model spec thread ≡ (some (shard_loaded w k), t)
      → (file : ModelFile) × (hash : String) × (content : Content) × (shard : CandleShard lib)
        × (model ≡ some file)
        × (file.hash ≡ some hash)
        × (Text.◌==◌ hash spec.model_hash ≡ true)
        × (file.content ≡ some content)
        × (open_shard lib content spec ≡ ok shard)
        × (t ≡ holding (some shard))
  unfolding load_shard
  load_shard_opens none spec thread t w k h = absurd cc
  load_shard_opens (some file) spec thread t w k h =
      let (hash, at, same, loads) = hashed-loaded file.content spec thread t file.hash w k h in
      let (c, shard, parsed, opens, held, told) =
        load_job-loaded file.content spec thread t w k loads in
      (file, hash, c, shard, refl, at, same, parsed, opens, held)

  can_slice-ascii : (n : ℕ) (cs : List ℕ) → All (λ c. c < 128) cs → can_slice n cs ≡ true
  unfolding can_slice utf8_len
  can_slice-ascii n [] h = refl
  can_slice-ascii zero (c ∷ cs) h = refl
  can_slice-ascii (suc n) (c ∷ cs) (h, hs) =
      let small : ltb c 0x80 ≡ true = ground (arith, h) in
      let ih = can_slice-ascii (suc n - 1) cs hs in rw (small, ih) (ground arith)

  -- A request for a shard whose hash is ASCII text is answered, and does not panic.
  pub load_shard_answers :
      (model : Option ModelFile) (spec : ShardSpec) (thread : Thread lib)
      → All (λ c. c < 128) (codes spec.model_hash)
      → (load_shard lib model spec thread).0 ≢ none
  unfolding load_shard
  load_shard_answers none spec thread h = λ e. cc
  load_shard_answers (some file) spec thread h = answers file.hash
    where
      answers : (o : Option String) → (hashed lib file.content spec thread o).0 ≢ none
      answers none = λ e. cc
      answers (some hash) = elim (Bool-cases (Text.◌==◌ hash spec.model_hash)) [
        | inl e ↦ rw e (λ k. cc)
        | inr e ↦ rw (e, can_slice-ascii 16 (codes spec.model_hash) h) (λ k. cc)
      ]

  -- No session is left on the shard that the thread holds, if any.
  abbrev pub IsFree : ℕ → Thread lib → Type 0
  IsFree session gone = Unit {0}
  IsFree session (holding none) = Unit {0}
  IsFree session (holding (some shard)) = is_active lib session shard.active ≡ false

  drop_session-is_active :
      (session : ℕ) (shard : CandleShard lib)
      → is_active lib session (drop_session lib session shard).active ≡ false
  unfolding drop_session is_active
  drop_session-is_active session shard = elim (Bool-cases (is_active lib session shard.active)) [
    | inl e ↦ rw e refl
    | inr e ↦ rw e e
  ]

  drop_job-IsFree :
      (session : ℕ) (thread : Thread lib) → IsFree session (drop_job lib session thread)
  unfolding drop_job
  drop_job-IsFree session gone = tt
  drop_job-IsFree session (holding none) = tt
  drop_job-IsFree session (holding (some shard)) = drop_session-is_active session shard

  -- When a node serves a session's stream, whatever bytes the master sends, the stream comes to an end
  -- and the session does not stay on the node's shard.
  pub serve_stream-IsFree :
      (pipe : Pipe) (steps : Wire Step) (results : Wire StepResult) (display : Error → String)
      (elapsed : ℕ → Step → ℕ) (session : ℕ) (send recv : pipe.S) (thread : Thread lib)
      → (s : pipe.S) × (t : Thread lib) × (serve_stream pipe steps results
            (node_executor lib display elapsed)
            session
            send
            recv
            thread
          ≡ some (s, t))
        × IsFree session t
  serve_stream-IsFree pipe steps results display elapsed session send recv thread =
      let (s, last, ends) =
        serve_stream_terminates pipe steps results (node_executor lib display elapsed) session send
          recv thread in
      (s, drop_job lib session last, ends, drop_job-IsFree session last)
