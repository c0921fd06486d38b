-- ===== src/Daemon/Generate/Decoding/Placed.antt =====
-- crates/latticed/src/generate.rs: a run prints the same wherever the layers are placed.
use Prim.Native.String.{String}
use mathlib.Core.Path.{subst}
use p2p_distributed_inferenc.Prelude.{
  ℕ, ◌<◌, ◌≡◌, refl, sym, ap, ◌∙◌, true, false, some, List, [], ◌∷◌, arith, ◌==◌,
}
use p2p_distributed_inferenc.Prelude.Results.{ok, err}
use p2p_distributed_inferenc.Engine.Dtype.{f32}
use p2p_distributed_inferenc.Engine.Abi.{ShardSpec}
use p2p_distributed_inferenc.Engine.Facts.{ModelFacts}
use p2p_distributed_inferenc.Engine.Metadata.{read_facts, head_dim, kv_bytes}
use p2p_distributed_inferenc.Engine.Inventory.{Content}
use p2p_distributed_inferenc.Engine.Candle.{Library, CandleShard, stats}
use p2p_distributed_inferenc.Engine.Candle.Composition.{Composes}
use p2p_distributed_inferenc.Engine.Candle.Opened.{open_shard-IsOpened}
use p2p_distributed_inferenc.Daemon.Node.Shard.{ModelFile}
use p2p_distributed_inferenc.Daemon.Generate.{Placement, Checked, tiled, check_tiling, check_from}
use p2p_distributed_inferenc.Daemon.Generate.Pipeline.{
  Options, Surroundings, Result, Network, Stage, here, peer, spec_of, open_stages, checked,
  opened_if, open_pipeline,
}
use p2p_distributed_inferenc.Daemon.Generate.Decoding.{
  is_reported, all_reported, then_finish, generate, run_opened, run,
}
use p2p_distributed_inferenc.Daemon.Generate.Pipeline.Covers.{Shows, Covers}
use p2p_distributed_inferenc.Daemon.Generate.Pipeline.Opening.{OnePerPeer, SameFile}
use p2p_distributed_inferenc.Daemon.Generate.Pipeline.Tiled.{
  all_of, range_shard, open_stages-Covers, check_from_last,
}
use p2p_distributed_inferenc.Daemon.Generate.Decoding.Whole.{SameOutcome, generate-SameOutcome}

module _ (lib : Library) (laws : Composes lib) (around : Surroundings) where
  stats_reported :
      (s : CandleShard lib) (spec : ShardSpec)
      → 0 < s.facts.heads
      → is_reported lib around (here spec s) ≡ true
  unfolding stats kv_bytes head_dim
  stats_reported s spec h =
      let some_heads : (s.facts.heads == 0) ≡ false = ground arith in rw some_heads refl

  Shows-is_reported :
      (net : Network lib) (stage : Stage lib) (s : CandleShard lib)
      → Shows lib laws around net stage s
      → 0 < s.facts.heads
      → is_reported lib around stage ≡ true
  Shows-is_reported net (here spec s') s p h = stats_reported s' spec (rw p.facts h)
  Shows-is_reported net (peer id) s p h = refl

  Covers-all_reported :
      (net : Network lib) (stages : List (Stage lib)) (c : CandleShard lib)
      → Covers lib laws around net stages c
      → 0 < c.facts.heads
      → all_reported lib around stages ≡ true
  Covers-all_reported net [] c h pos = refl
  Covers-all_reported net (stage ∷ []) c h pos = rw (Shows-is_reported net stage c h pos) refl
  Covers-all_reported net (stage ∷ next ∷ rest) c (s, d, shows, covers, j, a) pos =
      rw
        (
          Shows-is_reported net stage s shows (rw j.facts pos),
          Covers-all_reported net (next ∷ rest) d covers (rw j.facts' pos),
        )
        refl

  opened_if-ok :
      (net : Network lib) (k : Checked) (x : Result (List (Stage lib)) × Network lib)
      (stages : List (Stage lib))
      → (opened_if lib around net (checked lib around k) x).0 ≡ ok stages
      → (k ≡ tiled) × (opened_if lib around net (checked lib around k) x ≡ x)
  opened_if-ok net tiled x stages h = (refl, refl)
  opened_if-ok net (Checked.unplaced a b) x stages h = absurd cc
  opened_if-ok net (Checked.not_a_range a b) x stages h = absurd cc
  opened_if-ok net (Checked.covers a b) x stages h = absurd cc

  -- A chain that was opened covers the shard of all the model's layers.
  open_pipeline-Covers :
      (hash : String) (content : Content) (facts : ModelFacts) (options : Options)
      (net : Network lib) (stages : List (Stage lib))
      → options.wire_dtype ≡ f32
      → 0 < facts.layers
      → SameFile hash content around.models
      → OnePerPeer options.places
      → (open_pipeline lib around (some hash) content facts options net).0 ≡ ok stages
      → (c : CandleShard lib) × (range_shard lib laws around hash content options 0 facts.layers
          ≡ ok c)
        × Covers lib laws around
            (open_pipeline lib around (some hash) content facts options net).1
            stages
            c
  unfolding open_pipeline check_tiling
  open_pipeline-Covers hash content facts options net stages wire pos one apart h =
      let opened = open_stages lib around hash content options options.places net in
      let (tiles, whole) =
        opened_if-ok net (check_tiling options.places facts.layers) opened stages h in
      let (c, opens, covers) =
        tiled-Covers options.places tiles apart
          (ap (λ (x : Result (List (Stage lib)) × Network lib). x.0) (sym whole) ∙ h) in
      (
        c,
        opens,
        subst (λ (x : Result (List (Stage lib)) × Network lib). Covers lib laws around x.1 stages c)
            (sym whole) covers,
      )
    where
      tiled-Covers :
          (places : List Placement)
          → check_from facts.layers 0 places ≡ tiled
          → OnePerPeer places
          → (open_stages lib around hash content options places net).0 ≡ ok stages
          → (c : CandleShard lib) × (range_shard lib laws around hash content options 0 facts.layers
              ≡ ok c)
            × Covers lib laws around
                (open_stages lib around hash content options places net).1
                stages
                c
      tiled-Covers [] tiles apart h =
          let none_left : 0 ≡ facts.layers = check_from_last facts.layers 0 tiles in
          absurd (omega arith)
      tiled-Covers (place ∷ places) tiles apart h =
          let (c, opens, covers, above) =
            open_stages-Covers lib laws around hash content options facts.layers 0 place places net
              stages wire one apart tiles h in
          (c, opens, covers)

  run_opened-outcome :
      (prompt : List ℕ) (max_new : ℕ) (stages : List (Stage lib))
      (x : Result (List (Stage lib)) × Network lib)
      → x.0 ≡ ok stages
      → all_reported lib around stages ≡ true
      → (run_opened lib around prompt max_new x).0
        ≡ (generate lib around prompt max_new stages x.1).0
  run_opened-outcome prompt max_new stages (err e, net) h r = absurd cc
  run_opened-outcome prompt max_new stages (ok s, net) h r =
      let it : s ≡ stages = cc in
      rw (it, r) (finished (generate lib around prompt max_new stages net))
    where
      finished :
          (x : Result (List ℕ) × List (Stage lib) × Network lib)
          → (then_finish lib around x).0 ≡ x.0
      finished (ok out, s, n) = refl
      finished (err e, s, n) = refl

  run-opened :
      (file : ModelFile) (hash : String) (content : Content) (facts : ModelFacts) (prompt : List ℕ)
      (options : Options) (net : Network lib)
      → file.hash ≡ some hash
      → file.content ≡ some content
      → read_facts content.metadata ≡ ok facts
      → run lib around file prompt options net
        ≡ run_opened lib around prompt options.max_new
            (open_pipeline lib around (some hash) content facts options net)
  unfolding run
  run-opened file hash content facts prompt options net hashed parsed read =
      rw (hashed, parsed, read) refl

  -- Two runs of one model file on one prompt, with options that differ only in where the layers are placed,
  -- both fail or yield the same tokens, if both chains can be opened: here or on peers, whole or in parts. This
  -- is so for a model that has layers and heads, with hidden states that cross as f32, placements of which no
  -- two are on one peer, peers whose file has the master's content if it has the master's hash, and a layer
  -- stack that runs as its two halves do.
  pub run-SameOutcome :
      (file : ModelFile) (hash : String) (content : Content) (facts : ModelFacts) (prompt : List ℕ)
      (options : Options) (places : List Placement) (net net' : Network lib)
      (stages stages' : List (Stage lib))
      → file.hash ≡ some hash
      → file.content ≡ some content
      → read_facts content.metadata ≡ ok facts
      → 0 < facts.layers
      → 0 < facts.heads
      → options.wire_dtype ≡ f32
      → SameFile hash content around.models
      → OnePerPeer options.places
      → OnePerPeer places
      → (open_pipeline lib around (some hash) content facts options net).0 ≡ ok stages
      → (open_pipeline lib around
          (some hash)
          content
          facts
          (record options { places = places })
          net').0
        ≡ ok stages'
      → SameOutcome
          (run lib around file prompt options net).0
          (run lib around file prompt (record options { places = places }) net').0
  run-SameOutcome file hash content facts prompt options places net net' stages stages' hashed
        parsed read some_layers some_heads wire one apart apart' opens opens' =
      let other : Options = record options { places = places } in
      let (c, at, covers) =
        open_pipeline-Covers hash content facts options net stages wire some_layers one apart
          opens in
      let (c', at', covers') =
        open_pipeline-Covers hash content facts other net' stages' wire some_layers one apart'
          opens' in
      let same : c' ≡ c = cc (at, at') in
      let held : c.facts ≡ facts = cc (
        read,
        (open_shard-IsOpened lib content
            (spec_of lib around hash content options (all_of 0 facts.layers)) c at).read,
      ) in
      let heads : 0 < c.facts.heads = rw held some_heads in
      let covers_c =
        subst
          (Covers lib laws around (open_pipeline lib around (some hash) content facts other net').1
            stages')
          same covers' in
      rw
        (
          run-opened file hash content facts prompt options net hashed parsed read,
          run-opened file hash content facts prompt other net' hashed parsed read,
          run_opened-outcome prompt options.max_new stages
              (open_pipeline lib around (some hash) content facts options net) opens
              (Covers-all_reported _ stages c covers heads),
          run_opened-outcome prompt options.max_new stages'
              (open_pipeline lib around (some hash) content facts other net') opens'
              (Covers-all_reported _ stages' c covers_c heads),
        )
        (generate-SameOutcome lib laws around prompt options.max_new stages stages' _ _
          (c, covers, covers_c))
