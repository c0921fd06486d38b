-- ===== src/Daemon/Generate/Pipeline/Tiled.antt =====
-- crates/latticed/src/generate.rs: a chain that was opened on a tiling covers the one shard of all layers.
use Prim.Native.String.{String}
use mathlib.Core.Path.{subst}
use p2p_distributed_inferenc.Prelude.{ℕ, ◌<◌, ◌≡◌, refl, sym, ap, ◌∙◌, List, [], ◌∷◌, arith}
use p2p_distributed_inferenc.Prelude.Results.{ok}
use p2p_distributed_inferenc.Engine.Dtype.{f32}
use p2p_distributed_inferenc.Engine.Error
use p2p_distributed_inferenc.Engine.Inventory.{Content}
use p2p_distributed_inferenc.Engine.Candle.{Library, CandleShard, open_shard}
use p2p_distributed_inferenc.Engine.Candle.Composition.{Composes}
use p2p_distributed_inferenc.Engine.Candle.Opened.{open_shard-Joins}
use p2p_distributed_inferenc.Daemon.Generate.{Host, Placement, tiled, check_from}
use p2p_distributed_inferenc.Daemon.Generate.Pipeline.{
  Options, Surroundings, Network, Stage, spec_of, open_stage, open_stages,
}
use p2p_distributed_inferenc.Daemon.Generate.Pipeline.Covers.{Covers, Covers-cons}
use p2p_distributed_inferenc.Daemon.Generate.Pipeline.Opening.{
  OnePerPeer, SameFile, opened_on-ok, open_stage-Shows, open_stages-Shows,
}

-- The placement of a whole range of layers on the device itself.
abbrev pub all_of : ℕ → ℕ → Placement
all_of first last = record { first_layer = first; last_layer = last; host = Host.here }

pub check_from_first :
    (layers next : ℕ) (place : Placement) (places : List Placement)
    → check_from layers next (place ∷ places) ≡ tiled
    → (place.first_layer ≡ next)
      × (place.first_layer < place.last_layer)
      × (check_from layers place.last_layer places ≡ tiled)
unfolding check_from
check_from_first layers next place places h = (ground arith, ground arith, ground arith)

pub check_from_last : (layers next : ℕ) → check_from layers next [] ≡ tiled → next ≡ layers
unfolding check_from
check_from_last layers next h = ground arith

module _ (lib : Library) (laws : Composes lib) (around : Surroundings) (hash : String)
    (content : Content) (options : Options) where
  -- The shard of the layers `first` to `last`, as a chain with these options would open it.
  abbrev pub range_shard : ℕ → ℕ → Error.Result (CandleShard lib)
  range_shard first last =
      open_shard lib content (spec_of lib around hash content options (all_of first last))

  place_range :
      (place : Placement) (first last : ℕ)
      → place.first_layer ≡ first
      → place.last_layer ≡ last
      → spec_of lib around hash content options place
        ≡ spec_of lib around hash content options (all_of first last)
  place_range place first last e f = rw (e, f) refl

  pub open_stages-Covers :
      (layers next : ℕ) (place : Placement) (places : List Placement) (net : Network lib)
      (stages : List (Stage lib))
      → options.wire_dtype ≡ f32
      → SameFile hash content around.models
      → OnePerPeer (place ∷ places)
      → check_from layers next (place ∷ places) ≡ tiled
      → (open_stages lib around hash content options (place ∷ places) net).0 ≡ ok stages
      → (c : CandleShard lib) × (range_shard next layers ≡ ok c)
        × Covers lib laws around
            (open_stages lib around hash content options (place ∷ places) net).1
            stages
            c
        × (next < layers)
  unfolding open_stages
  open_stages-Covers layers next place [] net stages wire one apart tiles h =
      let (starts, range, rest) = check_from_first layers next place [] tiles in
      let ends = check_from_last layers place.last_layer rest in
      let opened =
        open_stage lib around hash content options (spec_of lib around hash content options place)
          place.host net in
      let (stage, others, e, none_left, whole, after) =
        opened_on-ok lib laws around hash content options opened.1 opened.0 (ok [], opened.1) stages
          h in
      let (s, opens, shows, k) =
        open_stage-Shows lib laws around hash content options
          (spec_of lib around hash content options place) place.host net stage one refl e in
      let single : (stage ∷ []) ≡ stages = cc in
      (
        s,
        ap (open_shard lib content) (sym (place_range place next layers starts ends)) ∙ opens,
        subst (λ n. Covers lib laws around n stages s) (sym after)
            (subst (λ l. Covers lib laws around opened.1 l s) single shows),
        omega arith,
      )
  open_stages-Covers layers next place (second ∷ places) net stages wire one (apart, aparts) tiles
        h =
      let (starts, range, rest) = check_from_first layers next place (second ∷ places) tiles in
      let opened =
        open_stage lib around hash content options (spec_of lib around hash content options place)
          place.host net in
      let (stage, others, e, opens_rest, whole, after) =
        opened_on-ok lib laws around hash content options opened.1 opened.0
          (open_stages lib around hash content options (second ∷ places) opened.1) stages h in
      let (s, opens, shows, k) =
        open_stage-Shows lib laws around hash content options
          (spec_of lib around hash content options place) place.host net stage one refl e in
      let (d, opens_d, covers, above) =
        open_stages-Covers layers place.last_layer second places opened.1 others wire one aparts
          rest opens_rest in
      let (shows', apart') =
        open_stages-Shows lib laws around hash content options place.host stage (second ∷ places)
          others opened.1 s one k apart opens_rest shows in
      let (c, opens_c, joins) =
        open_shard-Joins lib laws content (spec_of lib around hash content options place)
          (spec_of lib around hash content options (all_of place.last_layer layers))
          (spec_of lib around hash content options (all_of next layers)) s d opens opens_d range
          above refl (sym starts) refl wire refl in
      (
        c,
        opens_c,
        subst (λ n. Covers lib laws around n stages c) (sym after)
            (subst
              (λ l.
                Covers lib laws around
                  (open_stages lib around hash content options (second ∷ places) opened.1).1 l c)
              (sym whole)
              (Covers-cons lib laws around _ stage others s d c shows' covers joins apart')),
        omega arith,
      )
