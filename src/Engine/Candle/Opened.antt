-- ===== src/Engine/Candle/Opened.antt =====
-- crates/lattice-engine/src/candle.rs: what a shard that was opened holds, and when one opens.
use package.text.Mathlib.Text as Text
use mathlib.Core.Path.{subst}
use p2p_distributed_inferenc.Prelude.{
  ◌<◌, ◌≡◌, refl, sym, ap, ◌∙◌, inl, inr, true, ◌&&◌, none, some, arith, leb, Bool-cases,
  Option-cases,
}
use p2p_distributed_inferenc.Engine.Dtype.{f32}
use p2p_distributed_inferenc.Engine.Error.{Result, ok, err, Result-cases}
use p2p_distributed_inferenc.Engine.Abi.{ShardSpec}
use p2p_distributed_inferenc.Engine.Facts.{ModelFacts}
use p2p_distributed_inferenc.Engine.Metadata.{read_facts}
use p2p_distributed_inferenc.Engine.Inventory.{Content}
use p2p_distributed_inferenc.Engine.Candle.{Library, CandleShard, shard_weight_bytes, open_shard}
use p2p_distributed_inferenc.Engine.Candle.Composition.{Composes, Joins}

module _ (lib : Library) where
  abbrev made : Content → ShardSpec → ModelFacts → lib.Model → CandleShard lib
  made content spec facts model = record {
    model = model;
    facts = facts;
    spec = spec;
    weight_bytes = shard_weight_bytes content spec facts.layers;
    active = none;
    decodes = 0;
    decode_micros = 0;
  }

  -- The shard is the range of the file that was asked for, and no session has used it.
  pub record IsOpened (content : Content) (spec : ShardSpec) (shard : CandleShard lib)
      : Type 0 where
    pub read : read_facts content.metadata ≡ ok shard.facts
    pub llama : Text.◌==◌ shard.facts.arch "llama" ≡ true
    pub in_model : leb spec.last_layer shard.facts.layers ≡ true
    pub ordered : leb spec.first_layer spec.last_layer ≡ true
    pub loaded : lib.from_gguf content spec.first_layer spec.last_layer ≡ some shard.model
    pub weighed : shard.weight_bytes ≡ shard_weight_bytes content spec shard.facts.layers
    pub as_asked : shard.spec ≡ spec
    pub unused : shard.active ≡ none

  ok-injective : {a b : CandleShard lib} → ◌≡◌ {A = Result (CandleShard lib)} (ok a) (ok b) → a ≡ b
  ok-injective {a = a} h = ap (λ (r : Result (CandleShard lib)). elim r [ ok x ↦ x | err e ↦ a ]) h

  pub open_shard-IsOpened :
      (content : Content) (spec : ShardSpec) (shard : CandleShard lib)
      → open_shard lib content spec ≡ ok shard
      → IsOpened content spec shard
  unfolding open_shard
  open_shard-IsOpened content spec shard h = elim (Result-cases (read_facts content.metadata)) [
    | inr (e, failed) ↦ cc (rw failed at h)
    | inl (facts, e) ↦ elim (Bool-cases (Text.◌==◌ facts.arch "llama")) [
      | inr f ↦ cc (rw (e, f) at h)
      | inl f ↦
          elim (Bool-cases
            (leb spec.last_layer facts.layers && leb spec.first_layer spec.last_layer)) [
              | inr g ↦ cc (rw (e, f, g) at h)
              | inl g ↦
                  elim (Option-cases (lib.from_gguf content spec.first_layer spec.last_layer)) [
                    | inl k ↦ cc (rw (e, f, g, k) at h)
                    | inr (model, k) ↦
                        let found : ok (made content spec facts model) ≡ ok shard =
                          rw (e, f, g, k) at h in
                        let same : made content spec facts model ≡ shard = ok-injective found in
                        subst (IsOpened content spec) same (record {
                          read = e;
                          llama = f;
                          in_model = ground arith;
                          ordered = ground arith;
                          loaded = k;
                          weighed = refl;
                          as_asked = refl;
                          unused = refl;
                        })
                  ]
            ]
    ]
  ]

  pub open_shard_opens :
      (content : Content) (spec : ShardSpec) (facts : ModelFacts) (model : lib.Model)
      → read_facts content.metadata ≡ ok facts
      → Text.◌==◌ facts.arch "llama" ≡ true
      → leb spec.last_layer facts.layers ≡ true
      → leb spec.first_layer spec.last_layer ≡ true
      → lib.from_gguf content spec.first_layer spec.last_layer ≡ some model
      → open_shard lib content spec ≡ ok (made content spec facts model)
  unfolding open_shard
  open_shard_opens content spec facts model e f g k l = rw (e, f, g, k, l) refl

module _ (lib : Library) (laws : Composes lib) where
  -- Two shards of neighbouring ranges open together with the one of both.
  pub open_shard-Joins :
      (content : Content) (first second both : ShardSpec) (s d : CandleShard lib)
      → open_shard lib content first ≡ ok s
      → open_shard lib content second ≡ ok d
      → first.first_layer < first.last_layer
      → second.first_layer < second.last_layer
      → first.last_layer ≡ second.first_layer
      → both.first_layer ≡ first.first_layer
      → both.last_layer ≡ second.last_layer
      → first.wire_dtype ≡ f32
      → second.wire_dtype ≡ both.wire_dtype
      → (c : CandleShard lib) × (open_shard lib content both ≡ ok c) × Joins lib laws s d c
  open_shard-Joins content first second both s d h k below above meets starts ends wire wire' =
      let p = open_shard-IsOpened lib content first s h in
      let q = open_shard-IsOpened lib content second d k in
      let same : s.facts ≡ d.facts = cc (p.read, q.read) in
      let (o, opens, joined) =
        laws.from_gguf-Joined content first.first_layer second.first_layer second.last_layer s.model
          d.model (omega arith) above (rw meets at p.loaded) q.loaded in
      let fits : leb both.last_layer d.facts.layers ≡ true = rw ends q.in_model in
      let in_order : leb both.first_layer both.last_layer ≡ true = ground arith in
      (
        made lib content both d.facts o,
        open_shard_opens lib content both d.facts o q.read q.llama fits in_order (
            ap (λ x. lib.from_gguf content x both.last_layer) starts
            ∙ ap (lib.from_gguf content first.first_layer) ends
            ∙ opens),
        record {
          facts = same;
          facts' = refl;
          first = ap (λ (x : ShardSpec). x.first_layer) p.as_asked ∙ sym starts;
          last = ap (λ (x : ShardSpec). x.last_layer) q.as_asked ∙ sym ends;
          behind_embedding = rw q.as_asked (omega arith);
          before_head = ground (arith, p.as_asked, q.in_model, same);
          wire = ap (λ (x : ShardSpec). x.wire_dtype) p.as_asked ∙ wire;
          wire' = ap (λ (x : ShardSpec). x.wire_dtype) q.as_asked ∙ wire';
          active = p.unused;
          active' = q.unused;
          models = joined;
        },
      )
