-- ===== src/Engine/Candle/Composition.antt =====
-- crates/lattice-engine/src/candle.rs: two shards that follow each other, and the one of both their
-- ranges.
use p2p_distributed_inferenc.Prelude.{
  ℕ, ◌*◌, ◌^◌, ◌<◌, ◌≡◌, refl, ap, ◌∙◌, inl, inr, Bool, true, false, Option, none, some, List,
  arith, length, All, ◌==◌, Option-cases,
}
use p2p_distributed_inferenc.Engine.Dtype.{f32}
use p2p_distributed_inferenc.Engine.Error.{
  Error, Result, ok, err, ◌>>=◌, or_fail, engine, tensor_library,
}
use p2p_distributed_inferenc.Engine.Abi.{Activation, Payload, tokens, hidden, logits, ShardSpec}
use p2p_distributed_inferenc.Engine.Facts.{ModelFacts}
use p2p_distributed_inferenc.Engine.Inventory.{Content}
use p2p_distributed_inferenc.Engine.Candle.{
  Library, CandleShard, to_tensor, tensor_in, owns_embedding, owns_head, payload_out, forwarded,
  run_tensor, run,
}
use p2p_distributed_inferenc.Engine.Candle.Boundary.{to_tensor-from_tensor}

-- The values of hidden states fill their shape, and are all that there is to them.
pub record IsHidden (lib : Library) (y : lib.Tensor) : Type 0 where
  pub n_tokens : ℕ
  pub hidden_dim : ℕ
  pub values : List ℕ
  pub dims : lib.dims3 y ≡ some (1, n_tokens, hidden_dim)
  pub flat : lib.f32_values y ≡ some values
  pub full : length values ≡ n_tokens * hidden_dim
  pub words : All (λ v. v < 2 ^ 32) values
  pub n_tokens_lt : n_tokens < 2 ^ 32
  pub hidden_dim_lt : hidden_dim < 2 ^ 32
  pub size_lt : n_tokens * hidden_dim * 4 < 2 ^ 64
  pub rebuilt : lib.from_vec values (1, n_tokens, hidden_dim) ≡ some y

-- What the layer stack is: a range of layers runs as its two halves do one after the other, each half
-- on its own caches. The second half starts behind the embedding, and the first one ends before the
-- output.
pub record Composes (lib : Library) : Type 1 where
  pub Joined : lib.Model → lib.Model → lib.Model → Type 0
  pub from_gguf-Joined :
      (content : Content) (a b c : ℕ) (m n : lib.Model)
      → a < b
      → b < c
      → lib.from_gguf content a b ≡ some m
      → lib.from_gguf content b c ≡ some n
      → (o : lib.Model) × (lib.from_gguf content a c ≡ some o) × Joined m n o
  pub clear-Joined :
      (m n o : lib.Model)
      → Joined m n o
      → Joined (lib.clear_kv_cache m) (lib.clear_kv_cache n) (lib.clear_kv_cache o)
  pub forward-Joined :
      (m n o : lib.Model) (x y : lib.Tensor) (pos : ℕ)
      → Joined m n o
      → (lib.forward m x pos).0 ≡ some y
      → IsHidden lib y
        × ((lib.forward o x pos).0 ≡ (lib.forward n y pos).0)
        × Joined (lib.forward m x pos).1 (lib.forward n y pos).1 (lib.forward o x pos).1
  pub forward_fails :
      (m n o : lib.Model) (x : lib.Tensor) (pos : ℕ)
      → Joined m n o
      → (lib.forward m x pos).0 ≡ none
      → (lib.forward o x pos).0 ≡ none

module _ (lib : Library) (laws : Composes lib) where
  open laws use {Joined}

  -- The shards `s` and `d` hold the two halves of the layers of `c`, in the same session, and the hidden
  -- states between them cross as f32.
  pub record Joins (s d c : CandleShard lib) : Type 0 where
    pub facts : s.facts ≡ c.facts
    pub facts' : d.facts ≡ c.facts
    pub first : s.spec.first_layer ≡ c.spec.first_layer
    pub last : d.spec.last_layer ≡ c.spec.last_layer
    pub behind_embedding : 0 < d.spec.first_layer
    pub before_head : s.spec.last_layer < s.facts.layers
    pub wire : s.spec.wire_dtype ≡ f32
    pub wire' : d.spec.wire_dtype ≡ c.spec.wire_dtype
    pub active : s.active ≡ c.active
    pub active' : d.active ≡ c.active
    pub models : Joined s.model d.model c.model

  -- Both fail, or both yield the same.
  abbrev SameResult : {A : Type 0} → Result A → Result A → Type 0
  SameResult (ok a) (ok b) = a ≡ b
  SameResult (err e) (err f) = Unit {0}
  SameResult _ _ = ⊥

  SameResult-refl : {A : Type 0} (r : Result A) → SameResult r r
  SameResult-refl (ok a) = refl
  SameResult-refl (err e) = tt

  tensor_in-SameResult :
      (spec spec' : ShardSpec) (input : Payload) (b c : Bool)
      → b ≡ c
      → SameResult (tensor_in lib spec input b) (tensor_in lib spec' input c)
  unfolding tensor_in
  tensor_in-SameResult spec spec' (tokens ids) true true e =
      SameResult-refl (or_fail (engine tensor_library) (lib.of_tokens ids))
  tensor_in-SameResult spec spec' (tokens ids) false false e = tt
  tensor_in-SameResult spec spec' (hidden a) true true e = tt
  tensor_in-SameResult spec spec' (hidden a) false false e = SameResult-refl (to_tensor lib a)
  tensor_in-SameResult spec spec' (logits l) true true e = tt
  tensor_in-SameResult spec spec' (logits l) false false e = tt
  tensor_in-SameResult spec spec' input true false e = absurd cc
  tensor_in-SameResult spec spec' input false true e = absurd cc

  -- What a hidden state becomes at the boundary, and on the other side of it.
  crosses :
      (s : CandleShard lib) (y : lib.Tensor)
      → s.spec.last_layer < s.facts.layers
      → s.spec.wire_dtype ≡ f32
      → IsHidden lib y
      → (a : Activation) × (payload_out lib s.spec s.facts y ≡ ok (hidden a))
        × (to_tensor lib a ≡ ok y)
  unfolding payload_out owns_head
  crosses s y before wire h =
      let (a, leaves, enters) =
        to_tensor-from_tensor lib y 1 h.n_tokens h.hidden_dim h.values h.dims h.flat h.full h.words
          h.n_tokens_lt h.hidden_dim_lt h.size_lt in
      let headless : (s.spec.last_layer == s.facts.layers) ≡ false = ground arith in
      (a, rw (headless, wire, leaves) refl, enters ∙ rw h.rebuilt refl)

  payload_out-same :
      (spec spec' : ShardSpec) (facts facts' : ModelFacts) (y : lib.Tensor)
      → spec.last_layer ≡ spec'.last_layer
      → spec.wire_dtype ≡ spec'.wire_dtype
      → facts ≡ facts'
      → payload_out lib spec facts y ≡ payload_out lib spec' facts' y
  unfolding payload_out owns_head
  payload_out-same spec spec' facts facts' y last wire same = rw (last, wire, same) refl

  bound-same :
      (d c : CandleShard lib) (o : Option lib.Tensor)
      → d.spec.last_layer ≡ c.spec.last_layer
      → d.spec.wire_dtype ≡ c.spec.wire_dtype
      → d.facts ≡ c.facts
      → (or_fail (engine tensor_library) o >>= payload_out lib d.spec d.facts)
        ≡ (or_fail (engine tensor_library) o >>= payload_out lib c.spec c.facts)
  bound-same d c none last wire same = refl
  bound-same d c (some y) last wire same =
      payload_out-same d.spec c.spec d.facts c.facts y last wire same

  run-hidden :
      (d : CandleShard lib) (a : Activation) (y : lib.Tensor) (pos : ℕ)
      → 0 < d.spec.first_layer
      → to_tensor lib a ≡ ok y
      → run lib (hidden a) pos d ≡ forwarded lib d (lib.forward d.model y pos)
  unfolding run tensor_in owns_embedding
  run-hidden d a y pos behind enters =
      let inner : (d.spec.first_layer == 0) ≡ false = ground arith in rw (inner, enters) refl

  -- What the first half yields, the second one turns into what the whole yields, by `next`.
  abbrev pub Follows :
      (Payload → Result Payload × CandleShard lib)
      → Result Payload × CandleShard lib
      → Result Payload × CandleShard lib
      → Type 0
  Follows next (ok p, s) whole = ((next p).0 ≡ whole.0) × Joins s (next p).1 whole.1
  Follows next (err e, s) (err f, c) = Unit {0}
  Follows next (err e, s) (ok q, c) = ⊥

  pub Follows-fails :
      (next : Payload → Result Payload × CandleShard lib) (e : Error) (s : CandleShard lib)
      (whole : Result Payload × CandleShard lib)
      → Follows next (err e, s) whole
      → (f : Error) × (whole.0 ≡ err f)
  Follows-fails next e s (err f, c) h = (f, refl)
  Follows-fails next e s (ok q, c) h = absurd h

  forwarded-Follows :
      (s d c : CandleShard lib) (pos : ℕ) (x : lib.Tensor)
      → Joins s d c
      → Follows
          (λ p. run lib p pos d)
          (forwarded lib s (lib.forward s.model x pos))
          (forwarded lib c (lib.forward c.model x pos))
  forwarded-Follows s d c pos x j = elim (Option-cases (lib.forward s.model x pos).0) [
    | inl failed ↦
        let fails = laws.forward_fails s.model d.model c.model x pos j.models failed in
        rw (failed, fails) tt
    | inr (y, e) ↦
        let (h, same, joined) = laws.forward-Joined s.model d.model c.model x y pos j.models e in
        let (a, leaves, enters) = crosses s y j.before_head j.wire h in
        let runs = run-hidden d a y pos j.behind_embedding enters in
        rw (e, leaves, runs)
          (
            rw same (bound-same d c (lib.forward d.model y pos).0 j.last j.wire' j.facts'),
            record {
              facts = j.facts;
              facts' = j.facts';
              first = j.first;
              last = j.last;
              behind_embedding = j.behind_embedding;
              before_head = j.before_head;
              wire = j.wire;
              wire' = j.wire';
              active = j.active;
              active' = j.active';
              models = joined;
            },
          )
  ]

  run_tensor-Follows :
      (s d c : CandleShard lib) (pos : ℕ) (x y : Result lib.Tensor)
      → Joins s d c
      → SameResult x y
      → Follows (λ p. run lib p pos d) (run_tensor lib s pos x) (run_tensor lib c pos y)
  run_tensor-Follows s d c pos (err e) (err f) j h = tt
  run_tensor-Follows s d c pos (err e) (ok y) j h = absurd h
  run_tensor-Follows s d c pos (ok x) (err f) j h = absurd h
  run_tensor-Follows s d c pos (ok x) (ok y) j h = rw (← h) (forwarded-Follows s d c pos x j)

  pub run-Follows :
      (s d c : CandleShard lib) (pos : ℕ) (input : Payload)
      → Joins s d c
      → Follows (λ p. run lib p pos d) (run lib input pos s) (run lib input pos c)
  unfolding run owns_embedding
  run-Follows s d c pos input j =
      run_tensor-Follows s d c pos (tensor_in lib s.spec input (s.spec.first_layer == 0))
        (tensor_in lib c.spec input (c.spec.first_layer == 0)) j
        (tensor_in-SameResult s.spec c.spec input (s.spec.first_layer == 0)
          (c.spec.first_layer == 0) (ap (λ n. n == 0) j.first))
