-- ===== src/Engine/Candle/Recounted.antt =====
-- crates/lattice-engine/src/candle.rs: the counters of decodes do not change what a shard answers.
use p2p_distributed_inferenc.Prelude.{
  ℕ, ◌≡◌, refl, sym, ap, ◌∙◌, inl, inr, Bool, true, false, not, ◌||◌, Option, some, ◌==◌,
  Bool-cases, if◌then◌else◌,
}
use p2p_distributed_inferenc.Engine.Error.{Result, ok, err, ◌>>=◌, or_fail, engine, tensor_library}
use p2p_distributed_inferenc.Engine.Abi.{Payload, ShardSpec}
use p2p_distributed_inferenc.Engine.Facts.{ModelFacts}
use p2p_distributed_inferenc.Engine.Candle.{
  Library, CandleShard, tensor_in, owns_embedding, payload_out, forwarded, run_tensor, is_active,
  prefill, decode, run,
}
use p2p_distributed_inferenc.Engine.Candle.Composition.{Composes}
use p2p_distributed_inferenc.Engine.Candle.Halves.{
  Same, Same-sym, Same-trans, timed-Same, timed_result,
}

module _ (lib : Library) (laws : Composes lib) where
  abbrev Twins : Result Payload × CandleShard lib → Result Payload × CandleShard lib → Type 0
  Twins x y = (x.0 ≡ y.0) × Same lib laws x.1 y.1

  outputs :
      (o : Option lib.Tensor) (spec spec' : ShardSpec) (facts facts' : ModelFacts)
      → spec ≡ spec'
      → facts ≡ facts'
      → (or_fail (engine tensor_library) o >>= payload_out lib spec facts)
        ≡ (or_fail (engine tensor_library) o >>= payload_out lib spec' facts')
  outputs o spec spec' facts facts' e f = rw (e, f) refl

  forwarded-Twins :
      (s t : CandleShard lib) (x y : Option lib.Tensor × lib.Model)
      → Same lib laws s t
      → x ≡ y
      → Twins (forwarded lib s x) (forwarded lib t y)
  forwarded-Twins s t x y p e = (
    ap
          (λ (z : Option lib.Tensor × lib.Model).
            or_fail (engine tensor_library) z.0 >>= payload_out lib s.spec s.facts)
          e
        ∙ outputs y.0 s.spec t.spec s.facts t.facts p.spec p.facts,
    record {
      facts = p.facts;
      spec = p.spec;
      active = p.active;
      model = ap (λ (z : Option lib.Tensor × lib.Model). z.1) e;
    },
  )

  run_tensor-Twins :
      (s t : CandleShard lib) (pos : ℕ) (x y : Result lib.Tensor)
      → Same lib laws s t
      → x ≡ y
      → Twins (run_tensor lib s pos x) (run_tensor lib t pos y)
  run_tensor-Twins s t pos (err e) (err f) p h = (cc, p)
  run_tensor-Twins s t pos (err e) (ok y) p h = absurd cc
  run_tensor-Twins s t pos (ok x) (err f) p h = absurd cc
  run_tensor-Twins s t pos (ok x) (ok y) p h =
      let e : x ≡ y = cc in
      forwarded-Twins s t (lib.forward s.model x pos) (lib.forward t.model y pos) p
        (ap (λ m. lib.forward m x pos) p.model ∙ ap (λ z. lib.forward t.model z pos) e)

  run-Twins :
      (s t : CandleShard lib) (pos : ℕ) (input : Payload)
      → Same lib laws s t
      → Twins (run lib input pos s) (run lib input pos t)
  unfolding run
  run-Twins s t pos input p =
      run_tensor-Twins s t pos (tensor_in lib s.spec input (owns_embedding lib s.spec))
        (tensor_in lib t.spec input (owns_embedding lib t.spec)) p
        (ap (λ (spec : ShardSpec). tensor_in lib spec input (owns_embedding lib spec)) p.spec)

  fresh : ℕ → CandleShard lib → Bool → CandleShard lib
  fresh session x b =
      if b then record x { model = lib.clear_kv_cache x.model; active = some session } else x

  fresh-Same :
      (session : ℕ) (s t : CandleShard lib) (a b : Bool)
      → Same lib laws s t
      → a ≡ b
      → Same lib laws (fresh session s a) (fresh session t b)
  unfolding fresh
  fresh-Same session s t true true p e = record {
    facts = p.facts;
    spec = p.spec;
    active = refl;
    model = ap lib.clear_kv_cache p.model;
  }
  fresh-Same session s t false false p e = p
  fresh-Same session s t true false p e = absurd cc
  fresh-Same session s t false true p e = absurd cc

  pub prefill-Same :
      (session pos : ℕ) (input : Payload) (s t : CandleShard lib)
      → Same lib laws s t
      → ((prefill lib session pos input s).0 ≡ (prefill lib session pos input t).0)
        × Same lib laws (prefill lib session pos input s).1 (prefill lib session pos input t).1
  unfolding prefill fresh
  prefill-Same session pos input s t p =
      run-Twins (fresh session s (not (is_active lib session s.active) || pos == 0))
        (fresh session t (not (is_active lib session t.active) || pos == 0)) pos input
        (fresh-Same session s t (not (is_active lib session s.active) || pos == 0)
          (not (is_active lib session t.active) || pos == 0) p
          (ap (λ a. not (is_active lib session a) || pos == 0) p.active))

  pub decode-Same :
      (m n session pos : ℕ) (input : Payload) (s t : CandleShard lib)
      → Same lib laws s t
      → ((decode lib m session pos input s).0 ≡ (decode lib n session pos input t).0)
        × Same lib laws (decode lib m session pos input s).1 (decode lib n session pos input t).1
  unfolding decode
  decode-Same m n session pos input s t p = elim (Bool-cases (is_active lib session t.active)) [
    | inl e ↦
        let f : is_active lib session s.active ≡ true = ap (is_active lib session) p.active ∙ e in
        let (same, after) = run-Twins s t pos input p in
        simp (e, f)
          (
            timed_result lib laws m (run lib input pos s)
                ∙ same
                ∙ sym (timed_result lib laws n (run lib input pos t)),
            Same-trans lib laws (Same-sym lib laws (timed-Same lib laws m (run lib input pos s)))
                (Same-trans lib laws after (timed-Same lib laws n (run lib input pos t))),
          )
    | inr e ↦
        let f : is_active lib session s.active ≡ false = ap (is_active lib session) p.active ∙ e in
        simp (e, f) (refl, p)
  ]
