-- ===== src/Engine/Candle/Halves.antt =====
-- crates/lattice-engine/src/candle.rs: the calls of a session on two shards that follow each other, and
-- on the one of both their ranges.
use mathlib.Core.Path.{subst}
use p2p_distributed_inferenc.Prelude.{
  ℕ, ◌<◌, ◌≡◌, refl, sym, ap, ◌∙◌, inl, inr, Bool, true, false, not, ◌||◌, some, ◌==◌, Bool-cases,
  if◌then◌else◌,
}
use p2p_distributed_inferenc.Engine.Error.{Result, ok, err}
use p2p_distributed_inferenc.Engine.Abi.{Payload, ShardSpec}
use p2p_distributed_inferenc.Engine.Facts.{ModelFacts}
use p2p_distributed_inferenc.Engine.Candle.{
  Library, CandleShard, is_active, prefill, timed, decode, run,
}
use p2p_distributed_inferenc.Engine.Candle.Composition.{Composes, Joins, Follows, run-Follows}

module _ (lib : Library) (laws : Composes lib) where
  -- The same shard but for how many decodes it counted.
  pub record Same (s t : CandleShard lib) : Type 0 where
    pub facts : s.facts ≡ t.facts
    pub spec : s.spec ≡ t.spec
    pub active : s.active ≡ t.active
    pub model : s.model ≡ t.model

  pub Same-refl : (s : CandleShard lib) → Same s s
  Same-refl s = record { facts = refl; spec = refl; active = refl; model = refl }

  pub Same-sym : {s t : CandleShard lib} → Same s t → Same t s
  Same-sym p = record {
    facts = sym p.facts;
    spec = sym p.spec;
    active = sym p.active;
    model = sym p.model;
  }

  pub Same-trans : {s t u : CandleShard lib} → Same s t → Same t u → Same s u
  Same-trans p q = record {
    facts = p.facts ∙ q.facts;
    spec = p.spec ∙ q.spec;
    active = p.active ∙ q.active;
    model = p.model ∙ q.model;
  }

  pub Joins-Same :
      (s s' d d' c c' : CandleShard lib)
      → Same s s'
      → Same d d'
      → Same c c'
      → Joins lib laws s d c
      → Joins lib laws s' d' c'
  Joins-Same s s' d d' c c' p q r j = record {
    facts = sym p.facts ∙ j.facts ∙ r.facts;
    facts' = sym q.facts ∙ j.facts' ∙ r.facts;
    first =
        ap (λ (x : ShardSpec). x.first_layer) (sym p.spec)
        ∙ j.first
        ∙ ap (λ (x : ShardSpec). x.first_layer) r.spec;
    last =
        ap (λ (x : ShardSpec). x.last_layer) (sym q.spec)
        ∙ j.last
        ∙ ap (λ (x : ShardSpec). x.last_layer) r.spec;
    behind_embedding = subst (λ (x : ShardSpec). 0 < x.first_layer) q.spec j.behind_embedding;
    before_head =
        subst (λ (x : ModelFacts). s'.spec.last_layer < x.layers) p.facts
          (subst (λ (x : ShardSpec). x.last_layer < s.facts.layers) p.spec j.before_head);
    wire = ap (λ (x : ShardSpec). x.wire_dtype) (sym p.spec) ∙ j.wire;
    wire' =
        ap (λ (x : ShardSpec). x.wire_dtype) (sym q.spec)
        ∙ j.wire'
        ∙ ap (λ (x : ShardSpec). x.wire_dtype) r.spec;
    active = sym p.active ∙ j.active ∙ r.active;
    active' = sym q.active ∙ j.active' ∙ r.active;
    models =
        subst (λ m. laws.Joined m d'.model c'.model) p.model
          (subst (λ m. laws.Joined s.model m c'.model) q.model
            (subst (λ m. laws.Joined s.model d.model m) r.model j.models));
  }

  pub timed-Same :
      (micros : ℕ) (r : Result Payload × CandleShard lib) → Same r.1 (timed lib micros r).1
  timed-Same micros (ok p, s) = record { facts = refl; spec = refl; active = refl; model = refl }
  timed-Same micros (err e, s) = Same-refl s

  pub timed_result :
      (micros : ℕ) (r : Result Payload × CandleShard lib) → (timed lib micros r).0 ≡ r.0
  timed_result micros (ok p, s) = refl
  timed_result micros (err e, s) = refl

  timed-Follows :
      (next : Payload → Result Payload × CandleShard lib) (m : Payload → ℕ) (k n : ℕ)
      (first whole : Result Payload × CandleShard lib)
      → Follows lib laws next first whole
      → Follows lib laws (λ p. timed lib (m p) (next p)) (timed lib k first) (timed lib n whole)
  timed-Follows next m k n (ok p, s) whole (same, j) = (
    timed_result (m p) (next p) ∙ same ∙ sym (timed_result n whole),
    Joins-Same s (timed lib k (ok p, s)).1 (next p).1 (timed lib (m p) (next p)).1 whole.1
        (timed lib n whole).1 (timed-Same k (ok p, s)) (timed-Same (m p) (next p))
        (timed-Same n whole) j,
  )
  timed-Follows next m k n (err e, s) (err f, c) h = tt
  timed-Follows next m k n (err e, s) (ok q, c) h = absurd h

  -- What a prefill makes of the shard before it runs it.
  abbrev started : ℕ → ℕ → CandleShard lib → CandleShard lib
  started session pos c =
      if not (is_active lib session c.active) || pos == 0
      then record c { model = lib.clear_kv_cache c.model; active = some session }
      else c

  started-Joins :
      (session pos : ℕ) (s d c : CandleShard lib)
      → Joins lib laws s d c
      → Joins lib laws (started session pos s) (started session pos d) (started session pos c)
  started-Joins session pos s d c j =
      let p : (not (is_active lib session s.active) || pos == 0)
          ≡ (not (is_active lib session c.active) || pos == 0) =
        ap (λ a. not (is_active lib session a) || pos == 0) j.active in
      let q : (not (is_active lib session d.active) || pos == 0)
          ≡ (not (is_active lib session c.active) || pos == 0) =
        ap (λ a. not (is_active lib session a) || pos == 0) j.active' in
      by_test (not (is_active lib session s.active) || pos == 0)
        (not (is_active lib session d.active) || pos == 0)
        (not (is_active lib session c.active) || pos == 0) p q
    where
      fresh : CandleShard lib → Bool → CandleShard lib
      fresh x b =
          if b then record x { model = lib.clear_kv_cache x.model; active = some session } else x

      by_test : (a b e : Bool) → a ≡ e → b ≡ e → Joins lib laws (fresh s a) (fresh d b) (fresh c e)
      by_test true true true p q = record {
        facts = j.facts;
        facts' = j.facts';
        first = j.first;
        last = j.last;
        behind_embedding = j.behind_embedding;
        before_head = j.before_head;
        wire = j.wire;
        wire' = j.wire';
        active = refl;
        active' = refl;
        models = laws.clear-Joined s.model d.model c.model j.models;
      }
      by_test false false false p q = j
      by_test true true false p q = absurd cc
      by_test true false true p q = absurd cc
      by_test true false false p q = absurd cc
      by_test false true true p q = absurd cc
      by_test false true false p q = absurd cc
      by_test false false true p q = absurd cc

  pub prefill-Follows :
      (session pos : ℕ) (input : Payload) (s d c : CandleShard lib)
      → Joins lib laws s d c
      → Follows lib laws
          (λ p. prefill lib session pos p d)
          (prefill lib session pos input s)
          (prefill lib session pos input c)
  unfolding prefill
  prefill-Follows session pos input s d c j =
      run-Follows lib laws (started session pos s) (started session pos d) (started session pos c)
        pos input (started-Joins session pos s d c j)

  pub decode-Follows :
      (m : Payload → ℕ) (k n session pos : ℕ) (input : Payload) (s d c : CandleShard lib)
      → Joins lib laws s d c
      → Follows lib laws
          (λ p. decode lib (m p) session pos p d)
          (decode lib k session pos input s)
          (decode lib n session pos input c)
  unfolding decode
  decode-Follows m k n session pos input s d c j =
      elim (Bool-cases (is_active lib session c.active)) [
        | inl e ↦
            let p : is_active lib session s.active ≡ true =
              ap (is_active lib session) j.active ∙ e in
            let q : is_active lib session d.active ≡ true =
              ap (is_active lib session) j.active' ∙ e in
            simp (p, q, e)
              (timed-Follows (λ p. run lib p pos d) m k n (run lib input pos s)
                (run lib input pos c) (run-Follows lib laws s d c pos input j))
        | inr e ↦
            let p : is_active lib session s.active ≡ false =
              ap (is_active lib session) j.active ∙ e in
            simp (p, e) tt
      ]
