-- ===== src/Daemon/Generate/Decoding/Whole.antt =====
-- crates/latticed/src/generate.rs: what a chain generates does not depend on where its layers run.
use p2p_distributed_inferenc.Prelude.{
  ℕ, zero, suc, ◌+◌, ◌-◌, ◌%◌, ◌^◌, ◌≡◌, refl, sym, ap, ◌∙◌, inl, inr, Bool, true, false, List, [],
  ◌∷◌, length,
}
use p2p_distributed_inferenc.Prelude.Results
use p2p_distributed_inferenc.Prelude.Results.{ok, err, ◌>>=◌, Result-cases}
use p2p_distributed_inferenc.Engine.Error.{Error}
use p2p_distributed_inferenc.Engine.Abi.{Payload, tokens}
use p2p_distributed_inferenc.Engine.Candle.{Library, CandleShard}
use p2p_distributed_inferenc.Engine.Candle.Composition.{Composes}
use p2p_distributed_inferenc.Daemon.Generate.Pipeline.{
  Surroundings, Result, Network, Stage, call_shard, run_stages,
}
use p2p_distributed_inferenc.Daemon.Generate.Decoding.{
  argmax, sampled_on, out_after, decode_from, generate,
}
use p2p_distributed_inferenc.Daemon.Generate.Pipeline.Covers.{Covers}
use p2p_distributed_inferenc.Daemon.Generate.Pipeline.Traversal.{CoveredBy, run_stages-CoveredBy}

-- Both fail, or both yield the same.
abbrev pub SameOutcome : {A : Type 0} → Result A → Result A → Type 0
SameOutcome (ok a) (ok b) = a ≡ b
SameOutcome (err e) (err f) = Unit {0}
SameOutcome _ _ = ⊥

module _ (lib : Library) (laws : Composes lib) (around : Surroundings) where
  -- Both chains cover one shard.
  abbrev pub Both : List (Stage lib) → Network lib → List (Stage lib) → Network lib → Type 0
  Both stages net stages' net' =
      (c : CandleShard lib) × Covers lib laws around net stages c
      × Covers lib laws around net' stages' c

  -- A step on both: it fails on both, or yields the same and leaves them covering one shard.
  abbrev SameStep :
      Result Payload × List (Stage lib) × Network lib
      → Result Payload × List (Stage lib) × Network lib
      → Type 0
  SameStep (ok p, stages, net) (ok q, stages', net') = (p ≡ q) × Both stages net stages' net'
  SameStep (err e, stages, net) (err f, stages', net') = Unit {0}
  SameStep _ _ = ⊥

  CoveredBy-SameStep :
      (prefill : Bool) (pos : ℕ) (x x' : Result Payload × List (Stage lib) × Network lib)
      (y : Results.Result Error Payload × CandleShard lib)
      → CoveredBy lib laws around prefill pos x y
      → CoveredBy lib laws around prefill pos x' y
      → SameStep x x'
  CoveredBy-SameStep prefill pos (ok p, s, n) (ok q, s', n') (ok r, c) (e, h) (e', h') =
      (e ∙ sym e', (c, h, h'))
  CoveredBy-SameStep prefill pos (err e, s, n) (err f, s', n') (err g, c) h h' = tt
  CoveredBy-SameStep prefill pos (ok p, s, n) x' (err g, c) h h' = absurd h
  CoveredBy-SameStep prefill pos (err e, s, n) x' (ok r, c) h h' = absurd h
  CoveredBy-SameStep prefill pos (ok p, s, n) (err f, s', n') (ok r, c) h h' = absurd h'
  CoveredBy-SameStep prefill pos (err e, s, n) (ok q, s', n') (err g, c) h h' = absurd h'

  run_stages-SameStep :
      (prefill : Bool) (pos : ℕ) (input : Payload) (stages stages' : List (Stage lib))
      (net net' : Network lib)
      → Both stages net stages' net'
      → SameStep
          (run_stages lib around prefill pos input stages net)
          (run_stages lib around prefill pos input stages' net')
  run_stages-SameStep prefill pos input stages stages' net net' (c, h, h') =
      CoveredBy-SameStep prefill pos (run_stages lib around prefill pos input stages net)
        (run_stages lib around prefill pos input stages' net')
        (call_shard lib around prefill pos input c)
        (run_stages-CoveredBy lib laws around prefill pos input stages net c h)
        (run_stages-CoveredBy lib laws around prefill pos input stages' net' c h')

  -- Sampling after such a step, and going on, by `next` on one chain and by `next'` on the other.
  sampled_on-SameOutcome :
      (x x' : Result Payload × List (Stage lib) × Network lib)
      (next next' : ℕ
        → List (Stage lib)
        → Network lib
        → Result (List ℕ) × List (Stage lib) × Network lib)
      → SameStep x x'
      → ((token : ℕ) (s s' : List (Stage lib)) (n n' : Network lib)
          → Both s n s' n'
          → SameOutcome (next token s n).0 (next' token s' n').0)
      → SameOutcome
          (sampled_on lib around x.1 x.2 (x.0 >>= argmax) (λ token. next token x.1 x.2)).0
          (sampled_on lib around x'.1 x'.2 (x'.0 >>= argmax) (λ token. next' token x'.1 x'.2)).0
  sampled_on-SameOutcome (err e, s, n) (err f, s', n') next next' h go = tt
  sampled_on-SameOutcome (ok p, s, n) (err f, s', n') next next' h go = absurd h
  sampled_on-SameOutcome (err e, s, n) (ok q, s', n') next next' h go = absurd h
  sampled_on-SameOutcome (ok p, s, n) (ok q, s', n') next next' (same, both) go =
      elim (Result-cases (argmax p)) [
        | inr (e, failed) ↦ rw (← same, failed) tt
        | inl (token, e) ↦
            rw (← same, e)
              (prepended token (next token s n) (next' token s' n') (go token s s' n n' both))
      ]
    where
      prepended :
          (token : ℕ) (r r' : Result (List ℕ) × List (Stage lib) × Network lib)
          → SameOutcome r.0 r'.0
          → SameOutcome (out_after lib around token r).0 (out_after lib around token r').0
      prepended token (ok a, s, n) (ok b, s', n') h = ap (λ l. token ∷ l) h
      prepended token (err e, s, n) (err f, s', n') h = tt
      prepended token (ok a, s, n) (err f, s', n') h = absurd h
      prepended token (err e, s, n) (ok b, s', n') h = absurd h

  decode_from-SameOutcome :
      (count step len next : ℕ) (stages stages' : List (Stage lib)) (net net' : Network lib)
      → Both stages net stages' net'
      → SameOutcome
          (decode_from lib around count step len next stages net).0
          (decode_from lib around count step len next stages' net').0
  unfolding decode_from
  decode_from-SameOutcome zero step len next stages stages' net net' both = refl
  decode_from-SameOutcome (suc count) step len next stages stages' net net' both =
      sampled_on-SameOutcome
        (run_stages lib around false ((len % 2 ^ 32 + step) % 2 ^ 32) (tokens (next ∷ [])) stages
          net)
        (run_stages lib around false ((len % 2 ^ 32 + step) % 2 ^ 32) (tokens (next ∷ [])) stages'
          net')
        (decode_from lib around count (step + 1) len) (decode_from lib around count (step + 1) len)
        (run_stages-SameStep false ((len % 2 ^ 32 + step) % 2 ^ 32) (tokens (next ∷ [])) stages
          stages' net net' both)
        (λ token s s' n n' b. decode_from-SameOutcome count (step + 1) len token s s' n n' b)

  pub generate-SameOutcome :
      (prompt : List ℕ) (max_new : ℕ) (stages stages' : List (Stage lib)) (net net' : Network lib)
      → Both stages net stages' net'
      → SameOutcome
          (generate lib around prompt max_new stages net).0
          (generate lib around prompt max_new stages' net').0
  unfolding generate
  generate-SameOutcome prompt max_new stages stages' net net' both =
      sampled_on-SameOutcome (run_stages lib around true 0 (tokens prompt) stages net)
        (run_stages lib around true 0 (tokens prompt) stages' net')
        (decode_from lib around (max_new - 1) 0 (length prompt))
        (decode_from lib around (max_new - 1) 0 (length prompt))
        (run_stages-SameStep true 0 (tokens prompt) stages stages' net net' both)
        (λ token s s' n n' b.
          decode_from-SameOutcome (max_new - 1) 0 (length prompt) token s s' n n' b)
