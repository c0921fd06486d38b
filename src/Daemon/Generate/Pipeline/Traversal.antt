-- ===== src/Daemon/Generate/Pipeline/Traversal.antt =====
-- crates/latticed/src/generate.rs: a traversal of a chain is a step of the one shard that it covers.
use p2p_distributed_inferenc.Prelude.{ℕ, ◌≡◌, refl, ◌∙◌, inl, inr, Bool, List, [], ◌∷◌}
use p2p_distributed_inferenc.Prelude.Results
use p2p_distributed_inferenc.Prelude.Results.{ok, err, Result-cases}
use p2p_distributed_inferenc.Engine.Error.{Error}
use p2p_distributed_inferenc.Engine.Abi.{Payload}
use p2p_distributed_inferenc.Engine.Candle.{Library, CandleShard}
use p2p_distributed_inferenc.Engine.Candle.Composition.{Composes, Joins, Follows, Follows-fails}
use p2p_distributed_inferenc.Net.Identity.{DeviceId}
use p2p_distributed_inferenc.Daemon.Generate.Pipeline.{
  Surroundings, Result, Network, Stage, here, peer, run_stage, run_stages, call_shard, behind,
  passed_on,
}
use p2p_distributed_inferenc.Daemon.Generate.Pipeline.Covers.{
  Shows, Without, Apart, Covers, Covers-cons,
}
use p2p_distributed_inferenc.Daemon.Generate.Pipeline.Steps.{
  ShownBy, call-Follows, run_stage-Agree, run_stage-Covers, run_stage-Without,
}

module _ (lib : Library) (laws : Composes lib) (around : Surroundings) (prefill : Bool)
    (pos : ℕ) where
  Without-cons :
      (id : DeviceId) (stage : Stage lib) (rest : List (Stage lib))
      → Without lib laws around id (stage ∷ [])
      → Without lib laws around id rest
      → Without lib laws around id (stage ∷ rest)
  Without-cons id (here spec s) rest w v = v
  Without-cons id (peer other) rest (w, _) v = (w, v)

  Without-split :
      (id : DeviceId) (stage : Stage lib) (rest : List (Stage lib))
      → Without lib laws around id (stage ∷ rest)
      → Without lib laws around id (stage ∷ []) × Without lib laws around id rest
  Without-split id (here spec s) rest w = (tt, w)
  Without-split id (peer other) rest (w, v) = ((w, tt), v)

  -- A traversal leaves the devices in their places, and a peer that is no stage alone.
  steps-Without :
      (input : Payload) (stages : List (Stage lib)) (net : Network lib) (id : DeviceId)
      → Without lib laws around id stages
      → Without lib laws around id (run_stages lib around prefill pos input stages net).1
        × ((run_stages lib around prefill pos input stages net).2 id ≡ net id)
  unfolding run_stages
  steps-Without input [] net id w = (tt, refl)
  steps-Without input (stage ∷ rest) net id w =
      let (first, others) = Without-split id stage rest w in
      let (first', same) = run_stage-Without lib laws around prefill pos input stage net id first in
      elim (Result-cases (run_stage lib around prefill pos input stage net).0) [
        | inr (e, failed) ↦ rw failed (Without-cons id _ rest first' others, same)
        | inl (p, e) ↦
            let (others', same') =
              steps-Without p rest (run_stage lib around prefill pos input stage net).2 id others in
            rw e (Without-cons id _ _ first' others', same' ∙ same)
      ]

  steps-Shows :
      (input : Payload) (stage : Stage lib) (stages : List (Stage lib)) (net : Network lib)
      (s : CandleShard lib)
      → Apart lib laws around stage stages
      → Shows lib laws around net stage s
      → Shows lib laws around (run_stages lib around prefill pos input stages net).2 stage s
        × Apart lib laws around stage (run_stages lib around prefill pos input stages net).1
  steps-Shows input (here spec s') stages net s a p = (p, tt)
  steps-Shows input (peer id) stages net s a (s', at, p) =
      let (w, same) = steps-Without input stages net id a in ((s', same ∙ at, p), w)

  -- Both fail, or both yield the same, and the chain covers the shard again.
  abbrev pub CoveredBy :
      Result Payload × List (Stage lib) × Network lib
      → Results.Result Error Payload × CandleShard lib
      → Type 0
  CoveredBy (ok p, stages, net) (ok q, c) = (p ≡ q) × Covers lib laws around net stages c
  CoveredBy (err e, stages, net) (err f, c) = Unit {0}
  CoveredBy _ _ = ⊥

  -- How the rest of a chain goes on behind a stage that yielded `p`.
  behind-CoveredBy :
      (stage : Stage lib) (s d : CandleShard lib)
      (x : Result Payload × List (Stage lib) × Network lib)
      (y whole : Results.Result Error Payload × CandleShard lib)
      → CoveredBy x y
      → Shows lib laws around x.2 stage s
      → Apart lib laws around stage x.1
      → y.0 ≡ whole.0
      → Joins lib laws s y.1 whole.1
      → CoveredBy (behind lib around stage x) whole
  behind-CoveredBy stage s d (ok p, stages, net) (ok q, d') (ok r, c) (same, h) shown apart e j =
      (same ∙ cc, Covers-cons lib laws around net stage stages s d' c shown h j apart)
  behind-CoveredBy stage s d (err e, stages, net) (err f, d') (err g, c) h shown apart k j = tt
  behind-CoveredBy stage s d (err e, stages, net) (err f, d') (ok r, c) h shown apart k j =
      absurd cc
  behind-CoveredBy stage s d (ok p, stages, net) (ok q, d') (err g, c) h shown apart k j = absurd cc
  behind-CoveredBy stage s d (ok p, stages, net) (err f, d') whole h shown apart k j = absurd h
  behind-CoveredBy stage s d (err e, stages, net) (ok q, d') whole h shown apart k j = absurd h

  last-CoveredBy :
      (stage : Stage lib) (x : Result Payload × Stage lib × Network lib)
      (y : Results.Result Error Payload × CandleShard lib)
      → ShownBy lib laws around prefill pos x y
      → CoveredBy (passed_on lib around x.1 [] x.2 x.0 (λ payload. (ok payload, [], x.2))) y
  last-CoveredBy stage (ok p, s, net) (ok q, c) h = h
  last-CoveredBy stage (err e, s, net) (err f, c) h = tt
  last-CoveredBy stage (ok p, s, net) (err f, c) h = absurd h
  last-CoveredBy stage (err e, s, net) (ok q, c) h = absurd h

  -- How a chain goes on behind its first stage, which is at `x` where its shard is at `y`.
  next-CoveredBy :
      (rest : List (Stage lib)) (d : CandleShard lib) (x : Result Payload × Stage lib × Network lib)
      (y whole : Results.Result Error Payload × CandleShard lib)
      (next : Payload → Result Payload × List (Stage lib) × Network lib)
      → ShownBy lib laws around prefill pos x y
      → Follows lib laws (λ p. call_shard lib around prefill pos p d) y whole
      → ((p : Payload) → CoveredBy (next p) (call_shard lib around prefill pos p d))
      → ((p : Payload) (s : CandleShard lib)
          → Shows lib laws around x.2 x.1 s
          → Shows lib laws around (next p).2 x.1 s × Apart lib laws around x.1 (next p).1)
      → CoveredBy (passed_on lib around x.1 rest x.2 x.0 next) whole
  next-CoveredBy rest d (err e, st, net) (err f, s) whole next h follows ih kept =
      let (g, failed) =
        Follows-fails lib laws (λ p. call_shard lib around prefill pos p d) f s whole follows in
      failing whole g failed
    where
      failing :
          (w : Results.Result Error Payload × CandleShard lib) (g : Error)
          → w.0 ≡ err g
          → CoveredBy (err e, st ∷ rest, net) w
      failing (err f, c) g k = tt
      failing (ok q, c) g k = absurd cc
  next-CoveredBy rest d (ok p, st, net) (ok q, s) whole next (same, shown) (e, j) ih kept =
      let (shown', apart) = kept p s shown in
      behind-CoveredBy st s d (next p) (call_shard lib around prefill pos q d) whole
        (rw (← same) (ih p)) shown' apart e j
  next-CoveredBy rest d (ok p, st, net) (err f, s) whole next h follows ih kept = absurd h
  next-CoveredBy rest d (err e, st, net) (ok q, s) whole next h follows ih kept = absurd h

  pub run_stages-CoveredBy :
      (input : Payload) (stages : List (Stage lib)) (net : Network lib) (c : CandleShard lib)
      → Covers lib laws around net stages c
      → CoveredBy
          (run_stages lib around prefill pos input stages net)
          (call_shard lib around prefill pos input c)
  unfolding run_stages
  run_stages-CoveredBy input [] net c h = absurd h
  run_stages-CoveredBy input (stage ∷ []) net c h =
      last-CoveredBy stage (run_stage lib around prefill pos input stage net)
        (call_shard lib around prefill pos input c)
        (run_stage-Agree lib laws around prefill pos input stage net c h)
  run_stages-CoveredBy input (stage ∷ next ∷ rest) net c (s, d, shown, covers, j, apart) =
      let (covers', apart') =
        run_stage-Covers lib laws around prefill pos input stage (next ∷ rest) net d apart covers in
      next-CoveredBy (next ∷ rest) d (run_stage lib around prefill pos input stage net)
        (call_shard lib around prefill pos input s) (call_shard lib around prefill pos input c)
        (λ p.
          run_stages lib around prefill pos p (next ∷ rest)
            (run_stage lib around prefill pos input stage net).2)
        (run_stage-Agree lib laws around prefill pos input stage net s shown)
        (call-Follows lib laws around prefill pos input s d c j)
        (λ p.
          run_stages-CoveredBy p (next ∷ rest) (run_stage lib around prefill pos input stage net).2
            d covers')
        (λ p s' shown'.
          steps-Shows p (run_stage lib around prefill pos input stage net).1 (next ∷ rest)
            (run_stage lib around prefill pos input stage net).2 s' apart' shown')
