-- ===== src/Daemon/Generate/Pipeline/Steps.antt =====
-- crates/latticed/src/generate.rs: a traversal of a chain is a step of the one shard that it covers.
use p2p_distributed_inferenc.Prelude.{
  ℕ, ◌≡◌, refl, inl, inr, Bool, true, false, some, List, [], ◌∷◌, Option-cases,
}
use p2p_distributed_inferenc.Prelude.Results
use p2p_distributed_inferenc.Prelude.Results.{ok, err, map_err, Result-cases}
use p2p_distributed_inferenc.Engine.Error.{Error}
use p2p_distributed_inferenc.Engine.Abi.{Payload}
use p2p_distributed_inferenc.Engine.Candle.{Library, CandleShard}
use p2p_distributed_inferenc.Engine.Candle.Composition.{Composes, Joins, Follows}
use p2p_distributed_inferenc.Engine.Candle.Halves.{Same, prefill-Follows, decode-Follows}
use p2p_distributed_inferenc.Engine.Candle.Recounted.{prefill-Same, decode-Same}
use p2p_distributed_inferenc.Net.Identity.{DeviceId}
use p2p_distributed_inferenc.Daemon.Node.Shard.{holding, run_job, run_step}
use p2p_distributed_inferenc.Daemon.Generate.Pipeline.{
  Surroundings, Result, Fault, running, shard_on, one_session, same_id, step_of, Network, put,
  Stage, here, peer, call_shard, ran_there, run_stage,
}
use p2p_distributed_inferenc.Daemon.Generate.Pipeline.Covers.{
  same_id_refl, Shows, Without, Apart, Covers, Covers-put, put_other,
}

module _ (lib : Library) (laws : Composes lib) (around : Surroundings) (prefill : Bool)
    (pos : ℕ) where
  -- Both fail, or both yield the same, and the stage shows the shard again.
  abbrev pub ShownBy :
      Result Payload × Stage lib × Network lib
      → Results.Result Error Payload × CandleShard lib
      → Type 0
  ShownBy (ok p, stage, net) (ok q, c) = (p ≡ q) × Shows lib laws around net stage c
  ShownBy (err e, stage, net) (err f, c) = Unit {0}
  ShownBy _ _ = ⊥

  call-Same :
      (input : Payload) (s d : CandleShard lib)
      → Same lib laws s d
      → ((call_shard lib around prefill pos input s).0
          ≡ (call_shard lib around prefill pos input d).0)
        × Same lib laws
            (call_shard lib around prefill pos input s).1
            (call_shard lib around prefill pos input d).1
  call-Same = by_kind prefill
    where
      by_kind :
          (b : Bool) (input : Payload) (s d : CandleShard lib)
          → Same lib laws s d
          → ((call_shard lib around b pos input s).0 ≡ (call_shard lib around b pos input d).0)
            × Same lib laws
                (call_shard lib around b pos input s).1
                (call_shard lib around b pos input d).1
      by_kind true input s d p = prefill-Same lib laws one_session pos input s d p
      by_kind false input s d p =
          decode-Same lib laws (around.elapsed one_session (step_of false pos input))
            (around.elapsed one_session (step_of false pos input)) one_session pos input s d p

  pub call-Follows :
      (input : Payload) (s d c : CandleShard lib)
      → Joins lib laws s d c
      → Follows lib laws
          (λ p. call_shard lib around prefill pos p d)
          (call_shard lib around prefill pos input s)
          (call_shard lib around prefill pos input c)
  call-Follows = by_kind prefill
    where
      by_kind :
          (b : Bool) (input : Payload) (s d c : CandleShard lib)
          → Joins lib laws s d c
          → Follows lib laws
              (λ p. call_shard lib around b pos p d)
              (call_shard lib around b pos input s)
              (call_shard lib around b pos input c)
      by_kind true input s d c j = prefill-Follows lib laws one_session pos input s d c j
      by_kind false input s d c j =
          decode-Follows lib laws (λ p. around.elapsed one_session (step_of false pos p))
            (around.elapsed one_session (step_of false pos input))
            (around.elapsed one_session (step_of false pos input)) one_session pos input s d c j

  shown_by :
      (stage : Stage lib) (net : Network lib) (f : Error → Fault)
      (r r' : Results.Result Error Payload) (c : CandleShard lib)
      → r ≡ r'
      → Shows lib laws around net stage c
      → ShownBy (map_err f r, stage, net) (r', c)
  shown_by stage net f (ok a) (ok b) c e p = (cc, p)
  shown_by stage net f (err a) (err b) c e p = tt
  shown_by stage net f (ok a) (err b) c e p = absurd cc
  shown_by stage net f (err a) (ok b) c e p = absurd cc

  run_job-call_shard :
      (input : Payload) (s : CandleShard lib)
      → run_job lib around.display around.elapsed one_session
          (step_of prefill pos input)
          (holding (some s))
        ≡ (
          map_err around.display (call_shard lib around prefill pos input s).0,
          holding (some (call_shard lib around prefill pos input s).1),
        )
  unfolding run_job run_step
  run_job-call_shard input s = by_kind prefill
    where
      by_kind :
          (b : Bool)
          → run_job lib around.display around.elapsed one_session
              (step_of b pos input)
              (holding (some s))
            ≡ (
              map_err around.display (call_shard lib around b pos input s).0,
              holding (some (call_shard lib around b pos input s).1),
            )
      by_kind true = refl
      by_kind false = refl

  map_err_twice :
      (id : DeviceId) (r : Results.Result Error Payload)
      → map_err (λ why. shard_on id) (map_err around.display r) ≡ map_err (λ e. shard_on id) r
  map_err_twice id (ok p) = refl
  map_err_twice id (err e) = refl

  -- A job of the node's thread is a call of its shard.
  ran-Agree :
      (id : DeviceId) (input : Payload) (net : Network lib) (s d : CandleShard lib)
      → Same lib laws s d
      → ShownBy
          (ran_there lib around id net (
            run_job lib around.display around.elapsed one_session
              (step_of prefill pos input)
              (holding (some s))))
          (call_shard lib around prefill pos input d)
  ran-Agree id input net s d p =
      let (same, after) = call-Same input s d p in
      let self : same_id id id ≡ true = same_id_refl id in
      rw
        (run_job-call_shard input s, map_err_twice id (call_shard lib around prefill pos input s).0)
        (shown_by (peer id)
          (put lib id (holding (some (call_shard lib around prefill pos input s).1)) net)
          (λ e. shard_on id) (call_shard lib around prefill pos input s).0
          (call_shard lib around prefill pos input d).0
          (call_shard lib around prefill pos input d).1 same
          ((call_shard lib around prefill pos input s).1, rw self refl, after))

  pub run_stage-Agree :
      (input : Payload) (stage : Stage lib) (net : Network lib) (d : CandleShard lib)
      → Shows lib laws around net stage d
      → ShownBy
          (run_stage lib around prefill pos input stage net)
          (call_shard lib around prefill pos input d)
  unfolding run_stage
  run_stage-Agree input (here spec s) net d p =
      let (same, after) = call-Same input s d p in
      shown_by (here spec (call_shard lib around prefill pos input s).1) net running
        (call_shard lib around prefill pos input s).0 (call_shard lib around prefill pos input d).0
        (call_shard lib around prefill pos input d).1 same after
  run_stage-Agree input (peer id) net d (s, at, p) = rw at (ran-Agree id input net s d p)

  -- What a step leaves of the chain: the same devices in the same places.
  pub run_stage-Covers :
      (input : Payload) (stage : Stage lib) (rest : List (Stage lib)) (net : Network lib)
      (d : CandleShard lib)
      → Apart lib laws around stage rest
      → Covers lib laws around net rest d
      → Covers lib laws around (run_stage lib around prefill pos input stage net).2 rest d
        × Apart lib laws around (run_stage lib around prefill pos input stage net).1 rest
  unfolding run_stage
  run_stage-Covers input (here spec s) rest net d a h = (h, tt)
  run_stage-Covers input (peer id) rest net d a h = elim (Option-cases (net id)) [
    | inl e ↦ rw e (h, a)
    | inr (t, e) ↦ rw e (Covers-put lib laws around net id _ rest d a h, a)
  ]

  pub run_stage-Without :
      (input : Payload) (stage : Stage lib) (net : Network lib) (id : DeviceId)
      → Without lib laws around id (stage ∷ [])
      → Without lib laws around id ((run_stage lib around prefill pos input stage net).1 ∷ [])
        × ((run_stage lib around prefill pos input stage net).2 id ≡ net id)
  unfolding run_stage
  run_stage-Without input (here spec s) net id w = (tt, refl)
  run_stage-Without input (peer other) net id (w, _) = elim (Option-cases (net other)) [
    | inl e ↦ rw e ((w, tt), refl)
    | inr (t, e) ↦ rw e ((w, tt), put_other lib laws around net other id _ w)
  ]
