-- ===== src/Daemon/Generate/Pipeline/Covers.antt =====
-- crates/latticed/src/generate.rs: a chain of shards and peers does the steps of the one shard that holds
-- all its layers.
use p2p_distributed_inferenc.Prelude.{
  ◌≡◌, refl, arith, ◌∙◌, inl, inr, true, false, some, List, [], ◌∷◌, Bool-cases,
}
use p2p_distributed_inferenc.Prelude.Order.{cmp_bytes_refl, cmp_bytes_eq}
use p2p_distributed_inferenc.Engine.Candle.{Library, CandleShard}
use p2p_distributed_inferenc.Engine.Candle.Composition.{Composes, Joins}
use p2p_distributed_inferenc.Engine.Candle.Halves.{Same}
use p2p_distributed_inferenc.Net.Identity.{DeviceId}
use p2p_distributed_inferenc.Daemon.Node.Shard.{Thread, holding}
use p2p_distributed_inferenc.Daemon.Generate.Pipeline.{
  Surroundings, same_id, Network, put, Stage, here, peer,
}

pub same_id_refl : (id : DeviceId) → same_id id id ≡ true
same_id_refl id = rw (cmp_bytes_refl id) refl

pub same_id_sym : (a b : DeviceId) → same_id a b ≡ false → same_id b a ≡ false
same_id_sym a b h = elim (Bool-cases (same_id b a)) [
  | inl e ↦
      let same : b ≡ a = cmp_bytes_eq b a (ground arith) in
      let self : same_id a b ≡ true = rw same (same_id_refl a) in absurd cc
  | inr e ↦ e
]

module _ (lib : Library) (laws : Composes lib) (around : Surroundings) where
  -- The stage holds this shard, here or on its peer, but for the counters of the shard.
  abbrev pub Shows : Network lib → Stage lib → CandleShard lib → Type 0
  Shows net (here spec s) d = Same lib laws s d
  Shows net (peer id) d =
      (s : CandleShard lib) × (net id ≡ some (holding (some s))) × Same lib laws s d

  -- The device is no stage of the chain.
  abbrev pub Without : DeviceId → List (Stage lib) → Type 0
  Without id [] = Unit {0}
  Without id (here spec s ∷ rest) = Without id rest
  Without id (peer other ∷ rest) = (same_id id other ≡ false) × Without id rest

  abbrev pub Apart : Stage lib → List (Stage lib) → Type 0
  Apart (here spec s) rest = Unit {0}
  Apart (peer id) rest = Without id rest

  -- The stages hold, one after the other, the layers of the shard, in its session; no two of them are on
  -- the same peer.
  abbrev pub Covers : Network lib → List (Stage lib) → CandleShard lib → Type 0
  Covers net [] c = ⊥
  Covers net (stage ∷ []) c = Shows net stage c
  Covers net (stage ∷ next ∷ rest) c =
      (s : CandleShard lib) × (d : CandleShard lib) × Shows net stage s
      × Covers net (next ∷ rest) d
      × Joins lib laws s d c
      × Apart stage (next ∷ rest)

  pub Covers-cons :
      (net : Network lib) (stage : Stage lib) (stages : List (Stage lib)) (s d c : CandleShard lib)
      → Shows net stage s
      → Covers net stages d
      → Joins lib laws s d c
      → Apart stage stages
      → Covers net (stage ∷ stages) c
  Covers-cons net stage [] s d c p q j a = absurd q
  Covers-cons net stage (next ∷ rest) s d c p q j a = (s, d, p, q, j, a)

  pub put_other :
      (net : Network lib) (id other : DeviceId) (t : Thread lib)
      → same_id other id ≡ false
      → put lib id t net other ≡ net other
  put_other net id other t h = rw (same_id_sym other id h) refl

  Shows-put :
      (net : Network lib) (id : DeviceId) (t : Thread lib) (stage : Stage lib) (s : CandleShard lib)
      → Without id (stage ∷ [])
      → Shows net stage s
      → Shows (put lib id t net) stage s
  Shows-put net id t (here spec s') s w p = p
  Shows-put net id t (peer other) s (w, _) (s', at, same) =
      (s', put_other net id other t (same_id_sym id other w) ∙ at, same)

  pub Covers-put :
      (net : Network lib) (id : DeviceId) (t : Thread lib) (stages : List (Stage lib))
      (c : CandleShard lib)
      → Without id stages
      → Covers net stages c
      → Covers (put lib id t net) stages c
  Covers-put net id t [] c w h = h
  Covers-put net id t (here spec s' ∷ []) c w h = h
  Covers-put net id t (peer other ∷ []) c w h = Shows-put net id t (peer other) c w h
  Covers-put net id t (here spec s' ∷ next ∷ rest) c w (s, d, p, q, j, a) =
      (s, d, p, Covers-put net id t (next ∷ rest) d w q, j, a)
  Covers-put net id t (peer other ∷ next ∷ rest) c (w, ws) (s, d, p, q, j, a) = (
    s,
    d,
    Shows-put net id t (peer other) s (w, tt) p,
    Covers-put net id t (next ∷ rest) d ws q,
    j,
    a,
  )
