-- ===== src/Daemon/Generate/Pipeline/Opening.antt =====
-- crates/latticed/src/generate.rs: the chain that `Pipeline::open` makes.
use Prim.Native.String.{String}
use package.text.Mathlib.Text as Text
use mathlib.Core.Path.{subst}
use p2p_distributed_inferenc.Prelude.{
  ℕ, ◌≡◌, refl, sym, ap, ◌∙◌, inl, inr, true, false, Option, none, some, List, [], ◌∷◌, All,
  Option-cases,
}
use p2p_distributed_inferenc.Prelude.Results.{ok, err, Result-cases}
use p2p_distributed_inferenc.Engine.Abi.{ShardSpec}
use p2p_distributed_inferenc.Engine.Inventory.{Content}
use p2p_distributed_inferenc.Engine.Candle.{Library, CandleShard, open_shard}
use p2p_distributed_inferenc.Engine.Candle.Composition.{Composes}
use p2p_distributed_inferenc.Engine.Candle.Halves.{Same-refl}
use p2p_distributed_inferenc.Net.Identity.{DeviceId}
use p2p_distributed_inferenc.Net.Control.{Response, shard_loaded}
use p2p_distributed_inferenc.Daemon.Node.Shard.{ModelFile, Thread, load_shard}
use p2p_distributed_inferenc.Daemon.Node.Shard.Loaded.{load_shard_opens}
use p2p_distributed_inferenc.Daemon.Generate.{Host, Placement}
use p2p_distributed_inferenc.Daemon.Generate.Pipeline.{
  Options, Surroundings, Result, same_id, Network, put, Stage, here, peer, loaded_at, load_at,
  open_remote, spec_of, open_stage, opened_on, open_stages,
}
use p2p_distributed_inferenc.Daemon.Generate.Pipeline.Covers.{
  same_id_refl, Shows, Without, Apart, put_other,
}

-- The placement is not on the device.
abbrev pub Elsewhere : DeviceId → Host → Type 0
Elsewhere id Host.here = Unit {0}
Elsewhere id (Host.peer other) = same_id id other ≡ false

abbrev pub NotOn : DeviceId → List Placement → Type 0
NotOn id places = All (λ p. Elsewhere id p.host) places

abbrev pub HostApart : Host → List Placement → Type 0
HostApart Host.here places = Unit {0}
HostApart (Host.peer id) places = NotOn id places

-- No two of the placements are on the same peer.
abbrev pub OnePerPeer : List Placement → Type 0
OnePerPeer [] = Unit {0}
OnePerPeer (p ∷ places) = HostApart p.host places × OnePerPeer places

-- A peer's file with the hash of the master's file has the same content.
abbrev pub SameFile : String → Content → (DeviceId → Option ModelFile) → Type 0
SameFile hash content models =
    (id : DeviceId) (file : ModelFile) (h : String)
    → models id ≡ some file
    → file.hash ≡ some h
    → Text.◌==◌ h hash ≡ true
    → file.content ≡ some content

module _ (lib : Library) (laws : Composes lib) (around : Surroundings) (hash : String)
    (content : Content) (options : Options) where
  pub opened_on-ok :
      (net : Network lib) (r : Result (Stage lib)) (rest : Result (List (Stage lib)) × Network lib)
      (stages : List (Stage lib))
      → (opened_on lib around hash content options net r rest).0 ≡ ok stages
      → (stage : Stage lib) × (others : List (Stage lib)) × (r ≡ ok stage)
        × (rest.0 ≡ ok others)
        × (stages ≡ (stage ∷ others))
        × ((opened_on lib around hash content options net r rest).1 ≡ rest.1)
  opened_on-ok net (err e) rest stages h = absurd cc
  opened_on-ok net (ok stage) (err e, net') stages h = absurd cc
  opened_on-ok net (ok stage) (ok others, net') stages h = (stage, others, refl, refl, cc, refl)

  loaded_at-ok :
      (id : DeviceId) (o : Option Response) (stage : Stage lib)
      → loaded_at lib around id o ≡ ok stage
      → (w : ℕ) × (k : ℕ) × (o ≡ some (shard_loaded w k)) × (stage ≡ peer id)
  loaded_at-ok id none stage h = absurd cc
  loaded_at-ok id (some (Response.identity d n p)) stage h = absurd cc
  loaded_at-ok id (some (Response.provisioned a k)) stage h = absurd cc
  loaded_at-ok id (some (shard_loaded w k)) stage h = (w, k, refl, cc)
  loaded_at-ok id (some (Response.refused why)) stage h = absurd cc
  loaded_at-ok id (some Response.worker_registered) stage h = absurd cc
  loaded_at-ok id (some (Response.info e)) stage h = absurd cc

  load_at-Shows :
      (spec : ShardSpec) (id : DeviceId) (net : Network lib) (o : Option (Thread lib))
      (stage : Stage lib)
      → SameFile hash content around.models
      → spec.model_hash ≡ hash
      → (load_at lib around id spec net o).0 ≡ ok stage
      → (s : CandleShard lib) × (open_shard lib content spec ≡ ok s)
        × Shows lib laws around (load_at lib around id spec net o).1 stage s
        × (stage ≡ peer id)
  load_at-Shows spec id net none stage one named h = absurd cc
  load_at-Shows spec id net (some t) stage one named h =
      let (w, k, answer, at) =
        loaded_at-ok id (load_shard lib (around.models id) spec t).0 stage h in
      let (file, own, c, s, found, hashed, same, parsed, opens, held) =
        load_shard_opens lib (around.models id) spec t (load_shard lib (around.models id) spec t).1
          w k (ap (λ a. (a, (load_shard lib (around.models id) spec t).1)) answer) in
      let it : c ≡ content =
        cc (parsed, one id file own found hashed (ap (Text.◌==◌ own) (sym named) ∙ same)) in
      let self : same_id id id ≡ true = same_id_refl id in
      (
        s,
        ap (λ x. open_shard lib x spec) (sym it) ∙ opens,
        subst
            (λ st.
              Shows lib laws around (put lib id (load_shard lib (around.models id) spec t).1 net) st
                s)
            (sym at) (s, rw self (ap some held), Same-refl lib laws s),
        at,
      )

  abbrev pub Kept : Host → Stage lib → Type 0
  Kept Host.here (here spec s) = Unit {0}
  Kept Host.here (peer id) = ⊥
  Kept (Host.peer id) stage = stage ≡ peer id

  pub open_stage-Shows :
      (spec : ShardSpec) (host : Host) (net : Network lib) (stage : Stage lib)
      → SameFile hash content around.models
      → spec.model_hash ≡ hash
      → (open_stage lib around hash content options spec host net).0 ≡ ok stage
      → (s : CandleShard lib) × (open_shard lib content spec ≡ ok s)
        × Shows lib laws around (open_stage lib around hash content options spec host net).1 stage s
        × Kept host stage
  unfolding open_stage open_remote
  open_stage-Shows spec (Host.peer id) net stage one named h =
      load_at-Shows spec id net (net id) stage one named h
  open_stage-Shows spec Host.here net stage one named h =
      elim (Result-cases (open_shard lib content spec)) [
        | inr (e, failed) ↦ absurd (cc (rw failed at h))
        | inl (s, e) ↦
            let it : here spec s ≡ stage = cc (rw e at h) in
            rw (← it) (s, e, Same-refl lib laws s, tt)
      ]

  pub open_stage-Elsewhere :
      (spec : ShardSpec) (host : Host) (net : Network lib) (id : DeviceId)
      → Elsewhere id host
      → (open_stage lib around hash content options spec host net).1 id ≡ net id
  unfolding open_stage open_remote
  open_stage-Elsewhere spec Host.here net id away = refl
  open_stage-Elsewhere spec (Host.peer other) net id away = elim (Option-cases (net other)) [
    | inl e ↦ rw e refl
    | inr (t, e) ↦ rw e (put_other lib laws around net other id _ away)
  ]

  pub Kept-Without :
      (host : Host) (stage : Stage lib) (others : List (Stage lib)) (id : DeviceId)
      → Kept host stage
      → Elsewhere id host
      → Without lib laws around id others
      → Without lib laws around id (stage ∷ others)
  Kept-Without Host.here (here spec s) others id k away w = w
  Kept-Without Host.here (peer other) others id k away w = absurd k
  Kept-Without (Host.peer other) stage others id k away w = rw k (away, w)

  -- The devices of the chain are those of the placements, and opening it leaves the others alone.
  pub open_stages-Without :
      (places : List Placement) (net : Network lib) (stages : List (Stage lib)) (id : DeviceId)
      → SameFile hash content around.models
      → (open_stages lib around hash content options places net).0 ≡ ok stages
      → NotOn id places
      → Without lib laws around id stages
        × ((open_stages lib around hash content options places net).1 id ≡ net id)
  unfolding open_stages
  open_stages-Without [] net stages id one h away =
      let none_left : [] ≡ stages = cc in (rw (← none_left) tt, refl)
  open_stages-Without (place ∷ places) net stages id one h (away, others_away) =
      let opened =
        open_stage lib around hash content options (spec_of lib around hash content options place)
          place.host net in
      let (stage, others, e, rest, whole, after) =
        opened_on-ok opened.1 opened.0 (open_stages lib around hash content options places opened.1)
          stages h in
      let (s, opens, shows, k) =
        open_stage-Shows (spec_of lib around hash content options place) place.host net stage one
          refl e in
      let (w, same) = open_stages-Without places opened.1 others id one rest others_away in
      (
        subst (Without lib laws around id) (sym whole)
            (Kept-Without place.host stage others id k away w),
        ap (λ n. n id) after
            ∙ same
            ∙ open_stage-Elsewhere (spec_of lib around hash content options place) place.host net id
                away,
      )

  -- The rest of the chain, opened behind a stage, leaves it its shard.
  pub open_stages-Shows :
      (host : Host) (stage : Stage lib) (places : List Placement) (others : List (Stage lib))
      (net : Network lib) (s : CandleShard lib)
      → SameFile hash content around.models
      → Kept host stage
      → HostApart host places
      → (open_stages lib around hash content options places net).0 ≡ ok others
      → Shows lib laws around net stage s
      → Shows lib laws around (open_stages lib around hash content options places net).1 stage s
        × Apart lib laws around stage others
  open_stages-Shows Host.here (here spec s') places others net s one k a h shows = (shows, tt)
  open_stages-Shows Host.here (peer id) places others net s one k a h shows = absurd k
  open_stages-Shows (Host.peer id) (here spec s') places others net s one k a h shows = absurd cc
  open_stages-Shows (Host.peer id) (peer other) places others net s one k a h (s', at, p) =
      let it : id ≡ other = cc in
      let (w, same) = open_stages-Without places net others id one h a in
      (
        (
          s',
          subst (λ d. (open_stages lib around hash content options places net).1 d ≡ net d) it same
              ∙ at,
          p,
        ),
        subst (λ d. Without lib laws around d others) it w,
      )
