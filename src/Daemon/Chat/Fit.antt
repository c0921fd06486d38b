-- ===== src/Daemon/Chat/Fit.antt =====
-- crates/latticed/src/chat.rs: which workers a chat starts with.
use Prim.Native.String.{String}
use package.text.Mathlib.Text as Text
use mathlib.Core.Path.{subst}
use p2p_distributed_inferenc.Prelude.{
  suc, ◌≡◌, refl, sym, ap, ◌∙◌, Bool, true, false, not, ◌||◌, Option, none, some, List, [], ◌∷◌,
  arith, length,
}
use p2p_distributed_inferenc.Prelude.Results.{ok, guard, or_fail, bind-ok}
use p2p_distributed_inferenc.Net.Identity.{DeviceId}
use p2p_distributed_inferenc.Net.Control.{EngineCapabilities, Response, info, refused}
use p2p_distributed_inferenc.Net.Discovery
use p2p_distributed_inferenc.Net.Discovery.{SocketAddr, PeerEvent}
use p2p_distributed_inferenc.Daemon.Startup.{same_id, is_wanted, connect_any}
use p2p_distributed_inferenc.Daemon.Startup.Target.{Parsers}
use p2p_distributed_inferenc.Daemon.Chat.{
  Fault, Worker, check_worker, contains, Located, is_empty, find_workers, caps_of, connect_worker,
  connect_each, connect_workers, other_identity, selected_twice, no_answer, other_engine, gpu_busy,
  not_a_gpu, no_workers,
}

guard_holds : (b : Bool) (e : Fault) (u : Unit {0}) → guard b e ≡ ok u → b ≡ true
guard_holds true e u h = refl
guard_holds false e u h = absurd cc

-- The worker is a free GPU with this revision of the engine.
abbrev pub IsFitFor : String → EngineCapabilities → Type 0
IsFitFor revision caps =
    (Text.◌==◌ caps.revision revision ≡ true)
    × (caps.busy ≡ false)
    × ((Text.◌==◌ caps.device.kind "gpu" || Text.◌==◌ caps.device.kind "igpu") ≡ true)

check_worker-IsFitFor :
    (caps : EngineCapabilities) (revision : String) (u : Unit {0})
    → check_worker caps revision ≡ ok u
    → IsFitFor revision caps
unfolding check_worker
check_worker-IsFitFor caps revision u h =
    let (a, same, h1) = bind-ok (guard (Text.◌==◌ caps.revision revision) other_engine) _ u h in
    let (b, free, h2) = bind-ok (guard (not caps.busy) gpu_busy) _ u h1 in
    let idle = guard_holds (not caps.busy) gpu_busy b free in
    (
      guard_holds (Text.◌==◌ caps.revision revision) other_engine a same,
      ground (arith, idle),
      guard_holds (Text.◌==◌ caps.device.kind "gpu" || Text.◌==◌ caps.device.kind "igpu") not_a_gpu
          u h2,
    )

module _ (p : Parsers) (trusted : List DeviceId) (self_id : DeviceId) where
  caps_of-info :
      (id : DeviceId) (o : Option Response) (caps : EngineCapabilities)
      → caps_of p trusted self_id id o ≡ ok caps
      → o ≡ some (info caps)
  caps_of-info id none caps h = absurd cc
  caps_of-info id (some (info found)) caps h = cc
  caps_of-info id (some (refused why)) caps h = absurd cc
  caps_of-info id (some (Response.identity d n t)) caps h = absurd cc
  caps_of-info id (some (Response.provisioned a k)) caps h = absurd cc
  caps_of-info id (some (Response.shard_loaded w k)) caps h = absurd cc
  caps_of-info id (some Response.worker_registered) caps h = absurd cc

  module _ (dial : SocketAddr → Option DeviceId) (asked : DeviceId → Option Response)
      (revision : String) where
    -- The workers answered with what they offer, are fit, are other devices than this one, and are not among
    -- the ones that are connected, nor twice there.
    abbrev pub AreFit : List DeviceId → List Worker → Type 0
    AreFit seen [] = Unit {0}
    AreFit seen (w ∷ workers) =
        (asked w.id ≡ some (info w.caps))
        × IsFitFor revision w.caps
        × (same_id w.id self_id ≡ false)
        × (contains w.id seen ≡ false)
        × AreFit (w.id ∷ seen) workers

    connect_worker-ok :
        (seen : List DeviceId) (expected : Option DeviceId) (addrs : List SocketAddr) (w : Worker)
        → connect_worker p trusted self_id dial asked revision seen expected addrs ≡ ok w
        → (asked w.id ≡ some (info w.caps))
          × IsFitFor revision w.caps
          × (same_id w.id self_id ≡ false)
          × (contains w.id seen ≡ false)
    unfolding connect_worker
    connect_worker-ok seen expected addrs w h =
        let (id, reached, h1) = bind-ok (or_fail no_answer (connect_any dial addrs)) _ w h in
        let (a, other, h2) =
          bind-ok
            (guard (not (not (is_wanted expected id) || same_id id self_id)) (other_identity id)) _
            w h1 in
        let (b, once, h3) = bind-ok (guard (not (contains id seen)) (selected_twice id)) _ w h2 in
        let (caps, replied, h4) = bind-ok (caps_of p trusted self_id id (asked id)) _ w h3 in
        let (c, fit, h5) = bind-ok (check_worker caps revision) _ w h4 in
        let it : ◌≡◌ {A = Worker} (record { id = id; caps = caps }) w = cc in
        let not_here =
          guard_holds (not (not (is_wanted expected id) || same_id id self_id)) (other_identity id)
            a other in
        let new = guard_holds (not (contains id seen)) (selected_twice id) b once in
        subst
          (λ (v : Worker).
            (asked v.id ≡ some (info v.caps))
            × IsFitFor revision v.caps
            × (same_id v.id self_id ≡ false)
            × (contains v.id seen ≡ false))
          it
          (
            caps_of-info id (asked id) caps replied,
            check_worker-IsFitFor caps revision c fit,
            ground (arith, not_here),
            ground (arith, new),
          )

    connect_each-AreFit :
        (seen : List DeviceId) (places : Located) (workers : List Worker)
        → connect_each p trusted self_id dial asked revision seen places ≡ ok workers
        → AreFit seen workers × (length workers ≡ length places)
    unfolding connect_each
    connect_each-AreFit seen [] workers h =
        let it : [] ≡ workers = cc in (subst (AreFit seen) it tt, ap length (sym it))
    connect_each-AreFit seen ((expected, addrs) ∷ rest) workers h =
        let (w, reached, h1) =
          bind-ok (connect_worker p trusted self_id dial asked revision seen expected addrs) _
            workers h in
        let (others, rests, h2) =
          bind-ok (connect_each p trusted self_id dial asked revision (w.id ∷ seen) rest) _ workers
            h1 in
        let it : (w ∷ others) ≡ workers = cc in
        let (replied, fit, elsewhere, new) = connect_worker-ok seen expected addrs w reached in
        let (fits, count) = connect_each-AreFit (w.id ∷ seen) rest others rests in
        (
          subst (AreFit seen) it (replied, fit, elsewhere, new, fits),
          ap length (sym it) ∙ ap (λ n. suc n) count,
        )

    -- The workers that a chat starts with are as many as were found, and each is another device, once: it
    -- answered with what it offers, a GPU that is not busy, with the revision of the engine that is asked for.
    pub connect_workers-AreFit :
        (requested : List Discovery.Text) (events : Option (List PeerEvent)) (workers : List Worker)
        → connect_workers p trusted self_id dial asked revision requested events ≡ ok workers
        → AreFit [] workers
          × (places : Located) × (find_workers p trusted self_id requested events ≡ ok places)
          × (length workers ≡ length places)
          × (is_empty places ≡ false)
    unfolding connect_workers
    connect_workers-AreFit requested events workers h =
        let (places, at, h1) =
          bind-ok (find_workers p trusted self_id requested events) _ workers h in
        let (u, some_there, h2) = bind-ok (guard (not (is_empty places)) no_workers) _ workers h1 in
        let (fits, count) = connect_each-AreFit [] places workers h2 in
        let there = guard_holds (not (is_empty places)) no_workers u some_there in
        (fits, places, at, count, ground (arith, there))
