-- ===== src/Daemon/Chat.antt =====
-- crates/latticed/src/chat.rs: the workers of a chat, found and asked before the layers are planned. The
-- requests to a worker are answered by its Daemon/Node/Requests. Texts that name a worker are read by the
-- parsers of Daemon/Startup/Target.
pub mod Fit
mod Examples
use Prim.Native.String.{String}
use package.text.Mathlib.Text as Text
use p2p_distributed_inferenc.Prelude.{
  ℕ, Bool, true, false, not, ◌&&◌, ◌||◌, Option, none, some, List, [], ◌∷◌, ◌++◌, map, ◌==◌,
  if◌then◌else◌,
}
use p2p_distributed_inferenc.Prelude.Order.{Ord, bytes_ord, cmp_bytes}
use p2p_distributed_inferenc.Prelude.BTreeMap
use p2p_distributed_inferenc.Prelude.Results
use p2p_distributed_inferenc.Prelude.Results.{ok, err, ◌>>=◌, ◌>>◌, guard, or_fail}
use p2p_distributed_inferenc.Net.Identity.{DeviceId}
use p2p_distributed_inferenc.Net.Control.{
  EngineCapabilities, Response, Refusal, info, refused, unintelligible,
}
use p2p_distributed_inferenc.Net.Discovery
use p2p_distributed_inferenc.Net.Discovery.{
  SocketAddr, DiscoveredPeer, PeerEvent, found, lost, protocol_version,
}
use p2p_distributed_inferenc.Daemon.Startup.{same_id, is_wanted, usable, connect_any}
use p2p_distributed_inferenc.Daemon.Startup.Target.{Parsers, is_bad, is_role}

pub data Fault : Type 0 where
  not_usable not_an_id browsing no_workers no_answer : Fault
  not_paired unavailable other_identity selected_twice older_latticed : DeviceId → Fault
  worker_refused : DeviceId → Refusal → Fault
  no_inference : DeviceId → Response → Fault
  other_engine gpu_busy not_a_gpu : Fault

abbrev pub Result {ℓ} : Type ℓ → Type ℓ
Result A = Results.Result Fault A

pub record Worker : Type 0 where
  pub id : DeviceId
  pub caps : EngineCapabilities

unfoldable pub check_worker : EngineCapabilities → String → Result (Unit {0})
check_worker caps revision = do
  guard (Text.◌==◌ caps.revision revision) other_engine
  guard (not caps.busy) gpu_busy
  guard (Text.◌==◌ caps.device.kind "gpu" || Text.◌==◌ caps.device.kind "igpu") not_a_gpu

-- `BTreeSet::contains`
unfoldable pub contains : DeviceId → List DeviceId → Bool
contains id [] = false
contains id (other ∷ ids) = same_id id other || contains id ids

abbrev pub Located : Type 0
Located = List (Option DeviceId × List SocketAddr)

-- `BTreeSet<DeviceId>`
abbrev pub IdSet : Type 0
IdSet = List (DeviceId × Unit {0})

abbrev pub ids : IdSet → List DeviceId
ids = map (λ e. e.0)

-- `b"worker"`
abbrev pub worker_role : Discovery.Text
worker_role = 119 ∷ 111 ∷ 114 ∷ 107 ∷ 101 ∷ 114 ∷ []

abbrev pub is_empty : {A : Type 0} → List A → Bool
is_empty [] = true
is_empty (a ∷ rest) = false

module _ (p : Parsers) (trusted : List DeviceId) (self_id : DeviceId) where
  open p use {socket_addr, device_id, is_loopback}

  abbrev pub wanted_id : Option DeviceId → Result DeviceId
  wanted_id none = err not_an_id
  wanted_id (some id) =
      guard (not (same_id id self_id || not (contains id trusted))) (not_paired id) >> ok id

  abbrev pub put_wanted : Located × IdSet → DeviceId → Located × IdSet
  put_wanted (explicit, wanted) id = (explicit, BTreeMap.insert id tt wanted)

  abbrev pub put_target :
      Located × IdSet → Discovery.Text → Option SocketAddr → Result (Located × IdSet)
  put_target (explicit, wanted) target none =
      wanted_id (device_id target) >>= (λ id. ok (put_wanted (explicit, wanted) id))
  put_target (explicit, wanted) target (some addr) =
      guard (not (is_bad p addr)) not_usable >> ok (explicit ++ ((none, addr ∷ []) ∷ []), wanted)

  -- The loop over what was asked for: the addresses in order, and the ids.
  unfoldable pub put_targets : Located × IdSet → List Discovery.Text → Result (Located × IdSet)
  put_targets asked [] = ok asked
  put_targets asked (target ∷ targets) =
      put_target asked target (socket_addr target) >>= (λ asked'. put_targets asked' targets)

  abbrev pub is_worker : List DeviceId → Bool → DiscoveredPeer → Bool
  is_worker wanted all peer =
      not (same_id peer.device_id self_id)
      && contains peer.device_id trusted
      && is_role worker_role peer.role
      && peer.protocol == protocol_version
      && (all || contains peer.device_id wanted)

  -- The loop over the events before the deadline.
  unfoldable pub browse_from :
      List DeviceId
      → Bool
      → List (DeviceId × List SocketAddr)
      → List PeerEvent
      → List (DeviceId × List SocketAddr)
  browse_from wanted all seen [] = seen
  browse_from wanted all seen (found peer ∷ events) =
      browse_from wanted all
        (if is_worker wanted all peer && not (is_empty (usable is_loopback peer.addrs))
          then BTreeMap.insert peer.device_id (usable is_loopback peer.addrs) seen
          else seen)
        events
  browse_from wanted all seen (lost id ∷ events) =
      browse_from wanted all (BTreeMap.remove id seen) events

  abbrev pub is_found : Option (List SocketAddr) → Bool
  is_found none = false
  is_found (some addrs) = true

  unfoldable pub all_found : List DeviceId → List (DeviceId × List SocketAddr) → Result (Unit {0})
  all_found [] seen = ok tt
  all_found (id ∷ wanted) seen =
      guard (is_found (BTreeMap.get id seen)) (unavailable id) >> all_found wanted seen

  -- After the browsing, of what it saw.
  abbrev pub located : Located × List DeviceId → List (DeviceId × List SocketAddr) → Result Located
  located (explicit, wanted) seen =
      all_found wanted seen >> ok (explicit ++ map (λ e. (some e.0, e.1)) seen)

  abbrev pub browsed :
      List Discovery.Text → Option (List PeerEvent) → Located × IdSet → Result Located
  browsed requested events (explicit, wanted) =
      if is_empty wanted && not (is_empty explicit)
      then ok explicit
      else or_fail browsing events >>= (λ seen.
        located (explicit, ids wanted) (browse_from (ids wanted) (is_empty requested) [] seen))

  unfoldable pub find_workers : List Discovery.Text → Option (List PeerEvent) → Result Located
  find_workers requested events = put_targets ([], []) requested >>= browsed requested events

  abbrev pub refusal_of : DeviceId → Refusal → Fault
  refusal_of id unintelligible = older_latticed id
  refusal_of id why = worker_refused id why

  abbrev pub caps_of : DeviceId → Option Response → Result EngineCapabilities
  caps_of id none = err no_answer
  caps_of id (some (info caps)) = ok caps
  caps_of id (some (refused why)) = err (refusal_of id why)
  caps_of id (some other) = err (no_inference id other)

  -- `dial` says which trusted device answers at an address, and `asked` what it replies to
  -- `InferenceInfo`.
  module _ (dial : SocketAddr → Option DeviceId) (asked : DeviceId → Option Response)
      (revision : String) where
    unfoldable pub connect_worker :
        List DeviceId → Option DeviceId → List SocketAddr → Result Worker
    connect_worker seen expected addrs = do
      id ← or_fail no_answer (connect_any dial addrs)
      guard (not (not (is_wanted expected id) || same_id id self_id)) (other_identity id)
      guard (not (contains id seen)) (selected_twice id)
      caps ← caps_of id (asked id)
      check_worker caps revision
      ok (record { id = id; caps = caps })

    -- The loop of `connect_workers`, where the devices of `seen` are connected.
    unfoldable pub connect_each : List DeviceId → Located → Result (List Worker)
    connect_each seen [] = ok []
    connect_each seen ((expected, addrs) ∷ rest) =
        connect_worker seen expected addrs
        >>= (λ worker. connect_each (worker.id ∷ seen) rest >>= (λ workers. ok (worker ∷ workers)))

    unfoldable pub connect_workers :
        List Discovery.Text → Option (List PeerEvent) → Result (List Worker)
    connect_workers requested events = do
      places ← find_workers requested events
      guard (not (is_empty places)) no_workers
      connect_each [] places
