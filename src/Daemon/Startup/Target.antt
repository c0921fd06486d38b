-- ===== src/Daemon/Startup/Target.antt =====
-- crates/latticed/src/startup/worker.rs: how a worker finds the master to connect to, by its option, by
-- discovery or from the last time. Texts are lists of code points.
use p2p_distributed_inferenc.Prelude.{
  ℕ, Bool, true, false, not, ◌&&◌, ◌||◌, Option, none, some, List, [], ◌∷◌, map, retain, ◌==◌,
  if◌then◌else◌,
}
use p2p_distributed_inferenc.Prelude.Order.{bytes_ord, cmp_bytes, is_eq}
use p2p_distributed_inferenc.Prelude.BTreeMap
use p2p_distributed_inferenc.Prelude.Results
use p2p_distributed_inferenc.Prelude.Results.{ok, err, ◌>>=◌, ◌>>◌, guard, or_fail}
use mathlib.Core.Option
use p2p_distributed_inferenc.Net.Identity.{DeviceId}
use p2p_distributed_inferenc.Net.Discovery.{
  Text, IpAddr, v4, SocketAddr, is_ipv4, DiscoveredPeer, PeerEvent, found, lost, protocol_version,
}
use p2p_distributed_inferenc.Daemon.Startup.{same_id, is_wanted, usable}

pub record Target : Type 0 where
  pub id : Option DeviceId
  pub addrs : List SocketAddr
  pub pairing_port : ℕ

pub record WorkerOptions : Type 0 where
  pub master : Option Text
  pub pairing_port : ℕ

pub data Fault : Type 0 where
  not_usable not_an_id this_device browsing : Fault
  multiple_masters : DeviceId → DeviceId → Fault
  invalid_saved not_saved : Fault
  could_not_pair not_accepted : Fault

abbrev pub Result {ℓ} : Type ℓ → Type ℓ
Result A = Results.Result Fault A

-- What the standard library and hex make of a text, and of an address.
pub record Parsers : Type 0 where
  pub socket_addr : Text → Option SocketAddr
  pub ipv4 : Text → Option ℕ
  pub device_id : Text → Option DeviceId
  pub is_unspecified : IpAddr → Bool
  pub is_loopback : IpAddr → Bool

abbrev pub is_some : {A : Type 0} → Option A → Bool
is_some none = false
is_some (some a) = true

-- `b"master"`
abbrev pub master_role : Text
master_role = 109 ∷ 97 ∷ 115 ∷ 116 ∷ 101 ∷ 114 ∷ []

abbrev pub is_role : Text → Option Text → Bool
is_role wanted none = false
is_role wanted (some role) = is_eq (cmp_bytes role wanted)

unfoldable pub any_ipv4 : List SocketAddr → Bool
any_ipv4 [] = false
any_ipv4 (a ∷ addrs) = is_ipv4 a || any_ipv4 addrs

abbrev pub is_candidate : Option DeviceId → DiscoveredPeer → Bool
is_candidate wanted peer =
    is_role master_role peer.role
    && peer.protocol == protocol_version
    && is_wanted wanted peer.device_id
    && any_ipv4 peer.addrs

abbrev pub only : List DiscoveredPeer → Result (Option DiscoveredPeer)
only [] = ok none
only (first ∷ []) = ok (some first)
only (first ∷ second ∷ rest) = err (multiple_masters first.device_id second.device_id)

unfoldable pub select_master :
    List DiscoveredPeer → Option DeviceId → Result (Option DiscoveredPeer)
select_master peers wanted = only (retain (is_candidate wanted) peers)

-- The loop of `browse`, over the events before its deadline.
unfoldable pub browse_from :
    DeviceId → List (DeviceId × DiscoveredPeer) → List PeerEvent → List (DeviceId × DiscoveredPeer)
browse_from self_id peers [] = peers
browse_from self_id peers (found peer ∷ events) =
    browse_from self_id
      (if not (same_id peer.device_id self_id)
        then BTreeMap.insert peer.device_id peer peers
        else peers)
      events
browse_from self_id peers (lost id ∷ events) = browse_from self_id (BTreeMap.remove id peers) events

unfoldable pub browse : DeviceId → List PeerEvent → List DiscoveredPeer
browse self_id events = map (λ e. e.1) (browse_from self_id [] events)

-- Where `--master` leads: to a target that is dialled as it is, or to browsing, for an id if there is one.
pub data Asked : Type 0 where
  direct : Target → Asked
  look_for : Option DeviceId → Asked

abbrev pub id_of : Option Target → Option DeviceId
id_of none = none
id_of (some target) = target.id

abbrev pub same_ids : Option DeviceId → Option DeviceId → Bool
same_ids none none = true
same_ids (some a) (some b) = same_id a b
same_ids _ _ = false

abbrev pub unwrap_or : Option ℕ → ℕ → ℕ
unwrap_or none d = d
unwrap_or (some n) d = n

module _ (p : Parsers) where
  open p use {socket_addr, ipv4, device_id, is_unspecified, is_loopback}

  abbrev pub or_ip : Option SocketAddr → Option ℕ → Option SocketAddr
  or_ip none ip = Option.map (λ n. record { ip = v4 n; port = 47900 }) ip
  or_ip (some addr) ip = some addr

  abbrev pub is_bad : SocketAddr → Bool
  is_bad addr = not (is_ipv4 addr) || addr.port == 0 || is_unspecified addr.ip

  abbrev pub checked_addr : Option SocketAddr → Result (Option SocketAddr)
  checked_addr none = ok none
  checked_addr (some addr) = if is_bad addr then err not_usable else ok (some addr)

  unfoldable pub explicit_address : Text → Result (Option SocketAddr)
  explicit_address text = checked_addr (or_ip (socket_addr text) (ipv4 text))

  -- Equality of addresses, of one parser's making.
  abbrev pub same_ip : IpAddr → IpAddr → Bool
  same_ip (v4 a) (v4 b) = a == b
  same_ip (IpAddr.v6 a) (IpAddr.v6 b) = a == b
  same_ip _ _ = false

  unfoldable pub contains : SocketAddr → List SocketAddr → Bool
  contains addr [] = false
  contains addr (a ∷ addrs) = (same_ip a.ip addr.ip && a.port == addr.port) || contains addr addrs

  abbrev pub id_at : SocketAddr → Option Target → Option DeviceId
  id_at addr none = none
  id_at addr (some target) = if contains addr target.addrs then target.id else none

  abbrev pub by_text : WorkerOptions → Option Target → Text → Option SocketAddr → Result Asked
  by_text options saved text none =
      or_fail not_an_id (device_id text) >>= (λ id. ok (look_for (some id)))
  by_text options saved text (some addr) = ok (
      direct
        (record { id = id_at addr saved; addrs = addr ∷ []; pairing_port = options.pairing_port }))

  abbrev pub requested : WorkerOptions → Option Target → Option Text → Result Asked
  requested options saved none = ok (look_for (id_of saved))
  requested options saved (some text) = explicit_address text >>= by_text options saved text

  abbrev pub target_of : WorkerOptions → DiscoveredPeer → Target
  target_of options peer = record {
    id = some peer.device_id;
    addrs = usable is_loopback peer.addrs;
    pairing_port = unwrap_or peer.pairing_port options.pairing_port;
  }

  abbrev pub chosen :
      WorkerOptions → Option Target → Option DeviceId → Option DiscoveredPeer → Option Target
  chosen options saved wanted (some peer) = some (target_of options peer)
  chosen options none wanted none = none
  chosen options (some target) wanted none = if same_ids target.id wanted then some target else none

  -- `find_target`; `events` is what the browser says, if it can be started.
  abbrev pub looked_for :
      WorkerOptions
      → Option Target
      → DeviceId
      → Option (List PeerEvent)
      → Asked
      → Result (Option Target)
  looked_for options saved self_id events (direct target) = ok (some target)
  looked_for options saved self_id events (look_for wanted) =
      guard (not (same_ids wanted (some self_id))) this_device
      >> (or_fail browsing events >>= (λ seen.
          select_master (browse self_id seen) wanted
          >>= (λ peer. ok (chosen options saved wanted peer))))

  unfoldable pub find_target :
      WorkerOptions → Option Target → DeviceId → Option (List PeerEvent) → Result (Option Target)
  find_target options saved self_id events =
      requested options saved options.master >>= looked_for options saved self_id events

-- `read_saved`, of what serde_json makes of the file if it is there.
abbrev pub is_invalid_addr : SocketAddr → Bool
is_invalid_addr addr = not (is_ipv4 addr) || addr.port == 0

unfoldable pub any_invalid : List SocketAddr → Bool
any_invalid [] = false
any_invalid (a ∷ addrs) = is_invalid_addr a || any_invalid addrs

abbrev pub is_empty : List SocketAddr → Bool
is_empty [] = true
is_empty (a ∷ addrs) = false

abbrev pub is_invalid : Target → Bool
is_invalid target =
    not (is_some target.id)
    || is_empty target.addrs
    || target.pairing_port == 0
    || any_invalid target.addrs

unfoldable pub read_saved : Option Target → Result (Option Target)
read_saved none = ok none
read_saved (some target) = if is_invalid target then err invalid_saved else ok (some target)
