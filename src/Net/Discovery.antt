-- ===== src/Net/Discovery.antt =====
-- crates/lattice-net/src/discovery.rs: what a device publishes over mDNS and what the others make of it.
-- mdns-sd finds the records and hands their texts over by key. Texts are lists of code points.
pub mod Announced
mod Examples
use p2p_distributed_inferenc.Prelude.{
  ℕ, ◌^◌, ◌<◌, ◌≡◌, ◌≢◌, Bool, true, false, not, Option, none, some, List, [], ◌∷◌, ◌++◌, map, All,
  ◌==◌, take_while, if◌then◌else◌,
}
use mathlib.Core.Option
use p2p_distributed_inferenc.Net.Identity.{DeviceId}

abbrev pub Text : Type 0
Text = List ℕ

-- Texts of ids, by hex, and of numbers below a power of two.
pub record Texts : Type 0 where
  pub show_id : DeviceId → Text
  pub parse_id : Text → Option DeviceId
  pub show_uint : ℕ → Text
  pub parse_uint : ℕ → Text → Option ℕ

-- What hex and the standard library promise of them, for ids that are the eight bytes `IsId`.
pub record Reads (t : Texts) (IsId : DeviceId → Type 0) : Type 0 where
  pub parse-show_id : (id : DeviceId) → IsId id → t.parse_id (t.show_id id) ≡ some id
  pub show_id_dotless : (id : DeviceId) → All (λ x. (x == 46) ≡ false) (t.show_id id)
  pub parse-show_uint : (w n : ℕ) → n < 2 ^ w → t.parse_uint w (t.show_uint n) ≡ some n

abbrev pub protocol_version : ℕ
protocol_version = 1

-- `TXT_DEVICE_ID` and the others
pub data TxtKey : Type 0 where
  txt_device_id txt_name txt_platform txt_memory txt_protocol txt_role txt_pairing_port : TxtKey

pub record Advertisement : Type 0 where
  pub device_id : DeviceId
  pub name : Text
  pub platform : Text
  pub total_memory : ℕ
  pub port : ℕ

pub data IpAddr : Type 0 where
  v4 : ℕ → IpAddr
  v6 : ℕ → IpAddr

pub record SocketAddr : Type 0 where
  pub ip : IpAddr
  pub port : ℕ

abbrev pub is_ipv4 : SocketAddr → Bool
is_ipv4 a = elim a.ip [ v4 n ↦ true | v6 n ↦ false ]

pub record DiscoveredPeer : Type 0 where
  pub device_id : DeviceId
  pub name : Text
  pub platform : Text
  pub total_memory : ℕ
  pub protocol : ℕ
  pub addrs : List SocketAddr
  pub role : Option Text
  pub pairing_port : Option ℕ

pub data PeerEvent : Type 0 where
  found : DiscoveredPeer → PeerEvent
  lost : DeviceId → PeerEvent

-- What mdns-sd hands over of a service that it resolved.
pub record ResolvedService : Type 0 where
  pub txt : TxtKey → Option Text
  pub addresses : List IpAddr
  pub port : ℕ

pub data ServiceEvent : Type 0 where
  resolved : ResolvedService → ServiceEvent
  removed : Text → ServiceEvent
  other_event : ServiceEvent

-- `_lattice._tcp.local.`
abbrev pub service_type : Text
service_type =
    95 ∷ 108 ∷ 97 ∷ 116 ∷ 116 ∷ 105 ∷ 99 ∷ 101 ∷ 46 ∷ 95 ∷ 116 ∷ 99 ∷ 112 ∷ 46 ∷ 108 ∷ 111 ∷ 99 ∷ 97
    ∷ 108 ∷ 46 ∷ []

infixl 5 ◌>>=◌
abbrev ◌>>=◌ : {A B : Type 0} → Option A → (A → Option B) → Option B
none >>= f = none
some a >>= f = f a

abbrev pub unless_empty : Text → Option Text
unless_empty [] = none
unless_empty (x ∷ text) = some (x ∷ text)

module _ (t : Texts) where
  open t use {show_id, parse_id, show_uint, parse_uint}

  -- The texts that `advertise_role` registers, by key.
  unfoldable pub published : Advertisement → Text → Option ℕ → TxtKey → Option Text
  published ad role pairing_port txt_device_id = some (show_id ad.device_id)
  published ad role pairing_port txt_name = some ad.name
  published ad role pairing_port txt_platform = some ad.platform
  published ad role pairing_port txt_memory = some (show_uint ad.total_memory)
  published ad role pairing_port txt_protocol = some (show_uint protocol_version)
  published ad role pairing_port txt_role = unless_empty role
  published ad role pairing_port txt_pairing_port = Option.map show_uint pairing_port

  -- The name that it is registered under.
  unfoldable pub fullname : Advertisement → Text
  fullname ad = show_id ad.device_id ++ (46 ∷ service_type)

  -- A port that is there is a nonzero u16, or the whole record is dropped.
  unfoldable pub pairing_port_of : Option Text → Option (Option ℕ)
  pairing_port_of none = some none
  pairing_port_of (some value) =
      parse_uint 16 value >>= (λ port. if not (port == 0) then some (some port) else none)

  unfoldable pub to_peer : ResolvedService → Option DiscoveredPeer
  to_peer svc = do
    device_id ← svc.txt txt_device_id >>= parse_id
    name ← svc.txt txt_name
    platform ← svc.txt txt_platform
    total_memory ← svc.txt txt_memory >>= parse_uint 64
    protocol ← svc.txt txt_protocol >>= parse_uint 16
    pairing_port ← pairing_port_of (svc.txt txt_pairing_port)
    some (record {
      device_id = device_id;
      name = name;
      platform = platform;
      total_memory = total_memory;
      protocol = protocol;
      addrs = map (λ ip. record { ip = ip; port = svc.port }) svc.addresses;
      role = svc.txt txt_role;
      pairing_port = pairing_port;
    })

  unfoldable pub device_id_from_fullname : Text → Option DeviceId
  device_id_from_fullname name = parse_id (take_while (λ x. not (x == 46)) name)

  abbrev pub event_of : ServiceEvent → Option PeerEvent
  event_of (resolved svc) = Option.map found (to_peer svc)
  event_of (removed name) = Option.map lost (device_id_from_fullname name)
  event_of other_event = none

  abbrev pub or_later :
      List ServiceEvent
      → Option PeerEvent
      → Option (PeerEvent × List ServiceEvent)
      → Option (PeerEvent × List ServiceEvent)
  or_later events none later = later
  or_later events (some p) later = some (p, events)

  -- `next_event`, of the events that come in before the deadline, with those that are left.
  unfoldable pub next_event : List ServiceEvent → Option (PeerEvent × List ServiceEvent)
  next_event [] = none
  next_event (e ∷ events) = or_later events (event_of e) (next_event events)
