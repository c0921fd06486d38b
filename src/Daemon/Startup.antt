-- ===== src/Daemon/Startup.antt =====
-- crates/latticed/src/startup.rs and the addresses of crates/latticed/src/main.rs: how a device dials
-- another one. `dial` says which device answers at an address, if one does.
pub mod Target
pub mod Worker
use p2p_distributed_inferenc.Prelude.{
  ℕ, Bool, true, false, not, Option, none, some, List, [], ◌∷◌, ◌++◌, retain, if◌then◌else◌,
}
use p2p_distributed_inferenc.Prelude.Order.{cmp_bytes, is_eq}
use p2p_distributed_inferenc.Net.Identity.{DeviceId}
use p2p_distributed_inferenc.Net.Discovery.{IpAddr, SocketAddr, is_ipv4}

abbrev pub same_id : DeviceId → DeviceId → Bool
same_id a b = is_eq (cmp_bytes a b)

-- `is_none_or`
abbrev pub is_wanted : Option DeviceId → DeviceId → Bool
is_wanted none id = true
is_wanted (some wanted) id = same_id id wanted

-- `usable`: a stable sort puts the loopback addresses last.
unfoldable pub usable : (IpAddr → Bool) → List SocketAddr → List SocketAddr
usable is_loopback addrs =
    retain (λ a. not (is_loopback a.ip)) (retain is_ipv4 addrs)
    ++ retain (λ a. is_loopback a.ip) (retain is_ipv4 addrs)

abbrev pub if_wanted : Option DeviceId → Option DeviceId → Option DeviceId → Option DeviceId
if_wanted expected none later = later
if_wanted expected (some id) later = if is_wanted expected id then some id else later

-- `Service::connect`: the device that it connects to.
unfoldable pub connect :
    (SocketAddr → Option DeviceId) → Option DeviceId → List SocketAddr → Option DeviceId
connect dial expected [] = none
connect dial expected (addr ∷ addrs) = if_wanted expected (dial addr) (connect dial expected addrs)

-- `connect_any`, which takes whoever answers.
abbrev pub connect_any : (SocketAddr → Option DeviceId) → List SocketAddr → Option DeviceId
connect_any dial addrs = connect dial none addrs
