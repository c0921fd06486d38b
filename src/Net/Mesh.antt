-- ===== src/Net/Mesh.antt =====
-- crates/lattice-net/src/mesh.rs: one connection per peer. A connection is known by a handle; which
-- ones are still open is part of the state, and `dial` is what quinn answers for an address.
pub mod Adopt
use Prim.Native.Nat.{Ordering}
use p2p_distributed_inferenc.Prelude.{
  ℕ, ◌≡◌, Bool, true, false, ◌&&◌, Option, none, some, List, [], ◌∷◌, ◌==◌, if◌then◌else◌,
}
use p2p_distributed_inferenc.Prelude.Order.{Ord, bytes_ord, cmp_bytes, is_eq, is_le, is_lt}
use p2p_distributed_inferenc.Prelude.BTreeMap
use p2p_distributed_inferenc.Net.Error.{
  Error, Result, ok, err, stream, other_identity, no_known_address,
}
use p2p_distributed_inferenc.Net.Identity.{DeviceId}

-- transport.rs: which side opened a connection.
pub data Role : Type 0 where
  dialer listener : Role

pub record Connection : Type 0 where
  pub handle : ℕ
  pub peer_id : DeviceId
  pub role : Role

-- A `HashMap` is a map here too: nothing depends on its order but `connected`.
pub record Mesh : Type 0 where
  pub local : DeviceId
  pub peers : List (DeviceId × Connection)
  pub open_handles : ℕ → Bool

unfoldable pub new : DeviceId → (ℕ → Bool) → Mesh
new local open_handles = record { local = local; peers = []; open_handles = open_handles }

abbrev pub is_live : Mesh → Connection → Bool
is_live m conn = m.open_handles conn.handle

-- `Connection::close`
abbrev pub close : ℕ → (ℕ → Bool) → ℕ → Bool
close h open_handles i = if h == i then false else open_handles i

unfoldable pub should_dial : Mesh → DeviceId → Bool
should_dial m peer = is_lt (cmp_bytes m.local peer)

abbrev live_only : Mesh → Option Connection → Option Connection
live_only m none = none
live_only m (some conn) = if is_live m conn then some conn else none

unfoldable pub get : DeviceId → Mesh → Option Connection
get peer m = live_only m (BTreeMap.get peer m.peers)

live_ids : Mesh → List (DeviceId × Connection) → List DeviceId
live_ids m [] = []
live_ids m ((id, conn) ∷ rest) =
    let more = live_ids m rest in if is_live m conn then id ∷ more else more

unfoldable pub connected : Mesh → List DeviceId
unfolding live_ids
connected m = live_ids m m.peers

unfoldable pub dialer_of : DeviceId → Connection → DeviceId
dialer_of local conn = elim conn.role [ dialer ↦ local | listener ↦ conn.peer_id ]

unfoldable pub register : Connection → Mesh → Connection × Mesh
register conn m = (conn, record m { peers = BTreeMap.insert conn.peer_id conn m.peers })

-- `adopt`: the connection to use from now on, and the mesh.
unfoldable pub adopt : Connection → Mesh → Connection × Mesh
adopt conn m = elim (get conn.peer_id m) [
  | none ↦ register conn m
  | some existing ↦
      if is_le (cmp_bytes (dialer_of m.local existing) (dialer_of m.local conn))
      then (existing, record m { open_handles = close conn.handle m.open_handles })
      else register conn (record m { open_handles = close existing.handle m.open_handles })
]

-- `accept`, of what the endpoint answers.
unfoldable pub accept : Option (Result Connection) → Mesh → Option (Result Connection) × Mesh
accept none m = (none, m)
accept (some (err e)) m = (some (err e), m)
accept (some (ok conn)) m = (some (ok (adopt conn m).0), (adopt conn m).1)

forget_entry : DeviceId → Option Connection → Mesh → Mesh
forget_entry peer none m = m
forget_entry peer (some conn) m = record m {
  peers = BTreeMap.remove peer m.peers;
  open_handles = close conn.handle m.open_handles;
}

unfoldable pub forget : DeviceId → Mesh → Mesh
unfolding forget_entry
forget peer m = forget_entry peer (BTreeMap.get peer m.peers) m

module _ {Addr : Type 0} (dial : Addr → Result Connection) where
  -- The loop over the addresses, with the last failure.
  unfoldable pub dial_each : DeviceId → List Addr → Error → Mesh → Result Connection × Mesh
  dial_each peer [] last m = (err last, m)
  dial_each peer (addr ∷ addrs) last m = elim (dial addr) [
    | ok conn ↦ elim (is_eq (cmp_bytes conn.peer_id peer)) [
      | true ↦ (ok (adopt conn m).0, (adopt conn m).1)
      | false ↦ dial_each peer addrs (stream other_identity) m
    ]
    | err e ↦ dial_each peer addrs e m
  ]

  unfoldable pub connect : DeviceId → List Addr → Mesh → Result Connection × Mesh
  connect peer addrs m = elim (get peer m) [
    | some live ↦ (ok live, m)
    | none ↦ dial_each peer addrs (stream no_known_address) m
  ]
