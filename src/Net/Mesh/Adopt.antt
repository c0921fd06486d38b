-- ===== src/Net/Mesh/Adopt.antt =====
-- crates/lattice-net/src/mesh.rs: two connections to one peer, and whom `connect` connects to.
use p2p_distributed_inferenc.Prelude.{
  ℕ, ◌≡◌, refl, sym, ◌≢◌, inl, inr, Bool, true, false, none, some, List, [], ◌∷◌, arith,
  if◌then◌else◌, Option-cases, Bool-cases,
}
use p2p_distributed_inferenc.Prelude.Order.{
  bytes_ord, cmp_bytes, cmp_bytes_refl, cmp_bytes_eq, cmp_bytes_gt, cmp_bytes_lt, is_le,
}
use p2p_distributed_inferenc.Prelude.BTreeMap
use p2p_distributed_inferenc.Prelude.BTreeMap.{get-insert, get-remove}
use p2p_distributed_inferenc.Net.Error.{
  Error, Result, ok, stream, other_identity, no_known_address, Result-cases,
}
use p2p_distributed_inferenc.Net.Identity.{DeviceId}
use p2p_distributed_inferenc.Net.Mesh.{
  dialer, listener, Connection, Mesh, close, should_dial, get, dialer_of, register, adopt,
  dial_each, connect,
}

module _ (m : Mesh) (conn : Connection) where
  adopt_fresh : get conn.peer_id m ≡ none → adopt conn m ≡ register conn m
  unfolding adopt
  adopt_fresh h = rw (h, adopt)

  adopt_keeps :
      (existing : Connection)
      → get conn.peer_id m ≡ some existing
      → is_le (cmp_bytes (dialer_of m.local existing) (dialer_of m.local conn)) ≡ true
      → adopt conn m ≡ (existing, record m { open_handles = close conn.handle m.open_handles })
  unfolding adopt
  adopt_keeps existing h le = rw (h, adopt) (rw le)

  adopt_replaces :
      (existing : Connection)
      → get conn.peer_id m ≡ some existing
      → is_le (cmp_bytes (dialer_of m.local existing) (dialer_of m.local conn)) ≡ false
      → adopt conn m
        ≡ register conn (record m { open_handles = close existing.handle m.open_handles })
  unfolding adopt
  adopt_replaces existing h gt = rw (h, adopt) (rw gt)

  get-register :
      m.open_handles conn.handle ≡ true → get conn.peer_id (register conn m).1 ≡ some conn
  unfolding get register
  get-register live =
      ground (arith, get-insert conn.peer_id conn.peer_id conn m.peers, cmp_bytes_refl conn.peer_id)

close_other : (h i : ℕ) (open_handles : ℕ → Bool) → h ≢ i → close h open_handles i ≡ open_handles i
close_other h i open_handles ne = ground arith

close_self : (h : ℕ) (open_handles : ℕ → Bool) → close h open_handles h ≡ false
close_self h open_handles = ground arith

-- Two open connections to a peer that has none, adopted one after the other.
module _ (m : Mesh) (first second : Connection) (same : second.peer_id ≡ first.peer_id)
    (distinct : first.handle ≢ second.handle) (first_open : m.open_handles first.handle ≡ true)
    (second_open : m.open_handles second.handle ≡ true)
    (unregistered : get first.peer_id m ≡ none) where
  abbrev first_stays : Bool
  first_stays = is_le (cmp_bytes (dialer_of m.local first) (dialer_of m.local second))

  second_adopted :
      let n = (adopt second (adopt first m).1).1 in
      (get first.peer_id n ≡ some (if first_stays then first else second))
      × (n.open_handles (if first_stays then second.handle else first.handle) ≡ false)
  second_adopted = rw (adopt_fresh m first unregistered) (elim (Bool-cases first_stays) [
    | inl le ↦
        rw (adopt_keeps registered second first found (kept_local true le), le)
          (unfold get register in
            ground (
              arith,
              get-insert first.peer_id first.peer_id first m.peers,
              cmp_bytes_refl first.peer_id,
            ))
    | inr gt ↦
        rw (adopt_replaces registered second first found (kept_local false gt), gt)
          (unfold get register in
            ground (
              arith,
              get-insert second.peer_id first.peer_id second
                  (BTreeMap.insert first.peer_id first m.peers),
              cmp_bytes_refl first.peer_id,
            ))
  ])
    where
      registered : Mesh
      registered = (register first m).1

      found : get second.peer_id registered ≡ some first
      found = rw same (get-register m first first_open)

      kept_local :
          (b : Bool)
          → first_stays ≡ b
          → is_le (cmp_bytes (dialer_of registered.local first) (dialer_of registered.local second))
            ≡ b
      kept_local b e = unfold register in e

-- The state of one device between two openings: it has dialled `peer` itself (`mine`) and has been
-- dialled by it (`theirs`), both connections are open, and no other one to `peer` is.
pub record IsDoubleOpen (m : Mesh) (peer : DeviceId) (mine theirs : ℕ) : Type 0 where
  pub others : m.local ≢ peer
  pub distinct : mine ≢ theirs
  pub mine_open : m.open_handles mine ≡ true
  pub theirs_open : m.open_handles theirs ≡ true
  pub unregistered : get peer m ≡ none

module _ (m : Mesh) (peer : DeviceId) (mine theirs : ℕ) where
  abbrev pub dialled : Connection
  dialled = record { handle = mine; peer_id = peer; role = dialer }

  abbrev pub accepted : Connection
  accepted = record { handle = theirs; peer_id = peer; role = listener }

  -- The connection whose dialer has the lower device id, and the other one's handle.
  abbrev pub kept : Connection
  kept = if should_dial m peer then dialled else accepted

  abbrev pub dropped : ℕ
  dropped = if should_dial m peer then theirs else mine

  abbrev Settled : Mesh → Type 0
  Settled n = (get peer n ≡ some kept) × (n.open_handles dropped ≡ false)

  -- In either order of adoption the device keeps the connection whose dialer has the lower id, and
  -- closes the other one.
  pub settles :
      IsDoubleOpen m peer mine theirs
      → Settled (adopt accepted (adopt dialled m).1).1
        × Settled (adopt dialled (adopt accepted m).1).1
  unfolding should_dial dialer_of
  settles h = (
    ground (
      arith,
      second_adopted m dialled accepted refl h.distinct h.mine_open h.theirs_open h.unregistered,
      cmp_bytes_eq m.local peer,
    ),
    ground (
      arith,
      second_adopted m accepted dialled refl (λ e. h.distinct (sym e)) h.theirs_open h.mine_open
          h.unregistered,
      cmp_bytes_eq m.local peer,
      cmp_bytes_eq peer m.local,
      cmp_bytes_gt m.local peer,
      cmp_bytes_lt m.local peer,
    ),
  )

-- Two devices that dial each other at once keep the same connection, each by itself: `ours` is the
-- one that `a` dialled, `back` the one that `b` dialled, and each device adopts its own first.
pub ends_agree :
    (a b : Mesh) (ours back : ℕ)
    → IsDoubleOpen a b.local ours back
    → IsDoubleOpen b a.local back ours
    → (x : Connection) × (y : Connection) × (get b.local
          (adopt (accepted a b.local ours back) (adopt (dialled a b.local ours back) a).1).1
        ≡ some x)
      × (get a.local
            (adopt (accepted b a.local back ours) (adopt (dialled b a.local back ours) b).1).1
          ≡ some y)
      × (x.handle ≡ y.handle)
ends_agree a b ours back ha hb = (
  kept a b.local ours back,
  kept b a.local back ours,
  (settles a b.local ours back ha).0.0,
  (settles b a.local back ours hb).0.0,
  unfold should_dial in
      ground (
        arith,
        cmp_bytes_eq a.local b.local,
        cmp_bytes_gt a.local b.local,
        cmp_bytes_lt a.local b.local,
        ha.others,
      ),
)

-- Every entry stands under the id that its connection's key proves.
abbrev pub IsKeyed : List (DeviceId × Connection) → Type 0
IsKeyed [] = Unit {0}
IsKeyed ((id, conn) ∷ rest) = (conn.peer_id ≡ id) × IsKeyed rest

get-IsKeyed :
    (peer : DeviceId) (l : List (DeviceId × Connection)) (conn : Connection)
    → IsKeyed l
    → BTreeMap.get peer l ≡ some conn
    → conn.peer_id ≡ peer
unfolding BTreeMap.get
get-IsKeyed peer [] conn k h = cc
get-IsKeyed peer ((id, c) ∷ rest) conn k h =
    ground (arith, get-IsKeyed peer rest conn k.1, cmp_bytes_eq peer id)

insert-IsKeyed :
    (conn : Connection) (l : List (DeviceId × Connection))
    → IsKeyed l
    → IsKeyed (BTreeMap.insert conn.peer_id conn l)
unfolding BTreeMap.insert
insert-IsKeyed conn [] k = (refl, tt)
insert-IsKeyed conn ((id, c) ∷ rest) k = ground (arith, insert-IsKeyed conn rest k.1)

live-IsKeyed :
    (peer : DeviceId) (m : Mesh) (conn : Connection)
    → IsKeyed m.peers
    → get peer m ≡ some conn
    → conn.peer_id ≡ peer
unfolding get
live-IsKeyed peer m conn k h = ground (arith, get-IsKeyed peer m.peers conn k)

-- Adopting keeps the registry keyed, and answers with a connection to the same peer.
pub adopt-IsKeyed :
    (conn : Connection) (m : Mesh)
    → IsKeyed m.peers
    → IsKeyed (adopt conn m).1.peers × ((adopt conn m).0.peer_id ≡ conn.peer_id)
unfolding adopt register
adopt-IsKeyed conn m k = elim (Option-cases (get conn.peer_id m)) [
  | inl e ↦ ground (arith, insert-IsKeyed conn m.peers k)
  | inr (existing, e) ↦
      ground (arith, insert-IsKeyed conn m.peers k, live-IsKeyed conn.peer_id m existing k e)
]

module _ {Addr : Type 0} (dial : Addr → Result Connection) where
  dial_each-IsKeyed :
      (peer : DeviceId) (addrs : List Addr) (last : Error) (m : Mesh) (conn : Connection)
      → IsKeyed m.peers
      → (dial_each dial peer addrs last m).0 ≡ ok conn
      → (conn.peer_id ≡ peer) × IsKeyed (dial_each dial peer addrs last m).1.peers
  unfolding dial_each
  dial_each-IsKeyed peer [] last m conn k h = cc
  dial_each-IsKeyed peer (addr ∷ addrs) last m conn k h = elim (Result-cases (dial addr)) [
    | inr (e, failed) ↦ ground (arith, dial_each-IsKeyed peer addrs e m conn k)
    | inl (answer, dialled_it) ↦ ground (
      arith,
      adopt-IsKeyed answer m k,
      cmp_bytes_eq answer.peer_id peer,
      dial_each-IsKeyed peer addrs (stream other_identity) m conn k,
    )
  ]

  -- `connect` hands out a connection to the peer it was asked for and to no other, whatever devices
  -- answer at the addresses, and keeps the registry keyed.
  pub connect-IsKeyed :
      (peer : DeviceId) (addrs : List Addr) (m : Mesh) (conn : Connection)
      → IsKeyed m.peers
      → (connect dial peer addrs m).0 ≡ ok conn
      → (conn.peer_id ≡ peer) × IsKeyed (connect dial peer addrs m).1.peers
  unfolding connect
  connect-IsKeyed peer addrs m conn k h = elim (Option-cases (get peer m)) [
    | inl e ↦ ground (arith, dial_each-IsKeyed peer addrs (stream no_known_address) m conn k)
    | inr (live, e) ↦ ground (arith, live-IsKeyed peer m live k e)
  ]
