-- ===== src/Daemon/Startup/Worker/Restart.antt =====
-- crates/latticed/src/startup/worker.rs: what a worker saves it can read when it starts again.
use mathlib.Core.Path.{subst}
use p2p_distributed_inferenc.Prelude.{
  ℕ, ◌≡◌, ◌≢◌, refl, ap, ◌∙◌, inl, inr, map, Bool, not, Option, none, some, List, [], ◌∷◌, All,
  retain, arith, Bool-cases, Option-cases,
}
use Prim.Native.Nat.{Ordering}
use p2p_distributed_inferenc.Prelude.Order.{bytes_ord, cmp_bytes, is_eq}
use p2p_distributed_inferenc.Prelude.BTreeMap
use p2p_distributed_inferenc.Prelude.Results.{ok, ◌>>=◌, guard, or_fail, bind-ok}
use p2p_distributed_inferenc.Net.Identity.{DeviceId}
use p2p_distributed_inferenc.Net.Discovery.{
  Text, SocketAddr, DiscoveredPeer, PeerEvent, found, lost,
}
use p2p_distributed_inferenc.Daemon.Startup.{same_id}
use p2p_distributed_inferenc.Daemon.Startup.Target.{
  Target, WorkerOptions, Parsers, this_device, browsing, look_for, is_candidate, select_master,
  browse_from, browse, target_of, chosen, id_of, same_ids, unwrap_or, looked_for, requested,
  by_text, find_target, explicit_address, checked_addr, id_at, is_bad, or_ip,
}
use p2p_distributed_inferenc.Daemon.Startup.Worker.Looking.{only-some}
use p2p_distributed_inferenc.Daemon.Startup.Worker.Saved.{IsDialable, usable-AtPort}

-- What discovery.rs makes of a record: one port for all addresses, and no pairing port that is 0.
abbrev pub IsRecord : DiscoveredPeer → Type 0
IsRecord peer =
    (peer.pairing_port ≢ some 0) × (port : ℕ) × All (λ (a : SocketAddr). a.port ≡ port) peer.addrs

abbrev pub IsRecorded : PeerEvent → Type 0
IsRecorded (found peer) = IsRecord peer
IsRecorded (lost id) = Unit {0}

abbrev Recorded : List (DeviceId × DiscoveredPeer) → Type 0
Recorded peers = All (λ e. IsRecord e.1) peers

insert-Recorded :
    (id : DeviceId) (peer : DiscoveredPeer) (peers : List (DeviceId × DiscoveredPeer))
    → IsRecord peer
    → Recorded peers
    → Recorded (BTreeMap.insert id peer peers)
unfolding BTreeMap.insert
insert-Recorded id peer [] h hs = (h, tt)
insert-Recorded id peer ((k, p) ∷ peers) h (g, gs) =
    let ih = insert-Recorded id peer peers h gs in
    elim (cmp_bytes id k)
      as (λ o. Recorded (elim o [
        | Ordering.lt ↦ (id, peer) ∷ (k, p) ∷ peers
        | Ordering.eq ↦ (id, peer) ∷ peers
        | Ordering.gt ↦ (k, p) ∷ BTreeMap.insert id peer peers
      ])) [ Ordering.lt ↦ (h, (g, gs)) | Ordering.eq ↦ (h, gs) | Ordering.gt ↦ (g, ih) ]

remove-Recorded :
    (id : DeviceId) (peers : List (DeviceId × DiscoveredPeer))
    → Recorded peers
    → Recorded (BTreeMap.remove id peers)
unfolding BTreeMap.remove
remove-Recorded id [] h = tt
remove-Recorded id ((k, p) ∷ peers) (h, hs) =
    let ih = remove-Recorded id peers hs in
    elim (Bool-cases (is_eq (cmp_bytes id k))) [ inl e ↦ rw e ih | inr e ↦ rw e (h, ih) ]

browse_from-Recorded :
    (self_id : DeviceId) (events : List PeerEvent) (peers : List (DeviceId × DiscoveredPeer))
    → All IsRecorded events
    → Recorded peers
    → Recorded (browse_from self_id peers events)
unfolding browse_from
browse_from-Recorded self_id [] peers h g = g
browse_from-Recorded self_id (found peer ∷ events) peers (h, hs) g =
    elim (Bool-cases (same_id peer.device_id self_id)) [
      | inl own ↦ rw own (browse_from-Recorded self_id events peers hs g)
      | inr other ↦ rw other (
          browse_from-Recorded self_id events (BTreeMap.insert peer.device_id peer peers) hs
            (insert-Recorded peer.device_id peer peers h g))
    ]
browse_from-Recorded self_id (lost id ∷ events) peers (h, hs) g =
    browse_from-Recorded self_id events (BTreeMap.remove id peers) hs (remove-Recorded id peers g)

browse-IsRecord :
    (peers : List (DeviceId × DiscoveredPeer))
    → Recorded peers
    → All IsRecord (map (λ e. e.1) peers)
browse-IsRecord [] h = tt
browse-IsRecord ((k, p) ∷ peers) (h, hs) = (h, browse-IsRecord peers hs)

browsed :
    (self_id : DeviceId) (events : List PeerEvent)
    → All IsRecorded events
    → All IsRecord (browse self_id events)
unfolding browse
browsed self_id events h =
    browse-IsRecord (browse_from self_id [] events) (browse_from-Recorded self_id events [] h tt)

retain-All :
    {A : Type 0} (P : A → Type 0) (q : A → Bool) (xs : List A) → All P xs → All P (retain q xs)
retain-All P q [] h = tt
retain-All P q (x ∷ xs) (h, hs) = elim (Bool-cases (q x)) [
  | inl e ↦ rw e (h, retain-All P q xs hs)
  | inr e ↦ rw e (retain-All P q xs hs)
]

select_master-IsRecord :
    (peers : List DiscoveredPeer) (wanted : Option DeviceId) (peer : DiscoveredPeer)
    → All IsRecord peers
    → select_master peers wanted ≡ ok (some peer)
    → IsRecord peer
unfolding select_master
select_master-IsRecord peers wanted peer h e =
    let single = only-some (retain (is_candidate wanted) peers) peer e in
    (subst (All IsRecord) single (retain-All IsRecord (is_candidate wanted) peers h)).0

abbrev pub IsHeard : Option (List PeerEvent) → Type 0
IsHeard none = Unit {0}
IsHeard (some events) = All IsRecorded events

abbrev pub IsRemembered : Option Target → Type 0
IsRemembered none = Unit {0}
IsRemembered (some target) = IsDialable target

module _ (p : Parsers) (options : WorkerOptions) (self_id : DeviceId)
    (pairs : options.pairing_port ≢ 0) where
  chosen-IsDialable :
      (saved : Option Target) (wanted : Option DeviceId) (o : Option DiscoveredPeer)
      (target : Target)
      → IsRemembered saved
      → ((peer : DiscoveredPeer) → o ≡ some peer → IsRecord peer)
      → chosen p options saved wanted o ≡ some target
      → IsDialable target
  chosen-IsDialable saved wanted (some peer) target h recorded e =
      let (nonzero, port, at) = recorded peer refl in
      let it : target_of p options peer ≡ target = cc in
      subst IsDialable it
        (ported peer.pairing_port nonzero, port, usable-AtPort p.is_loopback port peer.addrs at)
    where
      ported : (o : Option ℕ) → o ≢ some 0 → unwrap_or o options.pairing_port ≢ 0
      ported none h = pairs
      ported (some n) h = λ zero. h (ap some zero)
  chosen-IsDialable none wanted none target h recorded e = absurd cc
  chosen-IsDialable (some t) wanted none target h recorded e =
      elim (Bool-cases (same_ids t.id wanted)) [
        | inl same ↦ let it : t ≡ target = cc (simp same at e) in subst IsDialable it h
        | inr differs ↦ absurd (cc (simp differs at e))
      ]

  looked_for-IsDialable :
      (saved : Option Target) (wanted : Option DeviceId) (events : Option (List PeerEvent))
      (target : Target)
      → IsRemembered saved
      → IsHeard events
      → looked_for p options saved self_id events (look_for wanted) ≡ ok (some target)
      → IsDialable target
  looked_for-IsDialable saved wanted events target h heard e =
      let (u, mine, rest) =
        bind-ok (guard (not (same_ids wanted (some self_id))) this_device)
          (λ _. or_fail browsing events >>= (λ seen.
            select_master (browse self_id seen) wanted
            >>= (λ peer. ok (chosen p options saved wanted peer))))
          (some target) e in
      by_events events heard rest
    where
      by_events :
          (o : Option (List PeerEvent))
          → IsHeard o
          → (or_fail browsing o >>= (λ seen.
              select_master (browse self_id seen) wanted
              >>= (λ peer. ok (chosen p options saved wanted peer))))
            ≡ ok (some target)
          → IsDialable target
      by_events none g k = absurd cc
      by_events (some seen) g k =
          let (o, selected, picked) =
            bind-ok (select_master (browse self_id seen) wanted)
              (λ peer. ok (chosen p options saved wanted peer)) (some target) k in
          chosen-IsDialable saved wanted o target h
            (λ peer at.
              select_master-IsRecord (browse self_id seen) wanted peer (browsed self_id seen g)
                (selected ∙ ap ok at))
            cc

  -- The target that a round finds can be dialled and saved.
  pub find_target-IsDialable :
      (saved : Option Target) (events : Option (List PeerEvent)) (target : Target)
      → IsRemembered saved
      → IsHeard events
      → find_target p options saved self_id events ≡ ok (some target)
      → IsDialable target
  unfolding find_target explicit_address
  find_target-IsDialable saved events target h heard e = by_master options.master e
    where
      by_addr :
          (text : Text) (addr : Option SocketAddr)
          → (checked_addr p addr
              >>= by_text p options saved text
              >>= looked_for p options saved self_id events)
            ≡ ok (some target)
          → IsDialable target
      by_addr text none k = elim (Option-cases (p.device_id text)) [
        | inl e ↦ absurd (cc (rw e at k))
        | inr (id, e) ↦ looked_for-IsDialable saved (some id) events target h heard (rw e at k)
      ]
      by_addr text (some addr) k = elim (Bool-cases (is_bad p addr)) [
        | inl e ↦ absurd (cc (rw e at k))
        | inr e ↦
            let it : ◌≡◌ {A = Target}
                (record {
                  id = id_at p addr saved;
                  addrs = addr ∷ [];
                  pairing_port = options.pairing_port;
                })
                target =
              cc (rw e at k) in
            subst IsDialable it (pairs, addr.port, ((ground (arith, e), refl), tt))
      ]

      by_master :
          (m : Option Text)
          → (requested p options saved m >>= looked_for p options saved self_id events)
            ≡ ok (some target)
          → IsDialable target
      by_master none k = looked_for-IsDialable saved (id_of saved) events target h heard k
      by_master (some text) k = by_addr text (or_ip p (p.socket_addr text) (p.ipv4 text)) k
