-- ===== src/Daemon/Startup/Worker/Looking.antt =====
-- crates/latticed/src/startup/worker.rs: which masters a worker looks for.
use mathlib.Core.Path.{subst}
use p2p_distributed_inferenc.Prelude.{
  ◌≡◌, refl, sym, ap, ◌∙◌, inl, inr, Bool, true, not, Option, none, some, List, [], ◌∷◌, retain,
  arith, Bool-cases, Option-cases,
}
use p2p_distributed_inferenc.Prelude.Order.{cmp_bytes_eq}
use p2p_distributed_inferenc.Prelude.Results.{ok, ◌>>=◌, bind-ok, guard, or_fail}
use p2p_distributed_inferenc.Net.Identity.{DeviceId}
use p2p_distributed_inferenc.Net.Discovery.{SocketAddr, DiscoveredPeer, PeerEvent}
use p2p_distributed_inferenc.Daemon.Startup.{same_id, connect}
use p2p_distributed_inferenc.Daemon.Startup.Target.{
  Target, WorkerOptions, Parsers, is_candidate, only, select_master, browse, chosen, looked_for,
  id_of, same_ids, find_target, look_for, this_device, browsing,
}

pub same_id-eq : (a b : DeviceId) → same_id a b ≡ true → a ≡ b
same_id-eq a b h = cmp_bytes_eq a b (ground arith)

retain_head :
    {A : Type 0} (q : A → Bool) (xs : List A) (x : A) (rest : List A)
    → retain q xs ≡ (x ∷ rest)
    → q x ≡ true
retain_head q [] x rest h = absurd cc
retain_head q (y ∷ xs) x rest h = elim (Bool-cases (q y)) [
  | inl e ↦ let it : y ≡ x = cc (rw e at h) in subst (λ z. q z ≡ true) it e
  | inr e ↦ retain_head q xs x rest (rw e at h)
]

pub only-some :
    (peers : List DiscoveredPeer) (peer : DiscoveredPeer)
    → only peers ≡ ok (some peer)
    → peers ≡ (peer ∷ [])
only-some [] peer h = absurd cc
only-some (first ∷ []) peer h = cc
only-some (first ∷ second ∷ rest) peer h = absurd cc

-- A master that is found for an id has that id.
select_master-wanted :
    (peers : List DiscoveredPeer) (id : DeviceId) (peer : DiscoveredPeer)
    → select_master peers (some id) ≡ ok (some peer)
    → peer.device_id ≡ id
unfolding select_master
select_master-wanted peers id peer h =
    let single = only-some (retain (is_candidate (some id)) peers) peer h in
    let passes = retain_head (is_candidate (some id)) peers peer [] single in
    same_id-eq peer.device_id id (ground (arith, passes))

pub connect-wanted :
    (dial : SocketAddr → Option DeviceId) (id conn : DeviceId) (addrs : List SocketAddr)
    → connect dial (some id) addrs ≡ some conn
    → conn ≡ id
unfolding connect
connect-wanted dial id conn [] h = absurd cc
connect-wanted dial id conn (addr ∷ addrs) h = elim (Option-cases (dial addr)) [
  | inl e ↦ connect-wanted dial id conn addrs (rw e at h)
  | inr (other, e) ↦ elim (Bool-cases (same_id other id)) [
    | inl same ↦ let it : other ≡ conn = cc (rw (e, same) at h) in sym it ∙ same_id-eq other id same
    | inr differs ↦ connect-wanted dial id conn addrs (rw (e, differs) at h)
  ]
]

module _ (p : Parsers) (options : WorkerOptions) (self_id : DeviceId) where
  chosen-id :
      (saved : Option Target) (id : DeviceId) (peers : List DiscoveredPeer)
      (o : Option DiscoveredPeer) (target : Target)
      → select_master peers (some id) ≡ ok o
      → chosen p options saved (some id) o ≡ some target
      → target.id ≡ some id
  chosen-id saved id peers (some peer) target found h =
      ap (λ (x : Option Target). id_of x) (sym h)
      ∙ ap some (select_master-wanted peers id peer found)
  chosen-id none id peers none target found h = absurd cc
  chosen-id (some t) id peers none target found h = by_id t.id refl
    where
      by_id : (o : Option DeviceId) → t.id ≡ o → target.id ≡ some id
      by_id none e = absurd (cc (rw e at h))
      by_id (some other) e = elim (Bool-cases (same_id other id)) [
        | inl same ↦
            let it : some (record t { id = some other }) ≡ some target = rw (e, same) at h in
            sym (ap (λ (x : Option Target). id_of x) it) ∙ ap some (same_id-eq other id same)
        | inr differs ↦ absurd (cc (rw (e, differs) at h))
      ]

  looked_for-id :
      (saved : Option Target) (id : DeviceId) (wanted : Option DeviceId)
      (events : Option (List PeerEvent)) (target : Target)
      → wanted ≡ some id
      → looked_for p options saved self_id events (look_for wanted) ≡ ok (some target)
      → target.id ≡ some id
  looked_for-id saved id wanted events target e h =
      let (u, mine, rest) =
        bind-ok (guard (not (same_ids wanted (some self_id))) this_device)
          (λ _. or_fail browsing events >>= (λ seen.
            select_master (browse self_id seen) wanted
            >>= (λ peer. ok (chosen p options saved wanted peer))))
          (some target) h in
      let (seen, at, found) =
        bind-ok (or_fail browsing events)
          (λ seen.
            select_master (browse self_id seen) wanted
            >>= (λ peer. ok (chosen p options saved wanted peer)))
          (some target) rest in
      let (o, selected, picked) =
        bind-ok (select_master (browse self_id seen) wanted)
          (λ peer. ok (chosen p options saved wanted peer)) (some target) found in
      let it : chosen p options saved (some id) o ≡ some target =
        ap (λ w. chosen p options saved w o) (sym e) ∙ cc (picked) in
      chosen-id saved id (browse self_id seen) o target
        (ap (select_master (browse self_id seen)) (sym e) ∙ selected) it

  -- A worker that remembers a master, and is not told of another one, looks for no other one.
  pub find_target-id :
      (saved : Option Target) (id : DeviceId) (events : Option (List PeerEvent)) (target : Target)
      → options.master ≡ none
      → id_of saved ≡ some id
      → find_target p options saved self_id events ≡ ok (some target)
      → target.id ≡ some id
  unfolding find_target
  find_target-id saved id events target unasked remembered h =
      looked_for-id saved id (id_of saved) events target remembered (rw unasked at h)
