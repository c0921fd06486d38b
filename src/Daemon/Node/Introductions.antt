-- ===== src/Daemon/Node/Introductions.antt =====
-- crates/latticed/src/node.rs: how introductions change the trust store.
use p2p_distributed_inferenc.Prelude.{
  ap, ℕ, ◌+◌, ◌≡◌, refl, sym, ◌∙◌, ◌≢◌, ◌⊎◌, inl, inr, Bool, true, false, ◌||◌, none, some, List,
  [], ◌∷◌, arith, length, All, if◌then◌else◌, Bool-cases,
}
use p2p_distributed_inferenc.Prelude.Order.{
  bytes_ord, cmp_bytes, cmp_bytes_refl, cmp_bytes_eq, is_eq,
}
use p2p_distributed_inferenc.Prelude.BTreeMap.{get-insert}
use p2p_distributed_inferenc.Net.Error.{ok, Result-cases}
use p2p_distributed_inferenc.Net.Identity.{Crypto, DeviceId, from_public_key}
use p2p_distributed_inferenc.Net.Trust
use p2p_distributed_inferenc.Net.Trust.{PairedPeer, TrustStore, introduced}
use p2p_distributed_inferenc.Net.Control.{
  Response, provisioned, refused, not_paired, Introduction, introduction_of, into_peer,
}
use p2p_distributed_inferenc.Daemon.Node.{knows, accept_each, accept_introductions, roster_for}

module _ (c : Crypto) where
  -- Where a store's answer for `id` changed from `s` to `t`, the device was unknown, is not this one,
  -- and is recorded under the id of its key as introduced by `from`.
  abbrev pub Vouched : DeviceId → DeviceId → DeviceId → TrustStore c → TrustStore c → Type 0
  Vouched self from id s t =
      (Trust.get c id t ≡ Trust.get c id s)
      ⊎ ((Trust.get c id s ≡ none)
          × (id ≢ self)
          × (p : PairedPeer c) × (Trust.get c id t ≡ some p)
          × (p.introduced_by ≡ some from)
          × (from_public_key c p.public_key ≡ id))

  Vouched-trans :
      (self from id : DeviceId) (s t u : TrustStore c)
      → Vouched self from id s t
      → Vouched self from id t u
      → Vouched self from id s u
  Vouched-trans self from id s t u (inl e) (inl f) = inl (f ∙ e)
  Vouched-trans self from id s t u (inl e) (inr (a, b, p, d, g, h)) = inr (sym e ∙ a, b, p, d, g, h)
  Vouched-trans self from id s t u (inr (a, b, p, d, g, h)) (inl f) = inr (a, b, p, f ∙ d, g, h)
  Vouched-trans self from id s t u (inr (a, b, p, d, g, h)) (inr (a', b', p', d', g', h')) = cc

  get-insert_peer :
      (writable : Bool) (p : PairedPeer c) (s : TrustStore c) (id : DeviceId)
      → Trust.get c id (Trust.insert c writable p s).1
        ≡ (if is_eq (cmp_bytes id p.device_id) then some p else Trust.get c id s)
  unfolding Trust.get Trust.insert
  get-insert_peer true p s id = get-insert p.device_id id p s.peers
  get-insert_peer false p s id = get-insert p.device_id id p s.peers

  -- What `into_peer` makes of an introduction.
  into_peer_facts :
      (now : ℕ) (from : DeviceId) (i : Introduction) (p : PairedPeer c)
      → into_peer c now from i ≡ ok p
      → (p.introduced_by ≡ some from) × (from_public_key c p.public_key ≡ p.device_id)
  unfolding into_peer introduced
  into_peer_facts now from i p h = ground arith

  new_or_known :
      (self id : DeviceId) (s : TrustStore c)
      → (is_eq (cmp_bytes id self) || knows c id s) ≡ false
      → (id ≢ self) × (Trust.get c id s ≡ none)
  unfolding knows
  new_or_known self id s h = ((λ e. ground (arith, cmp_bytes_refl id)), ground arith)

  module _ (writable : Bool) (now : ℕ) (others : ℕ → TrustStore c → TrustStore c)
      (self from : DeviceId) where
    insert-Vouched :
        (i : Introduction) (p : PairedPeer c) (s t : TrustStore c) (id : DeviceId)
        → into_peer c now from i ≡ ok p
        → (is_eq (cmp_bytes p.device_id self) || knows c p.device_id s) ≡ false
        → Trust.get c id t ≡ Trust.get c id s
        → Vouched self from id s (Trust.insert c writable p t).1
    insert-Vouched i p s t id made new quiet =
        let (by, keyed) = into_peer_facts now from i p made in
        let (ne, unknown) = new_or_known self p.device_id s new in
        elim (Bool-cases (is_eq (cmp_bytes id p.device_id))) [
          | inr other ↦ inl (get-insert_peer writable p t id ∙ rw other quiet)
          | inl hit ↦
              let e : id ≡ p.device_id = ground (arith, cmp_bytes_eq id p.device_id) in
              inr
                (rw e unknown, rw e ne, p, get-insert_peer writable p t id ∙ rw hit, by, rw e keyed)
        ]

    -- Nobody else writes the record of the id while the call runs.
    abbrev pub Untouched : DeviceId → Type 0
    Untouched id = (n : ℕ) (u : TrustStore c) → Trust.get c id (others n u) ≡ Trust.get c id u

    Untouched-Vouched :
        (id : DeviceId) (n : ℕ) (s t : TrustStore c)
        → Untouched id
        → Vouched self from id (others n s) t
        → Vouched self from id s t
    Untouched-Vouched id n s t quiet v = rw quiet at v

    accept_each-Vouched :
        (n added known : ℕ) (peers : List Introduction) (s : TrustStore c) (id : DeviceId)
        → Untouched id
        → Vouched self from id s
            (accept_each c writable now others self from n added known peers s).1
    unfolding accept_each
    accept_each-Vouched n added known [] s id quiet = inl refl
    accept_each-Vouched n added known (i ∷ rest) s id quiet =
        elim (Result-cases (into_peer c now from i)) [
          | inr (e, bad) ↦ rw (bad, accept_each) (inl refl)
          | inl (p, made) ↦
              let seen = others n s in
              let locked = others (n + 1) seen in
              elim (Bool-cases (is_eq (cmp_bytes p.device_id self) || knows c p.device_id seen)) [
                | inl old ↦
                    rw (made, accept_each)
                      (rw old (
                        Untouched-Vouched id n s _ quiet
                          (accept_each-Vouched (n + 2) added (known + 1) rest seen id quiet)))
                | inr new ↦
                    let step = insert-Vouched i p seen locked id made new (quiet (n + 1) seen) in
                    elim (Result-cases (Trust.insert c writable p locked).0) [
                      | inr (e, failed) ↦
                          rw (made, accept_each)
                            (rw new (rw failed (Untouched-Vouched id n s _ quiet step)))
                      | inl (_, saved) ↦
                          let tail =
                            accept_each-Vouched (n + 2) (added + 1) known rest
                              (Trust.insert c writable p locked).1 id quiet in
                          rw (made, accept_each)
                            (rw new (
                              rw saved (
                                Untouched-Vouched id n s _ quiet (
                                  Vouched-trans self from id seen
                                    (Trust.insert c writable p locked).1 _ step tail))))
                    ]
              ]
        ]

    -- Introductions never replace or remove what a device knows of another one, as long as no other
    -- task writes the record of that device while the call runs: where the answer for its id changed,
    -- the id was unknown, is not the device's own, and now stands for a key of that id, recorded as
    -- introduced by the sender. This holds for failing calls too. The other tasks may do anything to
    -- the other records.
    pub accept_introductions-Vouched :
        (peers : List Introduction) (s : TrustStore c) (id : DeviceId)
        → Untouched id
        → Vouched self from id s (accept_introductions c writable now others self from peers s).1
    unfolding accept_introductions
    accept_introductions-Vouched peers s id quiet = elim (Bool-cases (knows c from s)) [
      | inl trusted ↦ rw trusted (accept_each-Vouched 0 0 0 peers s id quiet)
      | inr stranger ↦ rw stranger (inl refl)
    ]

    -- A stranger is refused, and changes nothing.
    pub stranger_refused :
        (peers : List Introduction) (s : TrustStore c)
        → knows c from s ≡ false
        → accept_introductions c writable now others self from peers s ≡ (refused not_paired, s)
    unfolding accept_introductions
    stranger_refused peers s h = rw h

  pub knows-insert :
      (p : PairedPeer c) (s : TrustStore c) (id : DeviceId)
      → knows c id s ≡ true
      → knows c id (Trust.insert c true p s).1 ≡ true
  unfolding knows
  knows-insert p s id h = ground (arith, get-insert_peer true p s id)

  knows-insert_self :
      (p : PairedPeer c) (s : TrustStore c) → knows c p.device_id (Trust.insert c true p s).1 ≡ true
  unfolding knows
  knows-insert_self p s =
      ground (arith, get-insert_peer true p s p.device_id, cmp_bytes_refl p.device_id)

  insert_saves : (p : PairedPeer c) (s : TrustStore c) → (Trust.insert c true p s).0 ≡ ok tt
  unfolding Trust.insert
  insert_saves p s = refl

  -- An introduction made from a peer whose id is that of its key names that peer.
  into_peer-introduction_of :
      (now : ℕ) (from : DeviceId) (p : PairedPeer c)
      → from_public_key c p.public_key ≡ p.device_id
      → (q : PairedPeer c) × (into_peer c now from (introduction_of c p) ≡ ok q)
        × (q.device_id ≡ p.device_id)
  unfolding into_peer introduction_of introduced
  into_peer-introduction_of now from p keyed = (
    introduced c p.public_key p.name p.platform now from,
    rw (c.from_bytes-to_bytes p.public_key, into_peer),
    keyed,
  )

  knows_of_Vouched :
      (self from id : DeviceId) (s t : TrustStore c)
      → Vouched self from id s t
      → knows c id s ≡ true
      → knows c id t ≡ true
  unfolding knows
  knows_of_Vouched self from id s t v h = ground arith

  module _ (now : ℕ) (others : ℕ → TrustStore c → TrustStore c)
      (keep : (n : ℕ) (u : TrustStore c) (id : DeviceId)
        → knows c id u ≡ true
        → knows c id (others n u) ≡ true)
      (self from : DeviceId) where
    abbrev outcome : ℕ → ℕ → ℕ → List (PairedPeer c) → TrustStore c → Response × TrustStore c
    outcome n added known all s =
        accept_each c true now others self from n added known (roster_for c self all) s

    -- The call accepts the whole roster, and its store knows every device of it but the caller's own.
    abbrev Provisions : ℕ → ℕ → ℕ → List (PairedPeer c) → TrustStore c → Type 0
    Provisions n added known all s =
        (a : ℕ) × (b : ℕ) × (t : TrustStore c) × (outcome n added known all s
          ≡ (provisioned a b, t))
        × (a + b ≡ added + known + length (roster_for c self all))
        × All (λ p. (p.device_id ≡ self) ⊎ (knows c p.device_id t ≡ true)) all

    accept_each-knows :
        (n added known : ℕ) (peers : List Introduction) (s : TrustStore c) (id : DeviceId)
        → knows c id s ≡ true
        → knows c id (accept_each c true now others self from n added known peers s).1 ≡ true
    unfolding accept_each
    accept_each-knows n added known [] s id h = h
    accept_each-knows n added known (i ∷ rest) s id h =
        let seen = others n s in
        let locked = others (n + 1) seen in
        let h' = keep n s id h in
        elim (Result-cases (into_peer c now from i)) [
          | inr (e, bad) ↦ rw (bad, accept_each) h
          | inl (p, made) ↦
              elim (Bool-cases (is_eq (cmp_bytes p.device_id self) || knows c p.device_id seen)) [
                | inl old ↦
                    rw (made, accept_each)
                      (rw old (accept_each-knows (n + 2) added (known + 1) rest seen id h'))
                | inr new ↦
                    rw (made, accept_each)
                      (rw new (
                        rw (insert_saves p locked) (
                          accept_each-knows (n + 2) (added + 1) known rest
                            (Trust.insert c true p locked).1 id
                            (knows-insert p locked id (keep (n + 1) seen id h')))))
              ]
        ]

    known_at_end :
        (n added known : ℕ) (all : List (PairedPeer c)) (s t : TrustStore c) (r : Response)
        (id : DeviceId)
        → outcome n added known all s ≡ (r, t)
        → knows c id s ≡ true
        → knows c id t ≡ true
    known_at_end n added known all s t r id e h =
        rw (← ap (λ x. x.1) e) (accept_each-knows n added known (roster_for c self all) s id h)

    self_or_known :
        (id : DeviceId) (s : TrustStore c)
        → (is_eq (cmp_bytes id self) || knows c id s) ≡ true
        → (id ≡ self) ⊎ (knows c id s ≡ true)
    self_or_known id s h = elim (Bool-cases (is_eq (cmp_bytes id self))) [
      | inl me ↦ inl (ground (arith, cmp_bytes_eq id self))
      | inr other ↦ inr (rw other at h)
    ]

    roster_self :
        (p : PairedPeer c) (all : List (PairedPeer c))
        → is_eq (cmp_bytes p.device_id self) ≡ true
        → roster_for c self (p ∷ all) ≡ roster_for c self all
    unfolding roster_for
    roster_self p all h = rw h

    roster_other :
        (p : PairedPeer c) (all : List (PairedPeer c))
        → is_eq (cmp_bytes p.device_id self) ≡ false
        → roster_for c self (p ∷ all) ≡ introduction_of c p ∷ roster_for c self all
    unfolding roster_for
    roster_other p all h = rw h

    accept_each_old :
        (n added known : ℕ) (i : Introduction) (rest : List Introduction) (s : TrustStore c)
        (q : PairedPeer c)
        → into_peer c now from i ≡ ok q
        → (is_eq (cmp_bytes q.device_id self) || knows c q.device_id (others n s)) ≡ true
        → accept_each c true now others self from n added known (i ∷ rest) s
          ≡ accept_each c true now others self from (n + 2) added (known + 1) rest (others n s)
    unfolding accept_each
    accept_each_old n added known i rest s q made old = rw (made, accept_each) (rw old)

    accept_each_new :
        (n added known : ℕ) (i : Introduction) (rest : List Introduction) (s : TrustStore c)
        (q : PairedPeer c)
        → into_peer c now from i ≡ ok q
        → (is_eq (cmp_bytes q.device_id self) || knows c q.device_id (others n s)) ≡ false
        → accept_each c true now others self from n added known (i ∷ rest) s
          ≡ accept_each c true now others self from
              (n + 2)
              (added + 1)
              known
              rest
              (Trust.insert c true q (others (n + 1) (others n s))).1
    unfolding accept_each
    accept_each_new n added known i rest s q made new =
        rw (made, accept_each) (rw new (rw (insert_saves q (others (n + 1) (others n s)))))

    roster_Provisions :
        (n added known : ℕ) (all : List (PairedPeer c)) (s : TrustStore c)
        → All (λ p. from_public_key c p.public_key ≡ p.device_id) all
        → Provisions n added known all s
    roster_Provisions n added known [] s keyed = (
      added,
      known,
      s,
      unfold accept_each roster_for in refl,
      unfold roster_for in omega arith,
      tt,
    )
    roster_Provisions n added known (p ∷ all) s (k, keyed) =
        elim (Bool-cases (is_eq (cmp_bytes p.device_id self))) [
          | inl me ↦
              let (a, b, t, e, count, found) = roster_Provisions n added known all s keyed in
              (
                a,
                b,
                t,
                rw (roster_self p all me) e,
                rw (roster_self p all me) count,
                (inl (ground (arith, cmp_bytes_eq p.device_id self)), found),
              )
          | inr other ↦
              let (q, made, same) = into_peer-introduction_of now from p k in
              let i = introduction_of c p in
              let seen = others n s in
              elim (Bool-cases (is_eq (cmp_bytes q.device_id self) || knows c q.device_id seen)) [
                | inl old ↦
                    let (a, b, t, e, count, found) =
                      roster_Provisions (n + 2) added (known + 1) all seen keyed in
                    (
                      a,
                      b,
                      t,
                      rw (roster_other p all other) (
                          accept_each_old n added known i (roster_for c self all) s q made old ∙ e),
                      rw (roster_other p all other) (omega (arith, count)),
                      (
                        rw (← same) (elim (self_or_known q.device_id seen old) [
                          | inl me ↦ inl me
                          | inr h ↦
                              inr (
                                known_at_end (n + 2) added (known + 1) all seen t _ q.device_id e h)
                        ]),
                        found,
                      ),
                    )
                | inr new ↦
                    let locked = others (n + 1) seen in
                    let s' = (Trust.insert c true q locked).1 in
                    let (a, b, t, e, count, found) =
                      roster_Provisions (n + 2) (added + 1) known all s' keyed in
                    (
                      a,
                      b,
                      t,
                      rw (roster_other p all other) (
                          accept_each_new n added known i (roster_for c self all) s q made new ∙ e),
                      rw (roster_other p all other) (omega (arith, count)),
                      (
                        rw (← same) (
                            inr (
                              known_at_end (n + 2) (added + 1) known all s' t _ q.device_id e
                                (knows-insert_self q locked))),
                        found,
                      ),
                    )
              ]
        ]

    -- A device that knows the sender, and can write its trust file, accepts the sender's whole roster:
    -- the counts it answers with add up to the roster, and afterwards it knows every device that the
    -- sender listed, itself apart. The listed devices carry the ids of their keys, and no other task
    -- removes a device while the call runs.
    pub roster_provisions :
        (all : List (PairedPeer c)) (s : TrustStore c)
        → knows c from s ≡ true
        → All (λ p. from_public_key c p.public_key ≡ p.device_id) all
        → (a : ℕ) × (b : ℕ) × (t : TrustStore c) × (accept_introductions c true now others self from
              (roster_for c self all)
              s
            ≡ (provisioned a b, t))
          × (a + b ≡ length (roster_for c self all))
          × All (λ p. (p.device_id ≡ self) ⊎ (knows c p.device_id t ≡ true)) all
    unfolding accept_introductions
    roster_provisions all s trusted keyed =
        let (a, b, t, e, count, found) = roster_Provisions 0 0 0 all s keyed in
        (a, b, t, rw trusted e, omega (arith, count), found)
