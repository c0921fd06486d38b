-- ===== src/Net/Trust/Laws.antt =====
-- crates/lattice-net/src/trust.rs: whom a trust store trusts, its invariant and its file.
use p2p_distributed_inferenc.Prelude.{
  ℕ, ◌^◌, ◌<◌, ◌==◌, ltb, length, All, ◌≡◌, refl, Bool, true, false, Option, none, some, List, [],
  ◌∷◌, map, arith, if◌then◌else◌,
}
use p2p_distributed_inferenc.Prelude.Order.{bytes_ord, cmp_bytes, cmp_bytes_eq, is_eq}
use p2p_distributed_inferenc.Prelude.BTreeMap
use p2p_distributed_inferenc.Prelude.BTreeMap.{
  IsSorted, get-insert, get-remove, insert-IsSorted, remove-IsSorted, collect_entries,
  collect-IsSorted,
}
use p2p_distributed_inferenc.Net.Error.{Result, ok, err, or_fail, trust_store}
use p2p_distributed_inferenc.Prelude.Results.{bind-ok}
use p2p_distributed_inferenc.Net.Json.{number, string, numbers, value, field}
use p2p_distributed_inferenc.Net.Identity.{Crypto, DeviceId, from_public_key}
use p2p_distributed_inferenc.Net.Trust.{
  PairedPeer, TrustStore, all_bytes, object_of, id_at, key_at, string_at, u64_at, introduced_by_at,
  peer_of, peers_of, values, load, loaded, insert, remove, is_trusted,
}

module _ (c : Crypto) where
  abbrev id_of : c.Key → DeviceId
  id_of = from_public_key c

  -- Inserting a peer settles trust for the keys that share its device id, by the key alone, and
  -- leaves it as it was for all others, whether or not the file could be written.
  pub is_trusted-insert :
      (writable : Bool) (p : PairedPeer c) (s : TrustStore c) (key : c.Key)
      → is_trusted c key (insert c writable p s).1 ≡ (
          if is_eq (cmp_bytes (id_of key) p.device_id)
          then c.key_eq p.public_key key
          else is_trusted c key s)
  unfolding is_trusted insert
  is_trusted-insert writable p s key = ground (arith, get-insert p.device_id (id_of key) p s.peers)

  -- Removing a device revokes its key, and no other device's.
  pub is_trusted-remove :
      (writable : Bool) (id : DeviceId) (s : TrustStore c) (key : c.Key)
      → is_trusted c key (remove c writable id s).1
        ≡ (if is_eq (cmp_bytes (id_of key) id) then false else is_trusted c key s)
  unfolding is_trusted remove
  is_trusted-remove writable id s key =
      ground (arith, get-remove id (id_of key) s.peers, cmp_bytes_eq (id_of key) id)

  abbrev IsKeyed : List (DeviceId × PairedPeer c) → Type 0
  IsKeyed [] = Unit {0}
  IsKeyed ((k, p) ∷ m) = (k ≡ p.device_id) × IsKeyed m

  -- The map is in key order, and each peer stands under its own device id.
  pub record IsValid (s : TrustStore c) : Type 0 where
    pub sorted : IsSorted s.peers
    pub keyed : IsKeyed s.peers

  insert-IsKeyed :
      (p : PairedPeer c) (m : List (DeviceId × PairedPeer c))
      → IsKeyed m
      → IsKeyed (BTreeMap.insert p.device_id p m)
  unfolding BTreeMap.insert
  insert-IsKeyed p [] h = (refl, tt)
  insert-IsKeyed p ((k, q) ∷ m) h = ground (arith, insert-IsKeyed p m h.1)

  remove-IsKeyed :
      (id : DeviceId) (m : List (DeviceId × PairedPeer c))
      → IsKeyed m
      → IsKeyed (BTreeMap.remove id m)
  unfolding BTreeMap.remove
  remove-IsKeyed id [] h = tt
  remove-IsKeyed id ((k, q) ∷ m) h = ground (arith, remove-IsKeyed id m h.1)

  collect-IsKeyed :
      (m : List (DeviceId × PairedPeer c)) (saved : List (PairedPeer c))
      → IsKeyed m
      → IsKeyed (BTreeMap.collect m (map (λ p. (p.device_id, p)) saved))
  unfolding BTreeMap.collect
  collect-IsKeyed m [] h = h
  collect-IsKeyed m (p ∷ saved) h =
      collect-IsKeyed (BTreeMap.insert p.device_id p m) saved (insert-IsKeyed p m h)

  loaded-IsValid : (text : c.JsonText) (saved : List (PairedPeer c)) → IsValid (loaded c text saved)
  loaded-IsValid text saved = record {
    sorted = collect-IsSorted [] (map (λ p. (p.device_id, p)) saved) tt;
    keyed = collect-IsKeyed [] saved tt;
  }

  -- Whatever the file holds, the store that it is loaded into is valid.
  pub load-IsValid :
      (file : Result (Option c.JsonText)) (s : TrustStore c) → load c file ≡ ok s → IsValid s
  unfolding load
  load-IsValid (err e) s h = cc
  load-IsValid (ok none) s h =
      let same : record { peers = []; file = none } ≡ s = ground arith in
      rw (← same) (record { sorted = tt; keyed = tt })
  load-IsValid (ok (some text)) s h =
      let (objects, _, parsed) = bind-ok (or_fail trust_store (c.from_slice text)) _ s h in
      let (saved, _, e) = bind-ok (peers_of c objects) _ s parsed in
      let same : loaded c text saved ≡ s = ground arith in rw (← same) (loaded-IsValid text saved)

  peers-insert :
      (writable : Bool) (p : PairedPeer c) (s : TrustStore c)
      → (insert c writable p s).1.peers ≡ BTreeMap.insert p.device_id p s.peers
  unfolding insert
  peers-insert true p s = refl
  peers-insert false p s = refl

  pub insert-IsValid :
      (writable : Bool) (p : PairedPeer c) (s : TrustStore c)
      → IsValid s
      → IsValid (insert c writable p s).1
  insert-IsValid writable p s v = record {
    sorted = rw (peers-insert writable p s) (insert-IsSorted p.device_id p s.peers v.sorted);
    keyed = rw (peers-insert writable p s) (insert-IsKeyed p s.peers v.keyed);
  }

  pub remove-IsValid :
      (writable : Bool) (id : DeviceId) (s : TrustStore c)
      → IsValid s
      → IsValid (remove c writable id s).1
  unfolding remove
  remove-IsValid writable id s v =
      ground (arith, remove-IsSorted id s.peers v.sorted, remove-IsKeyed id s.peers v.keyed)

  rekeyed :
      (m : List (DeviceId × PairedPeer c))
      → IsKeyed m
      → map (λ p. (p.device_id, p)) (values c m) ≡ m
  rekeyed [] h = refl
  rekeyed ((k, p) ∷ m) h = ground (arith, rekeyed m h.1)

  -- The values that `[u8; 8]` and `u64` have.
  abbrev pub IsId : DeviceId → Type 0
  IsId id = (length id ≡ 8) × All (λ b. b < 256) id

  abbrev pub IsIdIfAny : Option DeviceId → Type 0
  IsIdIfAny none = Unit {0}
  IsIdIfAny (some id) = IsId id

  pub record IsPeer (p : PairedPeer c) : Type 0 where
    pub device_id : IsId p.device_id
    pub paired_at : p.paired_at < 2 ^ 64
    pub introduced_by : IsIdIfAny p.introduced_by

  all_bytes_lem : (bytes : List ℕ) → All (λ b. b < 256) bytes → all_bytes bytes ≡ true
  unfolding all_bytes
  all_bytes_lem [] h = refl
  all_bytes_lem (b ∷ bytes) (h, hs) = ground (arith, all_bytes_lem bytes hs)

  id_at-numbers : (id : DeviceId) → IsId id → id_at (value (numbers id)) ≡ ok id
  unfolding id_at
  id_at-numbers id (size, small) =
      let eight : (length id == 8) ≡ true = ground (arith, size) in
      rw (eight, all_bytes_lem id small) refl

  key_at-encode : (key : c.Key) → key_at c (value (string (c.encode (c.to_bytes key)))) ≡ ok key
  unfolding key_at
  key_at-encode key = rw (c.decode-encode key, c.from_bytes-to_bytes key) refl

  u64_at-number : (n : ℕ) → n < 2 ^ 64 → u64_at (value (number n)) ≡ ok n
  unfolding u64_at
  u64_at-number n h = let small : ltb n (2 ^ 64) ≡ true = ground (arith, h) in rw small refl

  -- The derived codecs are inverse to each other.
  pub peer_of-object_of : (p : PairedPeer c) → IsPeer p → peer_of c (object_of c p) ≡ ok p
  unfolding peer_of id_at field object_of string_at introduced_by_at
  peer_of-object_of p w = read_back p.introduced_by w.introduced_by
    where
      read_back :
          (by : Option DeviceId)
          → IsIdIfAny by
          → peer_of c (object_of c (record p { introduced_by = by }))
            ≡ ok (record p { introduced_by = by })
      read_back none h =
          rw
            (
              id_at-numbers p.device_id w.device_id,
              key_at-encode p.public_key,
              u64_at-number p.paired_at w.paired_at,
            )
            refl
      read_back (some by) h =
          rw
            (
              id_at-numbers p.device_id w.device_id,
              key_at-encode p.public_key,
              u64_at-number p.paired_at w.paired_at,
              id_at-numbers by h,
            )
            refl

  peers_of-map :
      (peers : List (PairedPeer c))
      → All IsPeer peers
      → peers_of c (map (object_of c) peers) ≡ ok peers
  unfolding peers_of
  peers_of-map [] h = refl
  peers_of-map (p ∷ peers) (h, hs) = rw (peer_of-object_of p h, peers_of-map peers hs) refl

  insert-IsPeer :
      (p : PairedPeer c) (m : List (DeviceId × PairedPeer c))
      → IsPeer p
      → All IsPeer (values c m)
      → All IsPeer (values c (BTreeMap.insert p.device_id p m))
  unfolding BTreeMap.insert
  insert-IsPeer p [] w h = (w, tt)
  insert-IsPeer p ((k, q) ∷ m) w h = ground (arith, insert-IsPeer p m w h.1)

  -- A pairing that was saved survives a restart: the file that it was written to is read and parsed,
  -- the keys by their hex digits, into the very same peers. What is stored has values of the fields'
  -- types.
  pub load-insert :
      (p : PairedPeer c) (s : TrustStore c)
      → IsValid s
      → IsPeer p
      → All IsPeer (values c s.peers)
      → (t : TrustStore c) × (load c (ok (insert c true p s).1.file) ≡ ok t)
        × (t.peers ≡ (insert c true p s).1.peers)
  unfolding load
  load-insert p s v w ws =
      let after = insert c true p s in
      let v' = insert-IsValid true p s v in
      let sound : All IsPeer (values c after.1.peers) =
        rw (peers-insert true p s) (insert-IsPeer p s.peers w ws) in
      let text = c.to_vec_pretty (map (object_of c) (values c after.1.peers)) in
      (
        loaded c text (values c after.1.peers),
        rw
            (
              written p s,
              c.from_slice-to_vec_pretty (map (object_of c) (values c after.1.peers)),
              peers_of-map (values c after.1.peers) sound,
            )
            refl,
        rw (rekeyed after.1.peers v'.keyed) (collect_entries after.1.peers v'.sorted),
      )
    where
      written :
          (p : PairedPeer c) (s : TrustStore c)
          → (insert c true p s).1.file
            ≡ some (c.to_vec_pretty (map (object_of c) (values c (insert c true p s).1.peers)))
      written p s = unfold insert in refl
