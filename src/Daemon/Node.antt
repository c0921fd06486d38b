-- ===== src/Daemon/Node.antt =====
-- crates/latticed/src/node.rs: the introductions that a device accepts and hands out. `writable` says
-- whether the trust file can be written, `now` is the clock.
pub mod Introductions
pub mod Shard
pub mod Requests
mod Examples
use p2p_distributed_inferenc.Prelude.{
  ℕ, ◌+◌, Bool, true, false, not, ◌||◌, Option, none, some, List, [], ◌∷◌, map, retain,
  if◌then◌else◌,
}
use p2p_distributed_inferenc.Prelude.Order.{cmp_bytes, is_eq}
use p2p_distributed_inferenc.Net.Error.{Result, ok, err}
use p2p_distributed_inferenc.Net.Identity.{Crypto, DeviceId}
use p2p_distributed_inferenc.Net.Trust
use p2p_distributed_inferenc.Net.Trust.{PairedPeer, TrustStore}
use p2p_distributed_inferenc.Net.Control.{
  Response, provisioned, refused, not_paired, unusable_introduction, not_recorded, Introduction,
  introduction_of, into_peer,
}

module _ (c : Crypto) where
  abbrev is_some : Option (PairedPeer c) → Bool
  is_some none = false
  is_some (some p) = true

  unfoldable pub knows : DeviceId → TrustStore c → Bool
  knows id s = is_some (Trust.get c id s)

  -- The lock of the store is given up between two introductions, and between the check of one and its
  -- record: `others n` is what the other tasks do to the store at the `n`-th of these moments.
  module _ (writable : Bool) (now : ℕ) (others : ℕ → TrustStore c → TrustStore c)
      (self from : DeviceId) where
    -- The loop over the introductions, from the counts so far.
    pub accept_each : ℕ → ℕ → ℕ → List Introduction → TrustStore c → Response × TrustStore c
    accept_each n added already_known [] s = (provisioned added already_known, s)
    accept_each n added already_known (i ∷ rest) s = elim (into_peer c now from i) [
      | err e ↦ (refused unusable_introduction, s)
      | ok peer ↦
          elim (is_eq (cmp_bytes peer.device_id self) || knows peer.device_id (others n s)) [
            | true ↦ accept_each (n + 2) added (already_known + 1) rest (others n s)
            | false ↦ elim (Trust.insert c writable peer (others (n + 1) (others n s))).0 [
              | err e ↦ (
                refused not_recorded,
                (Trust.insert c writable peer (others (n + 1) (others n s))).1,
              )
              | ok _ ↦
                  accept_each (n + 2) (added + 1) already_known rest
                    (Trust.insert c writable peer (others (n + 1) (others n s))).1
            ]
          ]
    ]

    pub accept_introductions : List Introduction → TrustStore c → Response × TrustStore c
    accept_introductions peers s =
        if not (knows from s) then (refused not_paired, s) else accept_each 0 0 0 peers s

  -- Everyone but the target.
  pub roster_for : DeviceId → List (PairedPeer c) → List Introduction
  roster_for target all =
      map (introduction_of c) (retain (λ peer. not (is_eq (cmp_bytes peer.device_id target))) all)
