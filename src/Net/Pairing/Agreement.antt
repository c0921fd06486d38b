-- ===== src/Net/Pairing/Agreement.antt =====
-- crates/lattice-net/src/pairing.rs: the two sides of an exchange.
use Prim.Native.String.{String}
use p2p_distributed_inferenc.Prelude.{
  ℕ, ◌≡◌, refl, sym, ◌≢◌, inl, inr, false, none, some, List, arith, Bool-cases, Option-cases,
}
use p2p_distributed_inferenc.Prelude.Order.{
  cmp_bytes, cmp_bytes_refl, cmp_bytes_eq, cmp_bytes_gt, cmp_bytes_lt, is_eq,
}
use p2p_distributed_inferenc.Net.Error.{Result, ok, err, pairing_reflected}
use p2p_distributed_inferenc.Net.Identity.{Crypto, from_public_key}
use p2p_distributed_inferenc.Net.Trust.{PairedPeer, paired}
use p2p_distributed_inferenc.Net.Pairing.{
  Confirm, ConfirmBody, Exchange, pairing_context, confirm_label, Pairing, AwaitingConfirm, start,
  derive, tag, transcript_of, key_exchange, finish,
}

module _ (c : Crypto) (x : Exchange) where
  transcript_symmetric :
      (a b binding : List ℕ) → transcript_of c x a b binding ≡ transcript_of c x b a binding
  unfolding transcript_of
  transcript_symmetric a b binding =
      ground (arith, cmp_bytes_eq a b, cmp_bytes_gt a b, cmp_bytes_lt a b)

  abbrev body_of : c.Key → String → String → ConfirmBody
  body_of key name platform = record {
    public_key = c.to_bytes key;
    name = name;
    platform = platform;
  }

  abbrev awaiting : Pairing c x → List ℕ → c.Key → List ℕ → AwaitingConfirm c x
  awaiting s peer_message key shared = record {
    mac_key = derive c x shared confirm_label;
    transcript = transcript_of c x s.ours peer_message s.channel_binding;
    our_public_key = key;
  }

  abbrev confirmation : AwaitingConfirm c x → List ℕ → Confirm
  confirmation w bytes = record { body = bytes; mac = tag c x w.mac_key w.transcript bytes }

  key_exchange_ok :
      (s : Pairing c x) (peer_message shared bytes : List ℕ) (key : c.Key) (name platform : String)
      → peer_message ≢ s.ours
      → x.finish_spake s.spake peer_message ≡ some shared
      → x.to_postcard (body_of key name platform) ≡ some bytes
      → key_exchange c x s peer_message key name platform
        ≡ ok (
          awaiting s peer_message key shared,
          confirmation (awaiting s peer_message key shared) bytes,
        )
  unfolding key_exchange
  key_exchange_ok s peer_message shared bytes key name platform ne agreed encoded =
      let other : is_eq (cmp_bytes peer_message s.ours) ≡ false =
        ground (arith, cmp_bytes_eq peer_message s.ours) in
      rw (other, agreed, encoded)

  finish_ok :
      (now : ℕ) (w : AwaitingConfirm c x) (key : c.Key) (name platform : String) (bytes : List ℕ)
      → x.to_postcard (body_of key name platform) ≡ some bytes
      → key ≢ w.our_public_key
      → finish c x now w (confirmation w bytes) ≡ ok (paired c key name platform now)
  unfolding finish
  finish_ok now w key name platform bytes encoded ne =
      let other : c.key_eq key w.our_public_key ≡ false =
        ground (arith, c.key_eq_iff key w.our_public_key) in
      rw (
        cmp_bytes_refl (tag c x w.mac_key w.transcript bytes),
        x.from_postcard-to_postcard (body_of key name platform) bytes encoded,
        c.from_bytes-to_bytes key,
        other,
      )

  -- A confirmation that a device accepts carries the tag of its body under the device's own key and
  -- transcript; the peer is the one that the body names, has the id of its key, is nobody's
  -- introduction, and its key is not the device's own.
  pub finish_sound :
      (now : ℕ) (w : AwaitingConfirm c x) (confirm : Confirm) (peer : PairedPeer c)
      → finish c x now w confirm ≡ ok peer
      → (confirm.mac ≡ tag c x w.mac_key w.transcript confirm.body)
        × (peer.public_key ≢ w.our_public_key)
        × (peer.device_id ≡ from_public_key c peer.public_key)
        × (peer.introduced_by ≡ none)
        × (body : ConfirmBody) × (x.from_postcard confirm.body ≡ some body)
        × (c.from_bytes body.public_key ≡ some peer.public_key)
        × (peer.name ≡ body.name)
        × (peer.platform ≡ body.platform)
  unfolding finish paired
  finish_sound now w confirm peer h =
      elim (Bool-cases
        (is_eq (cmp_bytes (tag c x w.mac_key w.transcript confirm.body) confirm.mac))) [
          | inr bad ↦ cc (rw bad at h)
          | inl good ↦ elim (Option-cases (x.from_postcard confirm.body)) [
            | inl failed ↦ cc (rw (good, failed) at h)
            | inr (body, e) ↦ elim (Option-cases (c.from_bytes body.public_key)) [
              | inl failed ↦ cc (rw (good, e, failed) at h)
              | inr (key, f) ↦ elim (Bool-cases (c.key_eq key w.our_public_key)) [
                | inl own ↦ cc (rw (good, e, f, own) at h)
                | inr other ↦
                    let sent : ok (paired c key body.name body.platform now) ≡ ok peer =
                      rw (good, e, f, other) at h in
                    let same : paired c key body.name body.platform now ≡ peer = ground arith in
                    rw (← same) (
                      ground (
                        arith,
                        cmp_bytes_eq (tag c x w.mac_key w.transcript confirm.body) confirm.mac,
                      ),
                      (λ own. ground (arith, (c.key_eq_iff key w.our_public_key).1 own)),
                      refl,
                      refl,
                      body,
                      e,
                      f,
                      refl,
                      refl,
                    )
              ]
            ]
          ]
        ]

  -- A device's own confirmation, sent back to it, is refused as a reflection.
  pub finish_refuses_own :
      (now : ℕ) (s : Pairing c x) (w : AwaitingConfirm c x) (own : Confirm) (peer_message : List ℕ)
      (key : c.Key) (name platform : String)
      → key_exchange c x s peer_message key name platform ≡ ok (w, own)
      → finish c x now w own ≡ err pairing_reflected
  unfolding key_exchange finish
  finish_refuses_own now s w own peer_message key name platform h =
      elim (Bool-cases (is_eq (cmp_bytes peer_message s.ours))) [
        | inl mine ↦ cc (rw mine at h)
        | inr other ↦ elim (Option-cases (x.finish_spake s.spake peer_message)) [
          | inl failed ↦ cc (rw (other, failed) at h)
          | inr (shared, agreed) ↦ elim (Option-cases (x.to_postcard (body_of key name platform))) [
            | inl failed ↦ cc (rw (other, agreed, failed) at h)
            | inr (bytes, encoded) ↦
                let v = awaiting s peer_message key shared in
                let sent : ◌≡◌ {A = Result (AwaitingConfirm c x × Confirm)}
                    (ok (v, confirmation v bytes)) (ok (w, own)) =
                  rw (other, agreed, encoded) at h in
                let fst : v ≡ w = ground arith in
                let snd : confirmation v bytes ≡ own = ground arith in
                rw (← fst, ← snd)
                  (rw (
                    cmp_bytes_refl (tag c x v.mac_key v.transcript bytes),
                    x.from_postcard-to_postcard (body_of key name platform) bytes encoded,
                    c.from_bytes-to_bytes key,
                    (c.key_eq_iff key key).1 refl,
                  ))
          ]
        ]
      ]

module _ (c : Crypto) (x : Exchange) (code binding : List ℕ) (a b : ℕ) where
  abbrev message : ℕ → List ℕ
  message random = (start c x code binding random).1

  -- Two devices that run the exchange with one code over one channel, with different messages and
  -- different keys, each accept the other's confirmation, and each learns exactly the other's key,
  -- name and platform.
  pub pairing_agrees :
      (now : ℕ) (ours theirs : c.Key) (our_name their_name our_platform their_platform : String)
      (our_bytes their_bytes : List ℕ)
      → message a ≢ message b
      → ours ≢ theirs
      → x.to_postcard (body_of c x ours our_name our_platform) ≡ some our_bytes
      → x.to_postcard (body_of c x theirs their_name their_platform) ≡ some their_bytes
      → (w : AwaitingConfirm c x) × (v : AwaitingConfirm c x) × (our_confirm : Confirm)
        × (their_confirm : Confirm) × (key_exchange c x
              (start c x code binding a).0
              (message b)
              ours
              our_name
              our_platform
            ≡ ok (w, our_confirm))
        × (key_exchange c x
              (start c x code binding b).0
              (message a)
              theirs
              their_name
              their_platform
            ≡ ok (v, their_confirm))
        × (finish c x now w their_confirm ≡ ok (paired c theirs their_name their_platform now))
        × (finish c x now v our_confirm ≡ ok (paired c ours our_name our_platform now))
  unfolding start
  pairing_agrees now ours theirs our_name their_name our_platform their_platform our_bytes
        their_bytes apart keys encoded encoded' =
      let (shared, e, f) = x.agree code pairing_context a b in
      let s = (start c x code binding a).0 in
      let t = (start c x code binding b).0 in
      let w = awaiting c x s (message b) ours shared in
      let v = awaiting c x t (message a) theirs shared in
      let script : w.transcript ≡ v.transcript =
        transcript_symmetric c x (message a) (message b) binding in
      (
        w,
        v,
        confirmation c x w our_bytes,
        confirmation c x v their_bytes,
        key_exchange_ok c x s (message b) shared our_bytes ours our_name our_platform
            (λ p. apart (sym p)) e encoded,
        key_exchange_ok c x t (message a) shared their_bytes theirs their_name their_platform apart
            f encoded',
        rw (← script) (
            finish_ok c x now w theirs their_name their_platform their_bytes encoded'
              (λ p. keys (sym p))),
        rw script (finish_ok c x now v ours our_name our_platform our_bytes encoded keys),
      )
