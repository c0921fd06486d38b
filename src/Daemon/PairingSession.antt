-- ===== src/Daemon/PairingSession.antt =====
-- crates/latticed/src/pairing_session.rs: a pairing, and each side's word that it was saved. The limit
-- of thirty seconds is left out.
mod Examples
use Prim.Native.String.{String}
use p2p_distributed_inferenc.Prelude.{
  ℕ, ◌≡◌, refl, ◌++◌, sym, ap, ◌∙◌, inl, inr, Bool, true, false, not, Option, none, some, List, [],
  ◌∷◌, length, if◌then◌else◌, arith, Bool-cases,
}
use p2p_distributed_inferenc.Prelude.Order.{cmp_bytes, cmp_bytes_eq, cmp_bytes_refl, is_eq}
use p2p_distributed_inferenc.Prelude.Results
use p2p_distributed_inferenc.Prelude.Results.{
  ok, err, ◌>>=◌, ◌>>◌, guard, or_fail, map_err, bind-ok,
}
use p2p_distributed_inferenc.Net.Error
use p2p_distributed_inferenc.Net.Identity.{Crypto, DeviceId, from_public_key}
use p2p_distributed_inferenc.Net.Trust
use p2p_distributed_inferenc.Net.Trust.{PairedPeer, TrustStore, is_trusted}
use p2p_distributed_inferenc.Net.Trust.Laws.{is_trusted-insert}
use p2p_distributed_inferenc.Net.Codec.{Pipe, write_frame, read_frame}
use p2p_distributed_inferenc.Net.Codec.Frames.{read_frame-contents}
use p2p_distributed_inferenc.Net.Bytes.{from_le_bytes}
use p2p_distributed_inferenc.Net.Message.{Wire}
use p2p_distributed_inferenc.Net.Mesh.{Role}
use p2p_distributed_inferenc.Net.Transport.{Channel, control_stream}
use p2p_distributed_inferenc.Net.Pairing.{Confirm, Exchange, AwaitingConfirm, finish}
use p2p_distributed_inferenc.Net.Pairing.Agreement.{finish_sound}
use p2p_distributed_inferenc.Net.Pairing.OverStream.{exchange, exchange-finish}

pub data Fault : Type 0 where
  pairing_failed saving network : Error.Error → Fault
  other_identity not_confirmed not_ended not_delivered stopped_by_peer : Fault

abbrev pub Result : Type 0 → Type 0
Result A = Results.Result Fault A

-- `b"saved"`
abbrev pub saved : List ℕ
saved = 115 ∷ 97 ∷ 118 ∷ 101 ∷ 100 ∷ []

abbrev pub is_empty : List ℕ → Bool
is_empty [] = true
is_empty (b ∷ bytes) = false

module _ (pipe : Pipe) where
  open pipe use {S, contents}

  -- The second control stream. `stopped` is what quinn says of the stream that was finished: whether
  -- the peer stopped it, or `none` where the connection is lost.
  unfoldable pub confirm_saved : Role → Option (Channel pipe) → Option Bool → Result (Unit {0})
  confirm_saved role opened stopped = do
    (send, recv) ← map_err network (control_stream pipe role opened)
    sent ← map_err network (write_frame pipe send saved)
    (bytes, rest) ← map_err network (read_frame pipe recv (length saved))
    guard (is_eq (cmp_bytes bytes saved)) not_confirmed
    guard (is_empty (contents rest)) not_ended
    halted ← or_fail not_delivered stopped
    guard (not halted) stopped_by_peer

  -- The peer confirms on the second stream: behind the length of the word, the five bytes of the word
  -- and nothing more, and it has not stopped the stream with this side's word.
  pub record IsConfirmed (role : Role) (opened : Option (Channel pipe)) (stopped : Option Bool)
      : Type 0 where
    pub send : S
    pub recv : S
    pub channel : control_stream pipe role opened ≡ Error.ok (send, recv)
    pub header : List ℕ
    pub announced : from_le_bytes header ≡ 5
    pub word : contents recv ≡ header ++ (115 ∷ 97 ∷ 118 ∷ 101 ∷ 100 ∷ [])
    pub kept : stopped ≡ some false

  last_checks :
      (left : List ℕ) (stopped : Option Bool)
      → (guard (is_empty left) not_ended
          >> (or_fail not_delivered stopped >>= (λ halted. guard (not halted) stopped_by_peer)))
        ≡ ok tt
      → (left ≡ []) × (stopped ≡ some false)
  last_checks [] none h = cc
  last_checks [] (some true) h = cc
  last_checks [] (some false) h = (refl, refl)
  last_checks (b ∷ left) stopped h = cc

  confirm_saved-IsConfirmed :
      (role : Role) (opened : Option (Channel pipe)) (stopped : Option Bool)
      → confirm_saved role opened stopped ≡ ok tt
      → IsConfirmed role opened stopped
  unfolding confirm_saved
  confirm_saved-IsConfirmed role opened stopped h =
      elim (Error.Result-cases (control_stream pipe role opened)) [
        | inr (e, f) ↦ cc (rw f at h)
        | inl ((send, recv), f) ↦ elim (Error.Result-cases (write_frame pipe send saved)) [
          | inr (e, g) ↦ cc (rw (f, g) at h)
          | inl (sent, g) ↦ elim (Error.Result-cases (read_frame pipe recv (length saved))) [
            | inr (e, k) ↦ cc (rw (f, g, k) at h)
            | inl ((bytes, rest), k) ↦
                let (header, _, announced, front) =
                  read_frame-contents pipe recv rest (length saved) bytes k in
                let (word, ended, kept) = checks bytes (contents rest) (rw (f, g, k) at h) in
                record {
                  send = send;
                  recv = recv;
                  channel = f;
                  header = header;
                  announced = announced ∙ ap length word;
                  word = front ∙ rw (word, ended) refl;
                  kept = kept;
                }
          ]
        ]
      ]
    where
      checks :
          (bytes left : List ℕ)
          → (guard (is_eq (cmp_bytes bytes saved)) not_confirmed
              >> (guard (is_empty left) not_ended
                  >> (or_fail not_delivered stopped
                      >>= (λ halted. guard (not halted) stopped_by_peer))))
            ≡ ok tt
          → (bytes ≡ saved) × (left ≡ []) × (stopped ≡ some false)
      checks bytes left k = elim (Bool-cases (is_eq (cmp_bytes bytes saved))) [
        | inr other ↦ cc (rw other at k)
        | inl same ↦
            let (ended, kept) = last_checks left stopped (rw same at k) in
            (ground (arith, cmp_bytes_eq bytes saved), ended, kept)
      ]

  module _ (c : Crypto) (x : Exchange) (confirms : Wire Confirm) (now : ℕ) (key : c.Key)
      (name platform : String) (writable : Bool) (peer_id : DeviceId) where
    abbrev pub inserted :
        Result (Unit {0})
        → DeviceId
        → Error.Result (Unit {0}) × TrustStore c
        → Result DeviceId × TrustStore c
    inserted confirmed id (err e, s) = (err (saving e), s)
    inserted confirmed id (ok _, s) = (confirmed >>= (λ _. ok id), s)

    abbrev pub stored :
        Result (Unit {0})
        → Error.Result (PairedPeer c)
        → TrustStore c
        → Result DeviceId × TrustStore c
    stored confirmed (err e) s = (err (pairing_failed e), s)
    stored confirmed (ok peer) s =
        if not (is_eq (cmp_bytes peer.device_id peer_id))
        then (err other_identity, s)
        else inserted confirmed peer.device_id (Trust.insert c writable peer s)

    -- `exchange`, on the two control streams of the connection, with the store that it leaves.
    unfoldable pub session :
        List ℕ
        → List ℕ
        → ℕ
        → Role
        → Option (Channel pipe)
        → Option (Channel pipe)
        → Option Bool
        → TrustStore c
        → Result DeviceId × TrustStore c
    session code binding random role first second stopped s =
        stored (confirm_saved role second stopped)
          (exchange c x pipe confirms now key name platform code binding random role first) s

    inserted-ok :
        (confirmed : Result (Unit {0})) (id found : DeviceId)
        (y : Error.Result (Unit {0}) × TrustStore c) (t : TrustStore c)
        → inserted confirmed id y ≡ (ok found, t)
        → (id ≡ found) × (y.1 ≡ t) × (confirmed ≡ ok tt)
    inserted-ok confirmed id found (err e, s) t h = absurd cc
    inserted-ok (err e) id found (ok u, s) t h = absurd cc
    inserted-ok (ok u) id found (ok v, s) t h = (ground arith, ap (λ r. r.1) h, refl)

    -- A session that returns a device has paired with the device at the other end of the connection: it
    -- has the id of a key that the store now trusts, and the peer has confirmed that it saved this one:
    -- all that it sent on the second stream is a frame of the word "saved", and it has not stopped the
    -- stream with this side's confirmation.
    pub session-is_trusted :
        (code binding : List ℕ) (random : ℕ) (role : Role) (first second : Option (Channel pipe))
        (stopped : Option Bool) (s t : TrustStore c) (id : DeviceId)
        → session code binding random role first second stopped s ≡ (ok id, t)
        → (id ≡ peer_id)
          × IsConfirmed role second stopped
          × (public_key : c.Key) × (from_public_key c public_key ≡ id)
          × (is_trusted c public_key t ≡ true)
    unfolding session
    session-is_trusted code binding random role first second stopped s t id h =
        elim (Error.Result-cases
          (exchange c x pipe confirms now key name platform code binding random role first)) [
            | inr (e, failed) ↦ cc (rw failed at h)
            | inl (peer, e) ↦ elim (Bool-cases (is_eq (cmp_bytes peer.device_id peer_id))) [
              | inr other ↦ cc (rw (e, other) at h)
              | inl same ↦
                  let (found, store, confirmed) =
                    inserted-ok (confirm_saved role second stopped) peer.device_id id
                      (Trust.insert c writable peer s) t (rw (e, same) at h) in
                  let (w, confirm, accepted) =
                    exchange-finish c x pipe confirms now key name platform code binding random role
                      first peer e in
                  let keyed = (finish_sound c x now w confirm peer accepted).2 in
                  let at : peer.device_id ≡ peer_id =
                    ground (arith, cmp_bytes_eq peer.device_id peer_id) in
                  (
                    sym found ∙ at,
                    confirm_saved-IsConfirmed role second stopped confirmed,
                    peer.public_key,
                    sym keyed ∙ found,
                    rw (← store) (
                        is_trusted-insert c writable peer s peer.public_key
                        ∙ rw (← keyed, cmp_bytes_refl peer.device_id)
                            ((c.key_eq_iff peer.public_key peer.public_key).1 refl)),
                  )
            ]
          ]
