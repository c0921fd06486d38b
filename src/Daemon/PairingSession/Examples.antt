-- ===== src/Daemon/PairingSession/Examples.antt =====
-- A session of device 1 with device 2, by one code.
use p2p_distributed_inferenc.Prelude.{
  ℕ, ◌≡◌, refl, true, false, Option, none, some, List, [], ◌∷◌, ◌++◌, arith,
}
use p2p_distributed_inferenc.Prelude.Order.{cmp_bytes}
use p2p_distributed_inferenc.Prelude.Results.{ok}
use p2p_distributed_inferenc.Net.Bytes.{to_le_bytes, from_le_bytes}
use p2p_distributed_inferenc.Net.Identity.{from_public_key}
use p2p_distributed_inferenc.Net.Trust
use p2p_distributed_inferenc.Net.Trust.{TrustStore, paired, is_trusted, save}
use p2p_distributed_inferenc.Net.Codec.{write_frame, read_frame}
use p2p_distributed_inferenc.Net.Codec.Frames.{frame}
use p2p_distributed_inferenc.Net.Message.{Wire, send_message, recv_message}
use p2p_distributed_inferenc.Net.Mesh.{dialer}
use p2p_distributed_inferenc.Net.Transport.{control_stream, open_stream}
use p2p_distributed_inferenc.Net.Pairing.{
  Confirm, confirm_label, start, derive, tag, transcript_of, key_exchange, finish,
}
use p2p_distributed_inferenc.Net.Pairing.OverStream.{exchange, exchanged}
use p2p_distributed_inferenc.Net.Pairing.Examples.{by_code, code}
use p2p_distributed_inferenc.Net.Examples.{byte_pipe, split, number_keys, id_of, peer}
use p2p_distributed_inferenc.Daemon.PairingSession.{
  IsConfirmed, saved, confirm_saved, session, session-is_trusted,
}

-- A confirmation with a body of one byte.
abbrev confirm_bytes : Confirm → Option (List ℕ)
confirm_bytes confirm = elim confirm.body [
  | [] ↦ none
  | b ∷ bs ↦ elim bs [ [] ↦ some (b ∷ confirm.mac) | _ ∷ _ ↦ none ]
]

abbrev confirm_at : List ℕ → Option Confirm
confirm_at [] = none
confirm_at (b ∷ mac) = some (record { body = b ∷ []; mac = mac })

confirm_at-confirm_bytes :
    (confirm : Confirm) (bytes : List ℕ)
    → confirm_bytes confirm ≡ some bytes
    → confirm_at bytes ≡ some confirm
confirm_at-confirm_bytes confirm bytes h = decoded confirm.body refl h
  where
    decoded :
        (body : List ℕ)
        → confirm.body ≡ body
        → elim body as (λ _. Option (List ℕ)) [
          | [] ↦ none
          | b ∷ bs ↦ elim bs [ [] ↦ some (b ∷ confirm.mac) | _ ∷ _ ↦ none ]
        ]
          ≡ some bytes
        → confirm_at bytes ≡ some confirm
    decoded [] e k = cc
    decoded (b ∷ []) e k =
        let same : b ∷ confirm.mac ≡ bytes = ground arith in rw (← same) (rw (← e) refl)
    decoded (b ∷ d ∷ bs) e k = cc

abbrev confirms : Wire Confirm
confirms = record {
  to_allocvec = confirm_bytes;
  from_bytes = confirm_at;
  from_bytes-to_allocvec = confirm_at-confirm_bytes;
}

-- What device 2 sends: its message and its confirmation, and that it has saved the pairing.
abbrev theirs : List ℕ
theirs = frame (2 ∷ []) ++ frame (2 ∷ (code ++ (confirm_label ++ (1 ∷ 2 ∷ 7 ∷ 2 ∷ []))))

abbrev device : TrustStore number_keys
device = record { peers = []; file = none }

exchanges :
    exchange number_keys by_code byte_pipe confirms 5 1 "peer" "linux" code
      (7 ∷ [])
      1
      dialer
      (some ([], theirs))
    ≡ ok (peer 2)
unfolding exchange exchanged control_stream open_stream start key_exchange finish write_frame
    read_frame send_message recv_message derive tag transcript_of cmp_bytes to_le_bytes
    from_le_bytes split paired from_public_key
exchanges = refl

confirms_saved : confirm_saved byte_pipe dialer (some ([], frame saved)) (some false) ≡ ok tt
unfolding confirm_saved control_stream open_stream write_frame read_frame cmp_bytes to_le_bytes
    from_le_bytes split
confirms_saved = refl

abbrev device_after : TrustStore number_keys
device_after = (Trust.insert number_keys true (peer 2) device).1

succeeds :
    session byte_pipe number_keys by_code confirms 5 1 "peer" "linux" true
      (id_of 2)
      code
      (7 ∷ [])
      1
      dialer
      (some ([], theirs))
      (some ([], frame saved))
      (some false)
      device
    ≡ (ok (id_of 2), device_after)
unfolding session Trust.insert save cmp_bytes
succeeds = rw (exchanges, confirms_saved) refl

session-is_trusted_example :
    (id_of 2 ≡ id_of 2)
    × IsConfirmed byte_pipe dialer (some ([], frame saved)) (some false)
    × (public_key : ℕ) × (from_public_key number_keys public_key ≡ id_of 2)
    × (is_trusted number_keys public_key device_after ≡ true)
session-is_trusted_example =
    session-is_trusted byte_pipe number_keys by_code confirms 5 1 "peer" "linux" true (id_of 2) code
      (7 ∷ []) 1 dialer (some ([], theirs)) (some ([], frame saved)) (some false) device
      device_after (id_of 2) succeeds
