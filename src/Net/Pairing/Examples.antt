-- ===== src/Net/Pairing/Examples.antt =====
-- A small exchange, and the theorems about pairing at it. Both sides' shared key is the code itself.
use Prim.Native.String.{compare}
use text.Mathlib.TextEquality.{path_by_compare}
use p2p_distributed_inferenc.Prelude.{
  ℕ, ◌≡◌, refl, ◌≢◌, ◌&&◌, Option, none, some, List, [], ◌∷◌, ◌++◌, arith, if◌then◌else◌,
}
use p2p_distributed_inferenc.Prelude.Order.{cmp_bytes, is_eq}
use p2p_distributed_inferenc.Net.Error.{ok}
use p2p_distributed_inferenc.Net.Identity.{from_public_key}
use p2p_distributed_inferenc.Net.Trust.{paired}
use p2p_distributed_inferenc.Net.Examples.{number_keys, peer, id_of}
use p2p_distributed_inferenc.Net.Pairing.{
  Confirm, ConfirmBody, Exchange, AwaitingConfirm, start, tag, key_exchange, finish, parse,
  trim_start, trim_end, is_ascii_digit, all_digits,
}
use p2p_distributed_inferenc.Net.Pairing.Agreement.{pairing_agrees, finish_sound}

-- Bodies of one name and platform are encoded, by their key.
abbrev pub body_bytes : ConfirmBody → Option (List ℕ)
body_bytes body =
    if is_eq (compare body.name "peer") && is_eq (compare body.platform "linux")
    then some body.public_key
    else none

abbrev pub body_at : List ℕ → Option ConfirmBody
body_at bytes = some (record { public_key = bytes; name = "peer"; platform = "linux" })

pub body_at-body_bytes :
    (body : ConfirmBody) (bytes : List ℕ) → body_bytes body ≡ some bytes → body_at bytes ≡ some body
body_at-body_bytes body bytes h =
    ground (arith, path_by_compare body.name "peer", path_by_compare body.platform "linux")

abbrev pub by_code : Exchange
by_code = record {
  Spake = List ℕ;
  start_symmetric = λ password identity random. (password, random ∷ []);
  finish_spake = λ spake message. some spake;
  agree = λ password identity a b. (password, refl, refl);
  hmac = λ key message. key ++ message;
  to_postcard = body_bytes;
  from_postcard = body_at;
  from_postcard-to_postcard = body_at-body_bytes;
}

abbrev pub code : List ℕ
code = 49 ∷ 50 ∷ 51 ∷ 52 ∷ 53 ∷ 54 ∷ []

code_read : parse (32 ∷ code) ≡ ok code
unfolding parse trim_start trim_end is_ascii_digit all_digits
code_read = refl

messages_apart : ◌≢◌ {A = List ℕ} (1 ∷ []) (2 ∷ [])
messages_apart e = ground arith

keys_apart : ◌≢◌ {A = ℕ} 1 2
keys_apart e = ground arith

pairing_agrees_example :
    (w : AwaitingConfirm number_keys by_code) × (v : AwaitingConfirm number_keys by_code)
    × (our_confirm : Confirm) × (their_confirm : Confirm) × (key_exchange number_keys by_code
          (start number_keys by_code code (7 ∷ []) 1).0
          (start number_keys by_code code (7 ∷ []) 2).1
          1
          "peer"
          "linux"
        ≡ ok (w, our_confirm))
    × (key_exchange number_keys by_code
          (start number_keys by_code code (7 ∷ []) 2).0
          (start number_keys by_code code (7 ∷ []) 1).1
          2
          "peer"
          "linux"
        ≡ ok (v, their_confirm))
    × (finish number_keys by_code 5 w their_confirm ≡ ok (paired number_keys 2 "peer" "linux" 5))
    × (finish number_keys by_code 5 v our_confirm ≡ ok (paired number_keys 1 "peer" "linux" 5))
unfolding start
pairing_agrees_example =
    pairing_agrees number_keys by_code code (7 ∷ []) 1 2 5 1 2 "peer" "peer" "linux" "linux"
      (1 ∷ []) (2 ∷ []) messages_apart keys_apart refl refl

abbrev waiting : AwaitingConfirm number_keys by_code
waiting = record { mac_key = 9 ∷ []; transcript = 8 ∷ []; our_public_key = 1 }

abbrev their_confirmation : Confirm
their_confirmation = record { body = 2 ∷ []; mac = 9 ∷ 8 ∷ 2 ∷ [] }

confirmed : finish number_keys by_code 5 waiting their_confirmation ≡ ok (peer 2)
unfolding finish tag cmp_bytes paired from_public_key
confirmed = refl

finish_sound_example :
    (9 ∷ 8 ∷ 2 ∷ [] ≡ tag number_keys by_code (9 ∷ []) (8 ∷ []) (2 ∷ []))
    × (◌≢◌ {A = ℕ} 2 1)
    × (id_of 2 ≡ from_public_key number_keys 2)
    × ((peer 2).introduced_by ≡ none)
    × (body : ConfirmBody) × (by_code.from_postcard (2 ∷ []) ≡ some body)
    × (number_keys.from_bytes body.public_key ≡ some 2)
    × ("peer" ≡ body.name)
    × ("linux" ≡ body.platform)
finish_sound_example =
    finish_sound number_keys by_code 5 waiting their_confirmation (peer 2) confirmed
