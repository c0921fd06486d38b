-- ===== src/Net/Pairing.antt =====
-- crates/lattice-net/src/pairing.rs: pairing over a six-digit code, up to the exchange's two steps.
-- Texts are lists of code points, byte strings are lists of numbers.
pub mod Agreement
pub mod Code
pub mod OverStream
pub mod Examples
use Prim.Native.String.{String}
use p2p_distributed_inferenc.Prelude.{
  ℕ, ◌+◌, ◌/◌, ◌%◌, ◌≡◌, Bool, true, false, not, ◌&&◌, ◌||◌, Option, none, some, List, [], ◌∷◌,
  ◌++◌, ◌==◌, leb, if◌then◌else◌, length,
}
use p2p_distributed_inferenc.Prelude.Order.{cmp_bytes, is_eq, is_le}
use p2p_distributed_inferenc.Net.Error.{
  Result, ok, err, ◌>>=◌, ◌>>◌, guard, or_fail, malformed_pairing_code, pairing_failed,
  pairing_reflected, postcard,
}
use p2p_distributed_inferenc.Net.Identity.{Crypto}
use p2p_distributed_inferenc.Net.Trust.{PairedPeer, paired}

-- `char::is_whitespace`
abbrev is_whitespace : ℕ → Bool
is_whitespace x =
    (leb 9 x && leb x 13)
    || x == 32
    || x == 0x85
    || x == 0xA0
    || x == 0x1680
    || (leb 0x2000 x && leb x 0x200A)
    || x == 0x2028
    || x == 0x2029
    || x == 0x202F
    || x == 0x205F
    || x == 0x3000

unfoldable pub trim_start : List ℕ → List ℕ
trim_start [] = []
trim_start (x ∷ text) = let rest = trim_start text in if is_whitespace x then rest else x ∷ text

abbrev kept_end : ℕ → List ℕ → List ℕ
kept_end x [] = if is_whitespace x then [] else x ∷ []
kept_end x (y ∷ rest) = x ∷ y ∷ rest

unfoldable pub trim_end : List ℕ → List ℕ
trim_end [] = []
trim_end (x ∷ text) = kept_end x (trim_end text)

unfoldable pub is_ascii_digit : ℕ → Bool
is_ascii_digit x = leb 48 x && leb x 57

unfoldable pub all_digits : List ℕ → Bool
unfolding is_ascii_digit
all_digits [] = true
all_digits (x ∷ text) = is_ascii_digit x && all_digits text

-- `PairingCode::parse`. Six bytes that are digits are six digits.
unfoldable pub parse : List ℕ → Result (List ℕ)
unfolding trim_start trim_end all_digits
parse text =
    let trimmed = trim_end (trim_start text) in
    if length trimmed == 6 && all_digits trimmed then ok trimmed else err malformed_pairing_code

-- `format!("{:06}")` of a random number below a million.
unfoldable pub generate : ℕ → List ℕ
generate n =
    (48 + n / 100000 % 10)
    ∷ (48 + n / 10000 % 10)
    ∷ (48 + n / 1000 % 10)
    ∷ (48 + n / 100 % 10)
    ∷ (48 + n / 10 % 10)
    ∷ (48 + n % 10)
    ∷ []

pub record Confirm : Type 0 where
  pub body : List ℕ
  pub mac : List ℕ

pub record ConfirmBody : Type 0 where
  pub public_key : List ℕ
  pub name : String
  pub platform : String

-- What the exchange uses of spake2, hmac and postcard. A device's randomness is the last argument of
-- `start_symmetric`, and two sides with one password and one identity agree on a key.
pub record Exchange : Type 1 where
  pub Spake : Type 0
  pub start_symmetric : List ℕ → List ℕ → ℕ → Spake × List ℕ
  pub finish_spake : Spake → List ℕ → Option (List ℕ)
  pub agree :
      (password identity : List ℕ) (a b : ℕ)
      → (shared : List ℕ) × (finish_spake
            (start_symmetric password identity a).0
            (start_symmetric password identity b).1
          ≡ some shared)
        × (finish_spake
              (start_symmetric password identity b).0
              (start_symmetric password identity a).1
            ≡ some shared)
  pub hmac : List ℕ → List ℕ → List ℕ
  pub to_postcard : ConfirmBody → Option (List ℕ)
  pub from_postcard : List ℕ → Option ConfirmBody
  pub from_postcard-to_postcard :
      (body : ConfirmBody) (bytes : List ℕ)
      → to_postcard body ≡ some bytes
      → from_postcard bytes ≡ some body

-- `b"lattice-pairing-v1"` and `b"lattice-pairing-confirm-v1"`
abbrev pub pairing_context : List ℕ
pairing_context =
    108 ∷ 97 ∷ 116 ∷ 116 ∷ 105 ∷ 99 ∷ 101 ∷ 45 ∷ 112 ∷ 97 ∷ 105 ∷ 114 ∷ 105 ∷ 110 ∷ 103 ∷ 45 ∷ 118
    ∷ 49 ∷ []

abbrev pub confirm_label : List ℕ
confirm_label =
    108 ∷ 97 ∷ 116 ∷ 116 ∷ 105 ∷ 99 ∷ 101 ∷ 45 ∷ 112 ∷ 97 ∷ 105 ∷ 114 ∷ 105 ∷ 110 ∷ 103 ∷ 45 ∷ 99
    ∷ 111 ∷ 110 ∷ 102 ∷ 105 ∷ 114 ∷ 109 ∷ 45 ∷ 118 ∷ 49 ∷ []

module _ (c : Crypto) (x : Exchange) where
  pub record Pairing : Type 0 where
    pub spake : x.Spake
    pub ours : List ℕ
    pub channel_binding : List ℕ

  pub record AwaitingConfirm : Type 0 where
    pub mac_key : List ℕ
    pub transcript : List ℕ
    pub our_public_key : c.Key

  -- `Pairing::start`
  unfoldable pub start : List ℕ → List ℕ → ℕ → Pairing × List ℕ
  start code binding random =
      let (spake, ours) = x.start_symmetric code pairing_context random in
      (record { spake = spake; ours = ours; channel_binding = binding }, ours)

  unfoldable pub derive : List ℕ → List ℕ → List ℕ
  derive shared label = x.hmac shared label

  unfoldable pub tag : List ℕ → List ℕ → List ℕ → List ℕ
  tag key transcript body = x.hmac key (transcript ++ body)

  -- The two messages in canonical order, and the binding.
  unfoldable pub transcript_of : List ℕ → List ℕ → List ℕ → List ℕ
  transcript_of ours peer_message binding =
      (if is_le (cmp_bytes ours peer_message) then ours ++ peer_message else peer_message ++ ours)
      ++ binding

  -- `Pairing::key_exchange`, with the public half of the device key.
  unfoldable pub key_exchange :
      Pairing → List ℕ → c.Key → String → String → Result (AwaitingConfirm × Confirm)
  unfolding derive tag transcript_of
  key_exchange s peer_message key name platform = do
    guard (not (is_eq (cmp_bytes peer_message s.ours))) pairing_reflected
    shared ← or_fail pairing_failed (x.finish_spake s.spake peer_message)
    let transcript = transcript_of s.ours peer_message s.channel_binding
    let mac_key = derive shared confirm_label
    body ←
        or_fail postcard
          (x.to_postcard (record { public_key = c.to_bytes key; name = name; platform = platform }))
    ok (
      record { mac_key = mac_key; transcript = transcript; our_public_key = key },
      record { body = body; mac = tag mac_key transcript body },
    )

  -- `AwaitingConfirm::finish`, at the time `now`.
  unfoldable pub finish : ℕ → AwaitingConfirm → Confirm → Result (PairedPeer c)
  unfolding tag
  finish now w confirm = do
    guard (is_eq (cmp_bytes (tag w.mac_key w.transcript confirm.body) confirm.mac)) pairing_failed
    body ← or_fail postcard (x.from_postcard confirm.body)
    public_key ← or_fail pairing_failed (c.from_bytes body.public_key)
    guard (not (c.key_eq public_key w.our_public_key)) pairing_reflected
    ok (paired c public_key body.name body.platform now)
