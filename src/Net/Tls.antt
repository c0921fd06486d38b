-- ===== src/Net/Tls.antt =====
-- crates/lattice-net/src/tls.rs: the key in a certificate, and the binding of an exchange to the
-- connection that carries it. A certificate is its DER bytes, which x509-parser takes apart.
use p2p_distributed_inferenc.Prelude.{
  ℕ, ◌≡◌, Bool, Option, List, [], ◌∷◌, ◌++◌, arith, length, ◌==◌, if◌then◌else◌,
}
use p2p_distributed_inferenc.Prelude.Order.{
  cmp_bytes, cmp_bytes_eq, cmp_bytes_gt, cmp_bytes_lt, is_le,
}
use p2p_distributed_inferenc.Net.Error.{
  Result, ◌>>=◌, ◌>>◌, guard, or_fail, certificate, unreadable_certificate, not_ed25519,
  not_32_bytes, unusable_key,
}
use p2p_distributed_inferenc.Net.Identity.{Crypto}

-- The subject's public key: whether its algorithm is Ed25519, and its bits.
pub record Spki : Type 0 where
  pub is_ed25519 : Bool
  pub subject_public_key : List ℕ

abbrev pub X509 : Type 0
X509 = List ℕ → Option Spki

-- `b"lattice-channel-binding-v1"`
abbrev pub channel_binding_context : List ℕ
channel_binding_context =
    108 ∷ 97 ∷ 116 ∷ 116 ∷ 105 ∷ 99 ∷ 101 ∷ 45 ∷ 99 ∷ 104 ∷ 97 ∷ 110 ∷ 110 ∷ 101 ∷ 108 ∷ 45 ∷ 98
    ∷ 105 ∷ 110 ∷ 100 ∷ 105 ∷ 110 ∷ 103 ∷ 45 ∷ 118 ∷ 49 ∷ []

module _ (c : Crypto) where
  unfoldable pub peer_key : X509 → List ℕ → Result c.Key
  peer_key x509 cert = do
    spki ← or_fail (certificate unreadable_certificate) (x509 cert)
    guard spki.is_ed25519 (certificate not_ed25519)
    guard (length spki.subject_public_key == 32) (certificate not_32_bytes)
    or_fail (certificate unusable_key) (c.from_bytes spki.subject_public_key)

  -- The hash of the context and the two digests in order.
  unfoldable pub binding_of : List ℕ → List ℕ → List ℕ
  binding_of a b =
      c.sha256 (channel_binding_context ++ (if is_le (cmp_bytes a b) then a ++ b else b ++ a))

  unfoldable pub channel_binding : List ℕ → List ℕ → List ℕ
  unfolding binding_of
  channel_binding local peer = binding_of (c.sha256 local) (c.sha256 peer)

  -- Both ends of a connection derive the same binding, each from its own certificate and the peer's.
  pub channel_binding_comm :
      (local peer : List ℕ) → channel_binding local peer ≡ channel_binding peer local
  unfolding channel_binding binding_of
  channel_binding_comm local peer = ground (
    arith,
    cmp_bytes_eq (c.sha256 local) (c.sha256 peer),
    cmp_bytes_gt (c.sha256 local) (c.sha256 peer),
    cmp_bytes_lt (c.sha256 local) (c.sha256 peer),
  )
