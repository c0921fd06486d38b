-- ===== src/Net/Identity.antt =====
-- crates/lattice-net/src/identity.rs: device identities, over Ed25519 and SHA-256.
use Prim.Native.String.{String}
use p2p_distributed_inferenc.Prelude.{
  ℕ, ◌≡◌, ◌↔◌, Bool, true, Option, some, List, arith, length, take, length-take,
}
use p2p_distributed_inferenc.Net.Json.{Object}

-- What the daemon uses of ed25519-dalek, sha2, hex and serde_json: keys compare by value, a key is read
-- back from its bytes, a digest has 32 bytes, the bytes of a key are read back from their hex digits,
-- and a list of objects from its text.
pub record Crypto : Type 1 where
  pub Key : Type 0
  pub key_eq : Key → Key → Bool
  pub key_eq_iff : (a b : Key) → (key_eq a b ≡ true) ↔ (a ≡ b)
  pub to_bytes : Key → List ℕ
  pub from_bytes : List ℕ → Option Key
  pub from_bytes-to_bytes : (k : Key) → from_bytes (to_bytes k) ≡ some k
  pub sha256 : List ℕ → List ℕ
  pub length-sha256 : (bytes : List ℕ) → length (sha256 bytes) ≡ 32
  pub encode : List ℕ → String
  pub decode_to_slice : ℕ → String → Option (List ℕ)
  pub decode-encode : (k : Key) → decode_to_slice 32 (encode (to_bytes k)) ≡ some (to_bytes k)
  pub JsonText : Type 0
  pub to_vec_pretty : List Object → JsonText
  pub from_slice : JsonText → Option (List Object)
  pub from_slice-to_vec_pretty :
      (objects : List Object) → from_slice (to_vec_pretty objects) ≡ some objects

-- `DeviceId([u8; 8])`, ordered as its bytes are.
abbrev pub DeviceId : Type 0
DeviceId = List ℕ

module _ (c : Crypto) where
  -- The first 8 bytes of the digest of the public key.
  unfoldable pub from_public_key : c.Key → DeviceId
  from_public_key key = take 8 (c.sha256 (c.to_bytes key))

  -- An identity is eight bytes long.
  pub length-from_public_key : (key : c.Key) → length (from_public_key key) ≡ 8
  unfolding from_public_key
  length-from_public_key key =
      omega (arith, length-take 8 (c.sha256 (c.to_bytes key)), c.length-sha256 (c.to_bytes key))
