-- ===== src/Net/Trust.antt =====
-- crates/lattice-net/src/trust.rs: the devices that this one has paired with, and their file.
-- The file is the text that serde_json writes, of the objects that the derived codecs make of the
-- peers. `writable` says whether the folder can be made and the file be opened; where it cannot, the
-- file stays as it was. A write that is cut short after that is left out.
pub mod Laws
use Prim.Native.String.{String}
use p2p_distributed_inferenc.Prelude.{
  ℕ, Bool, true, false, Option, none, some, ◌^◌, List, [], ◌∷◌, map, ◌&&◌, ltb, ◌==◌, length,
  if◌then◌else◌,
}
use p2p_distributed_inferenc.Prelude.Order.{Ord, bytes_ord}
use p2p_distributed_inferenc.Prelude.BTreeMap
use p2p_distributed_inferenc.Net.Error.{Result, ok, err, ◌>>=◌, guard, or_fail, io, trust_store}
use p2p_distributed_inferenc.Net.Json.{
  Json, null, number, string, numbers, Object, Found, missing, value, field,
}
use p2p_distributed_inferenc.Net.Identity.{Crypto, DeviceId, from_public_key}

unfoldable pub all_bytes : List ℕ → Bool
all_bytes [] = true
all_bytes (b ∷ bytes) = let rest = all_bytes bytes in ltb b 256 && rest

-- `skip_serializing_if = "Option::is_none"`
abbrev pub introduced_by_field : Option DeviceId → Object
introduced_by_field none = []
introduced_by_field (some by) = ("introduced_by", numbers by) ∷ []

-- An array of eight bytes.
unfoldable pub id_at : Found → Result DeviceId
id_at (value (numbers bytes)) =
    guard (length bytes == 8 && all_bytes bytes) trust_store >>= (λ _. ok bytes)
id_at _ = err trust_store

unfoldable pub string_at : Found → Result String
string_at (value (string s)) = ok s
string_at _ = err trust_store

unfoldable pub u64_at : Found → Result ℕ
u64_at (value (number n)) = guard (ltb n (2 ^ 64)) trust_store >>= (λ _. ok n)
u64_at _ = err trust_store

-- `default`, where the field is missing.
unfoldable pub introduced_by_at : Found → Result (Option DeviceId)
unfolding id_at
introduced_by_at missing = ok none
introduced_by_at (value null) = ok none
introduced_by_at found = id_at found >>= (λ by. ok (some by))

module _ (c : Crypto) where
  pub record PairedPeer : Type 0 where
    pub device_id : DeviceId
    pub public_key : c.Key
    pub name : String
    pub platform : String
    pub paired_at : ℕ
    pub introduced_by : Option DeviceId

  -- `PairedPeer::new`; `now` is the clock in Unix seconds.
  unfoldable pub paired : c.Key → String → String → ℕ → PairedPeer
  paired key name platform now = record {
    device_id = from_public_key c key;
    public_key = key;
    name = name;
    platform = platform;
    paired_at = now;
    introduced_by = none;
  }

  -- `PairedPeer::introduced`
  unfoldable pub introduced : c.Key → String → String → ℕ → DeviceId → PairedPeer
  unfolding paired
  introduced key name platform now by = record (paired key name platform now) {
    introduced_by = some by;
  }

  -- `PairedPeer::serialize`, with `verifying_key_hex::serialize`.
  unfoldable pub object_of : PairedPeer → Object
  object_of p =
      ("device_id", numbers p.device_id)
      ∷ ("public_key", string (c.encode (c.to_bytes p.public_key)))
      ∷ ("name", string p.name)
      ∷ ("platform", string p.platform)
      ∷ ("paired_at", number p.paired_at)
      ∷ introduced_by_field p.introduced_by

  -- `verifying_key_hex::deserialize`
  unfoldable pub key_at : Found → Result c.Key
  key_at (value (string digits)) =
      or_fail trust_store (c.decode_to_slice 32 digits)
      >>= (λ bytes. or_fail trust_store (c.from_bytes bytes))
  key_at _ = err trust_store

  -- `PairedPeer::deserialize`
  unfoldable pub peer_of : Object → Result PairedPeer
  peer_of o = do
    device_id ← id_at (field "device_id" o)
    public_key ← key_at (field "public_key" o)
    name ← string_at (field "name" o)
    platform ← string_at (field "platform" o)
    paired_at ← u64_at (field "paired_at" o)
    introduced_by ← introduced_by_at (field "introduced_by" o)
    ok (record {
      device_id = device_id;
      public_key = public_key;
      name = name;
      platform = platform;
      paired_at = paired_at;
      introduced_by = introduced_by;
    })

  unfoldable pub peers_of : List Object → Result (List PairedPeer)
  peers_of [] = ok []
  peers_of (o ∷ objects) = do p ← peer_of o; peers ← peers_of objects; ok (p ∷ peers)

  pub record TrustStore : Type 0 where
    pub peers : List (DeviceId × PairedPeer)
    pub file : Option c.JsonText

  abbrev pub values : List (DeviceId × PairedPeer) → List PairedPeer
  values = map (λ e. e.1)

  abbrev pub loaded : c.JsonText → List PairedPeer → TrustStore
  loaded text saved = record {
    peers = BTreeMap.collect [] (map (λ p. (p.device_id, p)) saved);
    file = some text;
  }

  -- `TrustStore::load`, of what reading the file gave: the reason that it failed for, nothing where
  -- the file is absent, or its text.
  unfoldable pub load : Result (Option c.JsonText) → Result TrustStore
  load (err e) = err e
  load (ok none) = ok (record { peers = []; file = none })
  load (ok (some text)) = do
    objects ← or_fail trust_store (c.from_slice text)
    saved ← peers_of objects
    ok (loaded text saved)

  unfoldable pub save : Bool → TrustStore → Result (Unit {0}) × TrustStore
  save writable s =
      if writable
      then (ok tt, record s { file = some (c.to_vec_pretty (map object_of (values s.peers))) })
      else (err io, s)

  -- The peer is in memory also where the write fails.
  unfoldable pub insert : Bool → PairedPeer → TrustStore → Result (Unit {0}) × TrustStore
  unfolding save
  insert writable peer s =
      save writable (record s { peers = BTreeMap.insert peer.device_id peer s.peers })

  abbrev removed : Result (Unit {0}) × TrustStore → Result Bool × TrustStore
  removed (ok _, s) = (ok true, s)
  removed (err e, s) = (err e, s)

  unfoldable pub remove : Bool → DeviceId → TrustStore → Result Bool × TrustStore
  unfolding save
  remove writable id s = elim (BTreeMap.get id s.peers) [
    | none ↦ (ok false, s)
    | some _ ↦ removed (save writable (record s { peers = BTreeMap.remove id s.peers }))
  ]

  unfoldable pub get : DeviceId → TrustStore → Option PairedPeer
  get id s = BTreeMap.get id s.peers

  unfoldable pub is_trusted : c.Key → TrustStore → Bool
  is_trusted key s = elim (BTreeMap.get (from_public_key c key) s.peers) [
    | none ↦ false
    | some p ↦ c.key_eq p.public_key key
  ]

  -- `TrustedPeers::accept` on the store behind its lock, which is `none` where it is poisoned.
  unfoldable pub accept : c.Key → Option TrustStore → Bool
  accept key none = false
  accept key (some s) = is_trusted key s
